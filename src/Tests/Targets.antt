-- ===== src/Tests/Targets.antt =====
-- Examples of the guards of outbound URLs and of container ids.
use hamyar_ops.Base.{◌≡◌, refl, Bool, true, [], ◌∷◌, any, codes, arith}
use hamyar_ops.Base.Chars.{Text, starts_with}
use hamyar_ops.Security.Ssrf.{is_private_or_local_ip}
use hamyar_ops.Security.Ssrf.Blocks.{dotted, address, is_reserved, is_private_or_local_ip-dotted}
use hamyar_ops.Security.PathGuard.{is_safe_docker_id}

abbrev begins_with_digit : Text → Bool
begins_with_digit t = any (λ c. starts_with (c ∷ []) t) (codes "0123456789")

abbrev unchanged : Text → Text
unchanged t = t

is_private_or_local_ip-dotted_example :
    is_private_or_local_ip (λ t. true) (λ t. true) unchanged (dotted 172 31 0 9)
    ≡ is_reserved (address 172 31 0 9)
is_private_or_local_ip-dotted_example =
    is_private_or_local_ip-dotted (λ t. true) (λ t. true) unchanged 172 31 0 9
      (ground arith, ground arith, ground arith, ground arith) refl refl

accepted_id : is_safe_docker_id (codes "web-1") ≡ true
unfolding is_safe_docker_id
accepted_id = refl
