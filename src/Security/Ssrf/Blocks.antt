-- ===== src/Security/Ssrf/Blocks.antt =====
-- The private IPv4 addresses as blocks of 32-bit numbers.
use hamyar_ops.Base.{
  ℕ, ◌+◌, ◌*◌, ◌<◌, ◌≡◌, refl, ap, ◌∙◌, Bool, true, false, ◌&&◌, ◌||◌, some, List, [], ◌∷◌, ◌++◌,
  any, every, Bool-cases, inl, inr, codes, arith, leb, ltb, ◌==◌,
}
use hamyar_ops.Base.Chars.{Text, text_eq, has, split, starts_with}
use hamyar_ops.Base.Chars.Lines.{split-append, split_whole, text_eq-to, has-append}
use hamyar_ops.Base.Chars.Numbers.{is_digit, decimal, decimal_digits, parse_int-decimal}
use hamyar_ops.Security.Ssrf.{part, number, is_private_ipv4, unmapped, is_private_or_local_ip}

-- The number of an IPv4 address.
abbrev pub address : ℕ → ℕ → ℕ → ℕ → ℕ
address a b c d = a * 16777216 + b * 65536 + c * 256 + d

-- The first address of a block and how many it has: "this network", 10/8, 127/8, 169.254/16,
-- 172.16/12, 192.168/16, 100.64/10, and all from 224.0.0.0 on.
abbrev pub reserved_blocks : List (ℕ × ℕ)
reserved_blocks =
    (address 0 0 0 0, 16777216)
    ∷ (address 10 0 0 0, 16777216)
    ∷ (address 127 0 0 0, 16777216)
    ∷ (address 169 254 0 0, 65536)
    ∷ (address 172 16 0 0, 1048576)
    ∷ (address 192 168 0 0, 65536)
    ∷ (address 100 64 0 0, 4194304)
    ∷ (address 224 0 0 0, 536870912)
    ∷ []

abbrev is_in : ℕ → ℕ × ℕ → Bool
is_in n (base, size) = leb base n && ltb n (base + size)

abbrev pub is_reserved : ℕ → Bool
is_reserved n = any (is_in n) reserved_blocks

module _ (a b c d : ℕ) (ha : a < 256) (hb : b < 256) (hc : c < 256) (hd : d < 256) where
  in_8 : (k : ℕ) → is_in (address a b c d) (address k 0 0 0, 16777216) ≡ (a == k)
  in_8 k = ground arith

  in_16 :
      (k l : ℕ)
      → l < 256
      → is_in (address a b c d) (address k l 0 0, 65536) ≡ ((a == k) && (b == l))
  in_16 k l h = ground arith

  in_12 :
      is_in (address a b c d) (address 172 16 0 0, 1048576) ≡ ((a == 172) && (leb 16 b && leb b 31))
  in_12 = ground arith

  in_10 :
      is_in (address a b c d) (address 100 64 0 0, 4194304)
      ≡ ((a == 100) && (leb 64 b && leb b 127))
  in_10 = ground arith

  in_3 : is_in (address a b c d) (address 224 0 0 0, 536870912) ≡ leb 224 a
  in_3 = ground arith

  or_false : (x : Bool) → (x || false) ≡ x
  or_false true = refl
  or_false false = refl

  regroup :
      (x1 x2 x3 x4 x5 x6 x7 x8 : Bool)
      → (x1 || x2 || x3 || x4 || x5 || x6 || x7 || x8)
        ≡ (x1 || (x2 || (x3 || (x4 || (x5 || (x6 || (x7 || x8)))))))
  regroup x1 x2 x3 x4 x5 x6 x7 x8 = ground arith

  pub is_private_ipv4-is_reserved :
      is_private_ipv4 (some a) (some b) ≡ is_reserved (address a b c d)
  unfolding is_private_ipv4
  is_private_ipv4-is_reserved =
      rw
        (
          in_8 0,
          in_8 10,
          in_8 127,
          in_16 169 254 (ground arith),
          in_12,
          in_16 192 168 (ground arith),
          in_10,
          in_3,
          or_false (leb 224 a),
        )
        (regroup (a == 0) (a == 10) (a == 127) (a == 169 && b == 254)
          (a == 172 && (leb 16 b && leb b 31)) (a == 192 && b == 168)
          (a == 100 && (leb 64 b && leb b 127)) (leb 224 a))

-- An IPv4 address in its usual notation.
abbrev pub dotted : ℕ → ℕ → ℕ → ℕ → Text
dotted a b c d = decimal a ++ (b'.' ∷ (decimal b ++ (b'.' ∷ (decimal c ++ (b'.' ∷ decimal d)))))

no_dot : (s : Text) → every is_digit s ≡ true → has b'.' s ≡ false
no_dot [] h = refl
no_dot (c ∷ s) h = ground (arith, no_dot s)

no_colon :
    (p s t : Text) → every is_digit s ≡ true → starts_with (b':' ∷ p) (s ++ (b'.' ∷ t)) ≡ false
no_colon p [] t h = ground arith
no_colon p (c ∷ s) t h = ground arith

not_equal : (s t : Text) → has b'.' s ≡ true → has b'.' t ≡ false → text_eq s t ≡ false
not_equal s t h k = elim (Bool-cases (text_eq s t)) [
  | inl e ↦ ground (arith, ap (has b'.') (text_eq-to s t e))
  | inr e ↦ e
]

split-dotted :
    (a b c d : ℕ) → split b'.' (dotted a b c d) ≡ decimal a ∷ decimal b ∷ decimal c ∷ decimal d ∷ []
split-dotted a b c d =
    let plain = λ (n : ℕ). no_dot (decimal n) (decimal_digits n) in
    split-append b'.' (decimal a) _ (plain a)
    ∙ ap (◌∷◌ (decimal a)) (
        split-append b'.' (decimal b) _ (plain b)
        ∙ ap (◌∷◌ (decimal b)) (
            split-append b'.' (decimal c) _ (plain c)
            ∙ ap (◌∷◌ (decimal c)) (split_whole b'.' (decimal d) (plain d))))

number-decimal : (n : ℕ) → number (decimal n) ≡ some n
number-decimal n = ground (arith, decimal_digits n, parse_int-decimal n)

of_ipv4 :
    (is_ip is_ipv4 : Text → Bool) (to_lower_case : Text → Text) (t : Text) (ps : List Text)
    → starts_with (codes "::ffff:") t ≡ false
    → text_eq t (codes "::1") ≡ false
    → text_eq t (codes "0:0:0:0:0:0:0:1") ≡ false
    → is_ip t ≡ true
    → is_ipv4 t ≡ true
    → split b'.' t ≡ ps
    → is_private_or_local_ip is_ip is_ipv4 to_lower_case t ≡ is_private_ipv4 (part 0 ps) (part 1 ps)
unfolding is_private_or_local_ip unmapped
of_ipv4 is_ip is_ipv4 to_lower_case t ps plain one long ip v4 parts =
    rw (one, long, plain, ip, v4, parts)

-- An IPv4 address in its usual notation is refused exactly if it lies in one of the blocks of
-- addresses that are private, local, shared by carriers, multicast, or not in use.
pub is_private_or_local_ip-dotted :
    (is_ip is_ipv4 : Text → Bool) (to_lower_case : Text → Text) (a b c d : ℕ)
    → (a < 256) × (b < 256) × (c < 256) × (d < 256)
    → is_ip (dotted a b c d) ≡ true
    → is_ipv4 (dotted a b c d) ≡ true
    → is_private_or_local_ip is_ip is_ipv4 to_lower_case (dotted a b c d)
      ≡ is_reserved (address a b c d)
is_private_or_local_ip-dotted is_ip is_ipv4 to_lower_case a b c d (ha, hb, hc, hd) ip v4 =
    let t = dotted a b c d in
    let dot : has b'.' t ≡ true = ground (
      arith,
      has-append b'.' (decimal a)
          (b'.' ∷ (decimal b ++ (b'.' ∷ (decimal c ++ (b'.' ∷ decimal d))))),
    ) in
    of_ipv4 is_ip is_ipv4 to_lower_case t (decimal a ∷ decimal b ∷ decimal c ∷ decimal d ∷ [])
      (no_colon (codes ":ffff:") (decimal a) _ (decimal_digits a))
      (not_equal t (codes "::1") dot refl) (not_equal t (codes "0:0:0:0:0:0:0:1") dot refl) ip v4
      (split-dotted a b c d)
    ∙ ap (λ x. is_private_ipv4 x (number (decimal b))) (number-decimal a)
    ∙ ap (is_private_ipv4 (some a)) (number-decimal b)
    ∙ is_private_ipv4-is_reserved a b c d ha hb hc hd
