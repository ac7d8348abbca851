-- ===== src/Security/Ssrf.antt =====
-- common/security/ssrf.ts: which addresses and URLs the panel may call. `net.isIP`, `net.isIPv4`,
-- `toLowerCase`, the parser of URLs and the DNS lookup are parameters; texts are lists of UTF-16
-- code units.
pub mod Blocks
pub mod Targets
use hamyar_ops.Base.{
  drop, ℕ, zero, suc, Bool, true, false, ◌&&◌, ◌||◌, not, Option, none, some, List, [], ◌∷◌,
  if◌then◌else◌, any, every, codes, ◌==◌, leb,
}
use hamyar_ops.Base.Chars.{
  Text, is_empty, text_eq, starts_with, ends_with, split, drop_first, drop_last,
}
use hamyar_ops.Base.Chars.Numbers.{is_digit, parse_int}
use hamyar_ops.Http.{bad_request, Result, ok, err}

abbrev pub blocked_hostnames : List Text
blocked_hostnames =
    codes "localhost"
    ∷ codes "localhost.localdomain"
    ∷ codes "metadata.google.internal"
    ∷ codes "metadata"
    ∷ []

-- Number(s) of a part of an IPv4 address: NaN if it is not made of digits.
abbrev pub number : Text → Option ℕ
number s = if every is_digit s then some (parse_int s) else none

-- The first two elements, undefined where there are fewer.
abbrev pub part : ℕ → List Text → Option ℕ
part n [] = none
part zero (p ∷ ps) = number p
part (suc n) (p ∷ ps) = part n ps

-- Comparisons; those with NaN and undefined are false.
abbrev pub is : Option ℕ → ℕ → Bool
is none n = false
is (some a) n = a == n

abbrev pub is_within : Option ℕ → ℕ → ℕ → Bool
is_within none from to = false
is_within (some a) from to = leb from a && leb a to

abbrev pub is_at_least : Option ℕ → ℕ → Bool
is_at_least none n = false
is_at_least (some a) n = leb n a

unfoldable pub is_private_ipv4 : Option ℕ → Option ℕ → Bool
is_private_ipv4 a b =
    is a 0
    || is a 10
    || is a 127
    || (is a 169 && is b 254)
    || (is a 172 && is_within b 16 31)
    || (is a 192 && is b 168)
    || (is a 100 && is_within b 64 127)
    || is_at_least a 224

-- hostname.replace(/^\[|\]$/g, '')
unfoldable pub strip_brackets : Text → Text
strip_brackets s =
    let t = if starts_with (b'[' ∷ []) s then drop_first s else s in
    if ends_with (b']' ∷ []) t then drop_last t else t

-- A parsed URL, as far as the check reads it.
pub record Url : Type 0 where
  pub protocol : Text
  pub username : Text
  pub password : Text
  pub hostname : Text

module _ (is_ip is_ipv4 : Text → Bool) (to_lower_case : Text → Text) where
  -- An IPv4 address that is written as an IPv6 address.
  unfoldable pub unmapped : Text → Text
  unmapped ip = if starts_with (codes "::ffff:") ip then drop 7 ip else ip

  abbrev pub is_private_ipv6 : Text → Bool
  is_private_ipv6 lower =
      starts_with (codes "fc") lower
      || starts_with (codes "fd") lower
      || starts_with (codes "fe80") lower

  unfoldable pub is_private_or_local_ip : Text → Bool
  unfolding unmapped is_private_ipv4
  is_private_or_local_ip ip =
      let mapped = unmapped ip in
      if text_eq ip (codes "::1") || text_eq ip (codes "0:0:0:0:0:0:0:1")
      then true
      else if not (is_ip mapped)
      then true
      else if is_ipv4 mapped
      then is_private_ipv4 (part 0 (split b'.' mapped)) (part 1 (split b'.' mapped))
      else is_private_ipv6 (to_lower_case mapped)

  unfoldable pub is_blocked_host : Text → Bool
  is_blocked_host host =
      any (text_eq host) blocked_hostnames
      || ends_with (codes ".local") host
      || ends_with (codes ".internal") host

  unfoldable pub host_of : Url → Text
  unfolding strip_brackets
  host_of u = to_lower_case (strip_brackets u.hostname)

  module _ (parse_url : Text → Option Url) (lookup : Text → Option (List Text)) where
    -- The addresses that the lookup gives; it may fail.
    abbrev pub check_addresses : Url → Option (List Text) → Result Url
    check_addresses u none = err (bad_request "Could not resolve target host")
    check_addresses u (some []) = err (bad_request "Could not resolve target host")
    check_addresses u (some (r ∷ rs)) =
        if any is_private_or_local_ip (r ∷ rs)
        then err (bad_request "Target resolves to a private or local address")
        else ok u

    abbrev pub check_host : Url → Text → Result Url
    check_host u host =
        if is_blocked_host host
        then err (bad_request "Target host is not allowed")
        else if is_ip host
        then (if is_private_or_local_ip host
            then err (bad_request "Private or local IP targets are not allowed")
            else ok u)
        else check_addresses u (lookup host)

    abbrev pub check_url : Url → Result Url
    check_url u =
        if not (text_eq u.protocol (codes "http:")) && not (text_eq u.protocol (codes "https:"))
        then err (bad_request "Only http and https URLs are allowed")
        else if not (is_empty u.username) || not (is_empty u.password)
        then err (bad_request "URLs with embedded credentials are not allowed")
        else check_host u (host_of u)

    abbrev pub check_parsed : Option Url → Result Url
    check_parsed none = err (bad_request "Invalid URL")
    check_parsed (some u) = check_url u

    unfoldable pub assert_safe_outbound_url : Text → Result Url
    assert_safe_outbound_url raw_url = check_parsed (parse_url raw_url)
