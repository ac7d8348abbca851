-- ===== src/Security/Ssrf/Targets.antt =====
-- Which URLs pass the check.
use hamyar_ops.Base.{
  ◌≡◌, ◌↔◌, inl, inr, refl, ap, Bool-cases, subst, sym, ◌∙◌, Bool, true, false, ◌||◌, Option, none,
  some, List, [], ◌∷◌, any, codes, arith, All,
}
use hamyar_ops.Base.Chars.{Text, is_empty, text_eq}
use hamyar_ops.Http.{ok}
use hamyar_ops.Security.Ssrf.{
  Url, is_private_or_local_ip, is_blocked_host, host_of, check_addresses, check_url, check_parsed,
  assert_safe_outbound_url,
}

module _ (is_ip is_ipv4 : Text → Bool) (to_lower_case : Text → Text) where
  abbrev IsPublic : Text → Type 0
  IsPublic a = is_private_or_local_ip is_ip is_ipv4 to_lower_case a ≡ false

  module _ (parse_url : Text → Option Url) (lookup : Text → Option (List Text)) where
    -- A URL that the panel may call: its scheme is http or https, it has no credentials, its host is
    -- not blocked and is a public address, or a name whose addresses, at least one, are all public.
    pub record IsSafe (u : Url) : Type 0 where
      pub scheme :
          (text_eq u.protocol (codes "http:") || text_eq u.protocol (codes "https:")) ≡ true
      pub no_username : is_empty u.username ≡ true
      pub no_password : is_empty u.password ≡ true
      pub not_blocked :
          is_blocked_host is_ip is_ipv4 to_lower_case (host_of is_ip is_ipv4 to_lower_case u)
          ≡ false
      pub public_literal :
          is_ip (host_of is_ip is_ipv4 to_lower_case u) ≡ true
          → IsPublic (host_of is_ip is_ipv4 to_lower_case u)
      pub public_name :
          is_ip (host_of is_ip is_ipv4 to_lower_case u) ≡ false
          → (a : Text) × (rest : List Text) × (lookup (host_of is_ip is_ipv4 to_lower_case u)
              ≡ some (a ∷ rest))
            × All IsPublic (a ∷ rest)

    All-IsPublic :
        (xs : List Text)
        → any (is_private_or_local_ip is_ip is_ipv4 to_lower_case) xs ≡ false
        → All IsPublic xs
    All-IsPublic [] h = tt
    All-IsPublic (x ∷ xs) h = (ground arith, All-IsPublic xs (ground arith))

    any-IsPublic :
        (xs : List Text)
        → All IsPublic xs
        → any (is_private_or_local_ip is_ip is_ipv4 to_lower_case) xs ≡ false
    any-IsPublic [] h = refl
    any-IsPublic (x ∷ xs) (p, h) = ground (arith, any-IsPublic xs h)

    check_addresses_sound :
        (u v : Url) (o : Option (List Text))
        → check_addresses is_ip is_ipv4 to_lower_case parse_url lookup u o ≡ ok v
        → (a : Text) × (rest : List Text) × (o ≡ some (a ∷ rest)) × All IsPublic (a ∷ rest)
    check_addresses_sound u v none e = absurd (ground arith)
    check_addresses_sound u v (some []) e = absurd (ground arith)
    check_addresses_sound u v (some (a ∷ rest)) e =
        (a, rest, refl, All-IsPublic (a ∷ rest) (ground (arith, e)))

    check_url_sound :
        (u v : Url)
        → check_url is_ip is_ipv4 to_lower_case parse_url lookup u ≡ ok v
        → IsSafe u × (v ≡ u)
    check_url_sound u v e =
        let host = host_of is_ip is_ipv4 to_lower_case u in
        (
          record {
            scheme = ground (arith, e);
            no_username = ground (arith, e);
            no_password = ground (arith, e);
            not_blocked = ground (arith, e);
            public_literal = λ n. ground (arith, e, n);
            public_name = λ n. check_addresses_sound u v (lookup host) (ground (arith, e, n));
          },
          ground (arith, e),
        )

    check_url_complete :
        (u : Url) → IsSafe u → check_url is_ip is_ipv4 to_lower_case parse_url lookup u ≡ ok u
    check_url_complete u s =
        let host = host_of is_ip is_ipv4 to_lower_case u in
        elim (Bool-cases (is_ip host)) [
          | inl n ↦
              ground (
                arith,
                s.scheme,
                s.no_username,
                s.no_password,
                s.not_blocked,
                s.public_literal n,
                n,
              )
          | inr n ↦
              let (a, rest, found, public) = s.public_name n in
              ground (
                arith,
                s.scheme,
                s.no_username,
                s.no_password,
                s.not_blocked,
                n,
                found,
                any-IsPublic (a ∷ rest) public,
              )
        ]

    -- A URL passes the check exactly if it can be parsed and is safe, and then it is the parsed URL
    -- that is returned.
    pub assert_safe_outbound_url_iff :
        (raw : Text) (u : Url)
        → (assert_safe_outbound_url is_ip is_ipv4 to_lower_case parse_url lookup raw ≡ ok u)
          ↔ ((parse_url raw ≡ some u) × IsSafe u)
    unfolding assert_safe_outbound_url
    assert_safe_outbound_url_iff raw u = (
      there (parse_url raw),
      λ p.
          ap (check_parsed is_ip is_ipv4 to_lower_case parse_url lookup) p.0
          ∙ check_url_complete u p.1,
    )
      where
        there :
            (o : Option Url)
            → check_parsed is_ip is_ipv4 to_lower_case parse_url lookup o ≡ ok u
            → (o ≡ some u) × IsSafe u
        there none e = absurd (ground arith)
        there (some v) e =
            let (safe, same) = check_url_sound v u e in
            (ap some (sym same), subst IsSafe (sym same) safe)
