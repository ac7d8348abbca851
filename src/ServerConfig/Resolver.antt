-- ===== src/ServerConfig/Resolver.antt =====
-- What is written to /etc/resolv.conf is read back.
pub mod Words
use hamyar_ops.Base.{
  ℕ, ◌≡◌, refl, ap, sym, ◌∙◌, true, false, not, List, [], ◌∷◌, ◌++◌, every, All, arith, codes, ◌==◌,
  ==_iff, Bool-cases, inl, inr, append_assoc, append-nil,
}
use hamyar_ops.Base.Chars.{Text, is_empty, is_space, trim, trim_start, trim_end, split, join, has}
use hamyar_ops.Base.Chars.Lines.{split-append, has-append, trim_end-append, is_empty-append}
use hamyar_ops.ServerConfig.{
  ResolvConf, starts_with_space, split_spaces, parse_resolv, parse_resolv_lines, resolv_line,
  resolv_content, nameserver_lines, search_lines,
}
use hamyar_ops.ServerConfig.Resolver.Words.{
  IsWord, join-ended, split-ended, trim_end_word, trim_word, AreWords, join_filled, trim_end-join,
  split_spaces-join, words_trimmed, no_line_end, join_no_line_end, OneLine,
}

-- A line is trimmed to itself behind its first word.
trim_nameserver :
    (w : Text)
    → is_empty w ≡ false
    → trim_end w ≡ w
    → trim (codes "nameserver " ++ w) ≡ codes "nameserver " ++ w
unfolding trim trim_start is_space
trim_nameserver w f e = trim_end-append (codes "nameserver ") w f e

trim_search :
    (w : Text)
    → is_empty w ≡ false
    → trim_end w ≡ w
    → trim (codes "search " ++ w) ≡ codes "search " ++ w
unfolding trim trim_start is_space
trim_search w f e = trim_end-append (codes "search ") w f e

nameserver_line :
    (w : Text) (c : ResolvConf)
    → IsWord w
    → resolv_line (trim (codes "nameserver " ++ w)) c ≡ record c { nameservers = w ∷ c.nameservers }
nameserver_line w c k =
    ap (λ (l : Text). resolv_line l c) (trim_nameserver w k.filled (trim_end_word w k.no_space))
    ∙ (unfold resolv_line in
        ap (λ (x : Text). record c { nameservers = x ∷ c.nameservers }) (trim_word w k))

search_read :
    (s : Text) (c : ResolvConf)
    → resolv_line (codes "search " ++ s) c ≡ record c { search = split_spaces (trim s) ++ c.search }
unfolding resolv_line
search_read s c = refl

search_line :
    (d : Text) (ds : List Text) (c : ResolvConf)
    → AreWords (d ∷ ds)
    → resolv_line (trim (codes "search " ++ join b' ' (d ∷ ds))) c
      ≡ record c { search = d ∷ ds ++ c.search }
search_line d ds c (k, h) =
    let words = join b' ' (d ∷ ds) in
    let trimmed = words_trimmed d ds (k, h) in
    ap (λ (l : Text). resolv_line l c)
      (trim_search words (join_filled d ds k.filled) (trim_end-join d ds (k, h)))
    ∙ search_read words c
    ∙ ap (λ (x : Text). record c { search = split_spaces x ++ c.search }) trimmed
    ∙ ap (λ (x : List Text). record c { search = x ++ c.search }) (split_spaces-join d ds (k, h))

search-OneLine : (ds : List Text) → AreWords ds → All OneLine (search_lines ds)
search-OneLine [] h = tt
search-OneLine (d ∷ ds) h = (join_no_line_end (d ∷ ds) h, tt)

nameservers-OneLine :
    (ns ds : List Text)
    → AreWords ns
    → AreWords ds
    → All OneLine (nameserver_lines ns ++ search_lines ds)
nameservers-OneLine [] ds h g = search-OneLine ds g
nameservers-OneLine (n ∷ ns) ds (k, h) g = (no_line_end n k.no_space, nameservers-OneLine ns ds h g)

blank_line : (c : ResolvConf) → resolv_line (trim []) c ≡ c
unfolding resolv_line trim trim_start trim_end
blank_line c = refl

header_line : (c : ResolvConf) → resolv_line (trim (codes "# Generated by hamyar-ops")) c ≡ c
unfolding resolv_line trim trim_start trim_end is_space
header_line c = refl

search_parsed :
    (ds : List Text)
    → AreWords ds
    → parse_resolv_lines (search_lines ds ++ [] ∷ []) ≡ record { nameservers = []; search = ds }
unfolding parse_resolv_lines
search_parsed [] h = blank_line (record { nameservers = []; search = [] })
search_parsed (d ∷ ds) h =
    let last : ResolvConf = record { nameservers = []; search = [] } in
    ap (resolv_line (trim (codes "search " ++ join b' ' (d ∷ ds)))) (blank_line last)
    ∙ search_line d ds last h
    ∙ ap (λ (x : List Text). record { nameservers = []; search = x }) (append-nil (d ∷ ds))

nameservers_parsed :
    (ns ds : List Text)
    → AreWords ns
    → AreWords ds
    → parse_resolv_lines ((nameserver_lines ns ++ search_lines ds) ++ [] ∷ [])
      ≡ record { nameservers = ns; search = ds }
unfolding parse_resolv_lines
nameservers_parsed [] ds h g = search_parsed ds g
nameservers_parsed (n ∷ ns) ds (k, h) g =
    ap (resolv_line (trim (codes "nameserver " ++ n))) (nameservers_parsed ns ds h g)
    ∙ nameserver_line n (record { nameservers = ns; search = ds }) k

header_first :
    (ls : List Text)
    → parse_resolv_lines (codes "# Generated by hamyar-ops" ∷ ls) ≡ parse_resolv_lines ls
unfolding parse_resolv_lines
header_first ls = header_line (parse_resolv_lines ls)

-- The name servers and the search domains that are written to /etc/resolv.conf are read back from
-- it, in their order, if each of them is a word: not empty and without white space.
pub parse_resolv-resolv_content :
    (ns ds : List Text)
    → All IsWord ns
    → All IsWord ds
    → parse_resolv (resolv_content ns ds) ≡ record { nameservers = ns; search = ds }
unfolding parse_resolv resolv_content
parse_resolv-resolv_content ns ds h g =
    let lines = nameserver_lines ns ++ search_lines ds in
    let header = codes "# Generated by hamyar-ops" in
    ap (λ (s : Text). parse_resolv_lines (split b'\n' s)) (join-ended header lines)
    ∙ ap parse_resolv_lines (split-ended (header ∷ lines) (refl, nameservers-OneLine ns ds h g))
    ∙ (header_first (lines ++ [] ∷ []))
    ∙ nameservers_parsed ns ds h g
