-- ===== src/Infra/Terraform/Summary.antt =====
-- `parsePlanSummary` of terraform.service.ts, with its regular expression written as a search.
use hamyar_ops.Base.{
  ℕ, ◌≡◌, refl, ap, ◌∙◌, true, false, Option, none, some, [], ◌∷◌, ◌++◌, if◌then◌else◌, codes, ◌==◌,
  every, arith,
}
use hamyar_ops.Base.Chars.{strip_prefix, Text, is_empty, has, drop_first}
use hamyar_ops.Base.Chars.Numbers.{is_digit, parse_int}
use hamyar_ops.Infra.Terraform.{PlanSummary}

-- The digits that a text begins with, and the rest.
unfoldable pub digits : Text → Text × Text
digits [] = ([], [])
digits (c ∷ s) = let (d, rest) = digits s in if is_digit c then (c ∷ d, rest) else ([], c ∷ s)

abbrev behind : Text → Option Text → Option (ℕ × Text)
behind d none = none
behind d (some rest) = some (parse_int d, rest)

-- `(\d+)` and the literal text behind it.
unfoldable pub number_before : Text → Text → Option (ℕ × Text)
unfolding digits
number_before literal s =
    let (d, rest) = digits s in if is_empty d then none else behind d (strip_prefix literal rest)

abbrev third : ℕ → ℕ → Option (ℕ × Text) → Option PlanSummary
third a c none = none
third a c (some (d, rest)) = some (record { to_add = a; to_change = c; to_destroy = d })

abbrev second : ℕ → Option (ℕ × Text) → Option PlanSummary
unfolding number_before
second a none = none
second a (some (c, rest)) = third a c (number_before (codes " to destroy") rest)

abbrev initial : Option (ℕ × Text) → Option PlanSummary
unfolding second number_before
initial none = none
initial (some (a, rest)) = second a (number_before (codes " to change, ") rest)

abbrev plan_behind : Option Text → Option PlanSummary
unfolding initial number_before
plan_behind none = none
plan_behind (some rest) = initial (number_before (codes " to add, ") rest)

unfoldable pub match_here : Text → Option PlanSummary
unfolding plan_behind
match_here s = plan_behind (strip_prefix (codes "Plan: ") s)

unfoldable pub parse_plan_summary : Text → Option PlanSummary
unfolding match_here
parse_plan_summary [] = none
parse_plan_summary (c ∷ s) =
    let later = parse_plan_summary s in elim (match_here (c ∷ s)) [ none ↦ later | some p ↦ some p ]

-- The text does not begin with a digit.
abbrev pub NoDigit : Text → Type 0
NoDigit s = digits s ≡ ([], s)

digits-append :
    (d rest : Text) → every is_digit d ≡ true → NoDigit rest → digits (d ++ rest) ≡ (d, rest)
unfolding digits
digits-append [] rest h n = n
digits-append (c ∷ d) rest h n = ground (arith, digits-append d rest)

strip_prefix-append : (p s : Text) → strip_prefix p (p ++ s) ≡ some s
strip_prefix-append [] s = refl
strip_prefix-append (c ∷ p) s = ground (arith, strip_prefix-append p s)

number_before-append :
    (d literal rest : Text)
    → every is_digit d ≡ true
    → is_empty d ≡ false
    → NoDigit (literal ++ rest)
    → number_before literal (d ++ (literal ++ rest)) ≡ some (parse_int d, rest)
unfolding number_before
number_before-append d literal rest h n nd =
    ground (arith, digits-append d (literal ++ rest) h nd, strip_prefix-append literal rest)

-- The sentence that Terraform prints behind a plan, with the digits of its three numbers.
abbrev pub plan_line : Text → Text → Text → Text → Text
plan_line a c d rest =
    codes "Plan: "
    ++ (a
        ++ (codes " to add, "
            ++ (c ++ (codes " to change, " ++ (d ++ (codes " to destroy" ++ rest))))))

match_here-plan_line :
    (a c d rest : Text)
    → (every is_digit a ≡ true) × (is_empty a ≡ false)
    → (every is_digit c ≡ true) × (is_empty c ≡ false)
    → (every is_digit d ≡ true) × (is_empty d ≡ false)
    → match_here (plan_line a c d rest)
      ≡ some (record { to_add = parse_int a; to_change = parse_int c; to_destroy = parse_int d })
unfolding match_here plan_behind initial second digits
match_here-plan_line a c d rest ha hc hd =
    let after_c = d ++ (codes " to destroy" ++ rest) in
    let after_a = c ++ (codes " to change, " ++ after_c) in
    ap plan_behind (strip_prefix-append (codes "Plan: ") (a ++ (codes " to add, " ++ after_a)))
    ∙ ap initial (number_before-append a (codes " to add, ") after_a ha.0 ha.1 refl)
    ∙ ap (second (parse_int a))
        (number_before-append c (codes " to change, ") after_c hc.0 hc.1 refl)
    ∙ ap (third (parse_int a) (parse_int c))
        (number_before-append d (codes " to destroy") rest hd.0 hd.1 refl)

match_here_not : (x : ℕ) (s : Text) → (x == b'P') ≡ false → match_here (x ∷ s) ≡ none
unfolding match_here
match_here_not x s h = ground (arith, h)

found_at :
    (x : ℕ) (s : Text) (p : PlanSummary)
    → match_here (x ∷ s) ≡ some p
    → parse_plan_summary (x ∷ s) ≡ some p
unfolding parse_plan_summary
found_at x s p e = ap (λ o. elim o [ none ↦ parse_plan_summary s | some q ↦ some q ]) e

-- In an output where nothing before that sentence has a `P`, the numbers of the sentence are found,
-- whatever stands behind it.
pub parse_plan_summary_found :
    (before a c d rest : Text)
    → has b'P' before ≡ false
    → (every is_digit a ≡ true) × (is_empty a ≡ false)
    → (every is_digit c ≡ true) × (is_empty c ≡ false)
    → (every is_digit d ≡ true) × (is_empty d ≡ false)
    → parse_plan_summary (before ++ plan_line a c d rest)
      ≡ some (record { to_add = parse_int a; to_change = parse_int c; to_destroy = parse_int d })
unfolding parse_plan_summary
parse_plan_summary_found [] a c d rest p ha hc hd =
    found_at b'P' (drop_first (plan_line a c d rest)) _ (match_here-plan_line a c d rest ha hc hd)
parse_plan_summary_found (x ∷ before) a c d rest p ha hc hd =
    ap
      (λ o. elim o [ none ↦ parse_plan_summary (before ++ plan_line a c d rest) | some q ↦ some q ])
      (match_here_not x (before ++ plan_line a c d rest) (ground arith))
    ∙ parse_plan_summary_found before a c d rest (ground arith) ha hc hd
