-- ===== src/Alerts/Raised.antt =====
-- Which alerts an evaluation raises.
use hamyar_ops.Base.{
  ℕ, ◌+◌, ◌≡◌, refl, ap, ◌∙◌, String, Bool, ◌&&◌, ◌||◌, not, Option, none, some, List, [], ◌∷◌,
  ◌++◌, if◌then◌else◌, arith, keep, length, any, first, is_some, str_eq, eq_iff, ◌==◌, Bool-cases,
  inl, inr,
}
use hamyar_ops.Base.Chars.{Text}
use hamyar_ops.Prisma.{Database, find_first}
use hamyar_ops.Alerts.{
  Numbers, Reading, AlertRule, Alerts, is_unresolved, triggered, raise, raise_once, evaluate_rule,
  evaluate_all, evaluate,
}

length-keep-first :
    {A : Type 0} (p : A → Bool) (xs : List A) → is_some (first p xs) ≡ not (length (keep p xs) == 0)
length-keep-first p [] = refl
length-keep-first p (x ∷ xs) = ground (arith, length-keep-first p xs)

length-keep-append :
    {A : Type 0} (p : A → Bool) (xs : List A) (y : A)
    → length (keep p (xs ++ y ∷ [])) ≡ (if p y then length (keep p xs) + 1 else length (keep p xs))
length-keep-append p [] y = ground arith
length-keep-append p (x ∷ xs) y = ground (arith, length-keep-append p xs y)

module _ ⦃numbers : Numbers⦄ (history : Text → ℕ → ℕ → List Reading) (now : ℕ) ⦃db : Database⦄
    (new_id : String → String) where
  open numbers use {Number}
  open db use {rows}

  -- The unresolved alerts of a rule.
  abbrev pub unresolved : String → Alerts history now new_id → ℕ
  unresolved i s = length (keep (is_unresolved i) (rows s.events))

  -- An enabled rule of this id is triggered by the latest reading of its metric.
  abbrev pub fires : String → List AlertRule → Bool
  fires i rs = any (λ (r : AlertRule). str_eq r.id i && is_some (triggered history now r)) rs

  abbrev raised : Bool → ℕ → ℕ
  raised fired n = if fired && n == 0 then 1 else n

  raised_twice : (a b : Bool) (n : ℕ) → raised a (raised b n) ≡ raised (b || a) n
  raised_twice a b n = ground arith

  unresolved-raise :
      (i : String) (r : AlertRule) (v : Number) (s : Alerts history now new_id)
      → unresolved i (raise history now new_id r v s)
        ≡ (if str_eq r.id i then unresolved i s + 1 else unresolved i s)
  unresolved-raise i r v s =
      ap (λ es. length (keep (is_unresolved i) es)) (db.rows-create _ s.events)
      ∙ length-keep-append (is_unresolved i) (rows s.events) _
      ∙ ground arith

  unresolved-raise_once :
      (i : String) (r : AlertRule) (o : Option Number) (s : Alerts history now new_id)
      → unresolved i (raise_once history now new_id r o s)
        ≡ raised (str_eq r.id i && is_some o) (unresolved i s)
  unresolved-raise_once i r none s = ground arith
  unresolved-raise_once i r (some v) s =
      let same : r.id ≡ i → unresolved r.id s ≡ unresolved i s = λ e. ap (λ j. unresolved j s) e in
      let seen = length-keep-first (is_unresolved r.id) (rows s.events) in
      elim (Bool-cases (is_some (find_first (is_unresolved r.id) s.events))) [
        | inl h ↦
            ap (λ b. unresolved i (if b then s else raise history now new_id r v s)) h
            ∙ ground (arith, h, seen, same, eq_iff r.id i)
        | inr h ↦
            ap (λ b. unresolved i (if b then s else raise history now new_id r v s)) h
            ∙ unresolved-raise i r v s
            ∙ ground (arith, h, seen, same, eq_iff r.id i)
      ]

  unresolved-evaluate_all :
      (i : String) (rs : List AlertRule) (s : Alerts history now new_id)
      → unresolved i (evaluate_all history now new_id rs s) ≡ raised (fires i rs) (unresolved i s)
  unfolding evaluate_all evaluate_rule
  unresolved-evaluate_all i [] s = refl
  unresolved-evaluate_all i (r ∷ rs) s =
      unresolved-evaluate_all i rs (evaluate_rule history now new_id r s)
      ∙ ap (raised (fires i rs)) (unresolved-raise_once i r (triggered history now r) s)
      ∙ raised_twice (fires i rs) (str_eq r.id i && is_some (triggered history now r))
          (unresolved i s)

  -- An evaluation of the rules raises exactly one alert for each enabled rule that the latest
  -- reading of its metric triggers and that has no unresolved alert, and none for the others; the
  -- number of the unresolved alerts of a rule never changes otherwise.
  pub unresolved-evaluate :
      (i : String) (s : Alerts history now new_id)
      → unresolved i (evaluate history now new_id "evaluate" s) ≡ (
          if fires i (keep (λ (r : AlertRule). r.enabled) (rows s.rules)) && unresolved i s == 0
          then 1
          else unresolved i s)
  unfolding evaluate
  unresolved-evaluate i s =
      unresolved-evaluate_all i (keep (λ (r : AlertRule). r.enabled) (rows s.rules)) s
