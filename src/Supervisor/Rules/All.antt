-- ===== src/Supervisor/Rules/All.antt =====
-- The check of all enabled rules: what it ends with.
use hamyar_ops.Base.{
  ℕ, String, ◌≡◌, refl, ap, sym, ◌∙◌, Bool, true, List, [], ◌∷◌, ◌++◌, arith, keep, any, map,
  append_assoc, eq_iff,
}
use hamyar_ops.Base.Rows.{first-of_any, any-amend}
use hamyar_ops.Base.Chars.{Text}
use hamyar_ops.Prisma.{Database}
use hamyar_ops.Prisma.Updates.{found_id}
use hamyar_ops.Http.{Result}
use hamyar_ops.Supervisor.Commands.{RuleStatus, Machine}
use hamyar_ops.Supervisor.Rules.{
  SupervisorRule, CheckResult, Supervision, by_id, checked, probe, record_check, push_result,
  check_each, check_all,
}
use hamyar_ops.Supervisor.Rules.Checks.{check_rule_found}

module _ ⦃db : Database⦄ (World : Type 0) (exec : Text → World → Result Text × World)
    (to_lower_case : Text → Text) (clock : String → ℕ) (key_file : String → Text) where
  open db use {rows}

  -- Every rule of the list is in the table.
  abbrev pub AreStored : List SupervisorRule → Supervision World exec to_lower_case → Type 0
  AreStored [] s = Unit
  AreStored (r ∷ rs) s = (any (by_id r.id) (rows s.rules) ≡ true) × AreStored rs s

  still_stored :
      (rs : List SupervisorRule) (now : ℕ) (r : SupervisorRule)
      (o : RuleStatus × Bool × Machine World exec) (s : Supervision World exec to_lower_case)
      → AreStored rs s
      → AreStored rs (record_check World exec to_lower_case now r o s)
  still_stored [] now r o s a = tt
  still_stored (q ∷ rs) now r o s (h, a) = (
    ap (any (by_id q.id)) (db.rows-update_many (by_id r.id) (checked now o.0 o.1) s.rules)
        ∙ any-amend (by_id q.id) (by_id r.id) (checked now o.0 o.1) (rows s.rules) (λ x. refl)
        ∙ h,
    still_stored rs now r o s a,
  )

  check_each_ids :
      (rs : List SupervisorRule) (s : Supervision World exec to_lower_case)
      → AreStored rs s
      → map
          (λ (c : CheckResult). c.rule_id)
          (check_each World exec to_lower_case clock key_file rs s).0
        ≡ map (λ (r : SupervisorRule). r.id) rs
  unfolding check_each
  check_each_ids [] s a = refl
  check_each_ids (r ∷ rs) s (h, a) =
      let (y, found) = first-of_any (by_id r.id) (rows s.rules) h in
      let o = probe World exec to_lower_case (key_file r.id) y s.machine in
      let next = record_check World exec to_lower_case (clock r.id) y o s in
      let ids = map (λ (c : CheckResult). c.rule_id) in
      let later = λ (s' : Supervision World exec to_lower_case).
        (check_each World exec to_lower_case clock key_file rs s').0 in
      ap
        (λ (x : Result CheckResult × Supervision World exec to_lower_case).
          ids (push_result World exec to_lower_case x.0 (later x.1)))
        (check_rule_found World exec to_lower_case (clock r.id) (key_file r.id) r.id y s found)
      ∙ ap (λ (i : String). i ∷ ids (later next))
          (found_id (λ (x : SupervisorRule). x.id) r.id y s.rules found)
      ∙ ap (◌∷◌ r.id) (check_each_ids rs next (still_stored rs (clock r.id) y o s a))

  stored_sublist :
      (xs : List SupervisorRule) (s : Supervision World exec to_lower_case)
      → AreStored xs s
      → AreStored (keep (λ (r : SupervisorRule). r.enabled) xs) s
  stored_sublist [] s a = tt
  stored_sublist (r ∷ rs) s (h, a) = ground (arith, stored_sublist rs s a, h)

  all_stored :
      (before after : List SupervisorRule) (s : Supervision World exec to_lower_case)
      → rows s.rules ≡ before ++ after
      → AreStored after s
  all_stored before [] s e = tt
  all_stored before (r ∷ rs) s e = (
    ap (any (by_id r.id)) e ∙ any_here before r rs,
    all_stored (before ++ r ∷ []) rs s (e ∙ sym (append_assoc before (r ∷ []) rs)),
  )
    where
      any_here :
          (xs : List SupervisorRule) (r : SupervisorRule) (rs : List SupervisorRule)
          → any (by_id r.id) (xs ++ r ∷ rs) ≡ true
      any_here [] r rs = ground (arith, eq_iff r.id r.id)
      any_here (x ∷ xs) r rs = ground (arith, any_here xs r rs)

  -- The check of all rules ends with one result for each rule that was enabled when it began, in
  -- their order, and with none for the others: no check of a rule fails, whatever its commands do.
  pub check_all_ids :
      (s : Supervision World exec to_lower_case)
      → map (λ (c : CheckResult). c.rule_id) (check_all World exec to_lower_case clock key_file s).0
        ≡ map
            (λ (r : SupervisorRule). r.id)
            (keep (λ (r : SupervisorRule). r.enabled) (rows s.rules))
  unfolding check_all
  check_all_ids s =
      check_each_ids (keep (λ (r : SupervisorRule). r.enabled) (rows s.rules)) s
        (stored_sublist (rows s.rules) s (all_stored [] (rows s.rules) s refl))
