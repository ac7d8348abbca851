-- ===== src/Supervisor/Rules/Checks.antt =====
-- What the checks of the rules record.
use hamyar_ops.Base.{
  ℕ, suc, String, ◌≡◌, ◌≢◌, ◌↔◌, refl, Bool, true, false, some, if◌then◌else◌, arith,
}
use hamyar_ops.Base.Chars.{Text}
use hamyar_ops.Prisma.{Database, find_first}
use hamyar_ops.Prisma.Updates.{find_first-update_many}
use hamyar_ops.Http.{Result, ok, err}
use hamyar_ops.Supervisor.Commands.{
  RuleStatus, build_check_cmd, build_restart_cmd, parse_status, Machine, run_command,
}
use hamyar_ops.Supervisor.Rules.{
  SupervisorRule, CheckResult, Supervision, by_id, checked, after_restart, if_down, after_check,
  probe, record_check, check_rule, result_of,
}

module _ ⦃db : Database⦄ (World : Type 0) (exec : Text → World → Result Text × World)
    (to_lower_case : Text → Text) where
  open db use {rows}

  abbrev Outcome : Type 0
  Outcome = RuleStatus × Bool × Machine World exec

  -- What the parts of a check agree on.
  pub record IsCoherent (r : SupervisorRule) (status : RuleStatus) (restarted : Bool) : Type 0 where
    pub restarted_iff : (restarted ≡ true) ↔ (status ≡ RuleStatus.restarted)
    pub not_left_down : r.auto_restart ≡ true → status ≢ RuleStatus.down

  after_restart-IsCoherent :
      (r : SupervisorRule) (x : Result Text × Machine World exec)
      → IsCoherent r
          (after_restart World exec to_lower_case x).0
          (after_restart World exec to_lower_case x).1
  after_restart-IsCoherent r (ok out, m) = record {
    restarted_iff = ground arith;
    not_left_down = ground arith;
  }
  after_restart-IsCoherent r (err e, m) = record {
    restarted_iff = ground arith;
    not_left_down = ground arith;
  }

  unrestarted :
      (r : SupervisorRule) (status : RuleStatus)
      → status ≢ RuleStatus.restarted
      → (r.auto_restart ≡ true → status ≢ RuleStatus.down)
      → IsCoherent r status false
  unrestarted r status n d = record { restarted_iff = ground (arith, n); not_left_down = d }

  if_down-IsCoherent :
      (key_file : Text) (r : SupervisorRule) (status : RuleStatus) (m : Machine World exec)
      → status ≢ RuleStatus.restarted
      → IsCoherent r
          (if_down World exec to_lower_case key_file r status m).0
          (if_down World exec to_lower_case key_file r status m).1
  if_down-IsCoherent key_file r RuleStatus.running m n =
      unrestarted r RuleStatus.running n (ground arith)
  if_down-IsCoherent key_file r RuleStatus.unknown m n =
      unrestarted r RuleStatus.unknown n (ground arith)
  if_down-IsCoherent key_file r RuleStatus.restarted m n = absurd (n refl)
  if_down-IsCoherent key_file r RuleStatus.down m n = choose r.auto_restart refl
    where
      tried : Outcome
      tried =
          after_restart World exec to_lower_case (
            run_command World exec key_file r.server_id (build_restart_cmd r.app_type r.app_name) m)

      choose :
          (b : Bool)
          → r.auto_restart ≡ b
          → IsCoherent r
              (if b then tried else (RuleStatus.down, false, m)).0
              (if b then tried else (RuleStatus.down, false, m)).1
      choose true e =
          after_restart-IsCoherent r (
            run_command World exec key_file r.server_id (build_restart_cmd r.app_type r.app_name) m)
      choose false e = unrestarted r RuleStatus.down n (ground (arith, e))

  after_check-IsCoherent :
      (key_file : Text) (r : SupervisorRule) (x : Result Text × Machine World exec)
      → IsCoherent r
          (after_check World exec to_lower_case key_file r x).0
          (after_check World exec to_lower_case key_file r x).1
  unfolding parse_status
  after_check-IsCoherent key_file r (ok out, m) =
      if_down-IsCoherent key_file r (parse_status to_lower_case r.app_type out) m (ground arith)
  after_check-IsCoherent key_file r (err e, m) =
      unrestarted r RuleStatus.unknown (ground arith) (ground arith)

  probe-IsCoherent :
      (key_file : Text) (r : SupervisorRule) (m : Machine World exec)
      → IsCoherent r
          (probe World exec to_lower_case key_file r m).0
          (probe World exec to_lower_case key_file r m).1
  unfolding probe
  probe-IsCoherent key_file r m =
      after_check-IsCoherent key_file r
        (run_command World exec key_file r.server_id (build_check_cmd r.app_type r.app_name) m)

  pub check_rule_found :
      (now : ℕ) (key_file : Text) (id : String) (r : SupervisorRule)
      (s : Supervision World exec to_lower_case)
      → find_first (by_id id) s.rules ≡ some r
      → check_rule World exec to_lower_case now key_file id s ≡ (
        ok (
            result_of World exec to_lower_case now r
              (probe World exec to_lower_case key_file r s.machine)),
        record_check World exec to_lower_case now r
            (probe World exec to_lower_case key_file r s.machine)
            s,
      )
  unfolding check_rule
  check_rule_found now key_file id r s found = rw (found, check_rule)

  recorded :
      (now : ℕ) (id : String) (r : SupervisorRule) (o : Outcome)
      (s : Supervision World exec to_lower_case)
      → find_first (by_id id) s.rules ≡ some r
      → find_first (by_id id) (record_check World exec to_lower_case now r o s).rules
        ≡ some (checked now o.0 o.1 r)
  recorded now id r o s found =
      find_first-update_many (λ (x : SupervisorRule). x.id) id r (checked now o.0 o.1) s.rules found
        (λ x. refl)

  -- The counter of a rule, by the status of the check.
  checked_count :
      (now : ℕ) (r : SupervisorRule) (status : RuleStatus) (restarted : Bool)
      → ((restarted ≡ true) ↔ (status ≡ RuleStatus.restarted))
      → (status ≡ RuleStatus.restarted
          → (checked now status restarted r).restart_count ≡ suc r.restart_count)
        × (status ≢ RuleStatus.restarted
            → (checked now status restarted r).restart_count ≡ r.restart_count)
  checked_count now r status true c = (λ h. refl, λ n. absurd (n (c.0 refl)))
  checked_count now r status false c = (λ h. absurd (ground (arith, c.1 h)), λ n. refl)

  -- A check of a rule that exists returns the status and whether the application was restarted.
  -- The rule's row then has that status and the time of the check, and a counter that has grown by
  -- one if the status is RESTARTED and is what it was otherwise. The result says that the
  -- application was restarted exactly if the status is RESTARTED, and the status is never DOWN for
  -- an application that is to be restarted automatically.
  pub check_rule_outcome :
      (now : ℕ) (key_file : Text) (id : String) (r : SupervisorRule)
      (s : Supervision World exec to_lower_case)
      → find_first (by_id id) s.rules ≡ some r
      → (res : CheckResult) × (s' : Supervision World exec to_lower_case) × (check_rule World exec
            to_lower_case now key_file id s
          ≡ (ok res, s'))
        × ((done : SupervisorRule) × (find_first (by_id id) s'.rules ≡ some done)
            × (done.last_status ≡ some res.status)
            × (done.last_check_at ≡ some now)
            × (res.status ≡ RuleStatus.restarted → done.restart_count ≡ suc r.restart_count)
            × (res.status ≢ RuleStatus.restarted → done.restart_count ≡ r.restart_count))
        × ((res.restarted ≡ true) ↔ (res.status ≡ RuleStatus.restarted))
        × (r.auto_restart ≡ true → res.status ≢ RuleStatus.down)
  check_rule_outcome now key_file id r s found =
      let outcome = probe World exec to_lower_case key_file r s.machine in
      let coherent = probe-IsCoherent key_file r s.machine in
      let (grown, same) = checked_count now r outcome.0 outcome.1 coherent.restarted_iff in
      (
        result_of World exec to_lower_case now r outcome,
        record_check World exec to_lower_case now r outcome s,
        check_rule_found now key_file id r s found,
        (
          checked now outcome.0 outcome.1 r,
          recorded now id r outcome s found,
          refl,
          refl,
          grown,
          same,
        ),
        coherent.restarted_iff,
        coherent.not_left_down,
      )
