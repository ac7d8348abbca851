-- ===== src/Supervisor/Rules.antt =====
-- supervisor.service.ts: the rules, their check with the restart, and the check of all of them.
-- The texts of the events' descriptions and the WebSocket events are not modelled.
pub mod All
pub mod Checks
use hamyar_ops.Base.{
  ℕ, suc, String, Bool, true, false, not, Option, none, some, List, [], ◌∷◌, ◌++◌, if◌then◌else◌,
  codes, keep, or_else, str_eq,
}
use hamyar_ops.Base.Chars.{Text}
use hamyar_ops.Prisma.{Database, find_first}
use hamyar_ops.Http.{Exception, not_found, Result, ok, err, Handler, throw}
use hamyar_ops.Supervisor.Commands.{
  AppType, RuleStatus, build_check_cmd, build_restart_cmd, parse_status, Machine, run_command,
}

pub record SupervisorRule : Type 0 where
  pub id : String
  pub server_id : Option String
  pub app_name : Text
  pub app_type : AppType
  pub auto_restart : Bool
  pub enabled : Bool
  pub last_check_at : Option ℕ
  pub last_status : Option RuleStatus
  pub restart_count : ℕ

pub record CreateSupervisorRule : Type 0 where
  pub server_id : Option String
  pub app_name : Text
  pub app_type : AppType
  pub auto_restart : Option Bool
  pub enabled : Option Bool

pub record UpdateSupervisorRule : Type 0 where
  pub app_name : Option Text
  pub app_type : Option AppType
  pub auto_restart : Option Bool
  pub enabled : Option Bool

pub data Severity : Type 0 where
  info : Severity
  warning : Severity

pub record SupervisorEvent : Type 0 where
  pub title : Text
  pub severity : Severity
  pub app_name : Text
  pub server_id : Option String

pub record CheckResult : Type 0 where
  pub rule_id : String
  pub app_name : Text
  pub server_id : Option String
  pub status : RuleStatus
  pub restarted : Bool
  pub checked_at : ℕ

abbrev pub by_id : String → SupervisorRule → Bool
by_id id r = str_eq r.id id

abbrev pub apply_dto : UpdateSupervisorRule → SupervisorRule → SupervisorRule
apply_dto dto r = record r {
  app_name = or_else dto.app_name r.app_name;
  app_type = or_else dto.app_type r.app_type;
  auto_restart = or_else dto.auto_restart r.auto_restart;
  enabled = or_else dto.enabled r.enabled;
}

abbrev pub severity_of : RuleStatus → Severity
severity_of RuleStatus.running = Severity.info
severity_of RuleStatus.down = Severity.warning
severity_of RuleStatus.restarted = Severity.warning
severity_of RuleStatus.unknown = Severity.warning

unfoldable pub title_of : RuleStatus → Text → Text
title_of RuleStatus.running app = app ++ codes " is running"
title_of RuleStatus.restarted app = app ++ codes " was restarted automatically"
title_of RuleStatus.down app = app ++ codes " is DOWN"
title_of RuleStatus.unknown app = app ++ codes " is DOWN"

abbrev pub checked : ℕ → RuleStatus → Bool → SupervisorRule → SupervisorRule
checked now status restarted r = record r {
  last_check_at = some now;
  last_status = some status;
  restart_count = if restarted then suc r.restart_count else r.restart_count;
}

module _ ⦃db : Database⦄ (World : Type 0) (exec : Text → World → Result Text × World)
    (to_lower_case : Text → Text) where
  open db use {Table, rows, create, update_many, delete_many}

  pub record Supervision : Type 0 where
    pub rules : Table SupervisorRule
    pub events : Table SupervisorEvent
    pub machine : Machine World exec

  unfoldable pub create_rule : String → CreateSupervisorRule → Handler Supervision SupervisorRule
  create_rule new_id dto s =
      let r : SupervisorRule = record {
        id = new_id;
        server_id = dto.server_id;
        app_name = dto.app_name;
        app_type = dto.app_type;
        auto_restart = or_else dto.auto_restart true;
        enabled = or_else dto.enabled true;
        last_check_at = none;
        last_status = none;
        restart_count = 0;
      } in
      (ok r, record s { rules = create r s.rules })

  unfoldable pub update_rule : String → UpdateSupervisorRule → Handler Supervision SupervisorRule
  update_rule id dto s = elim (find_first (by_id id) s.rules) [
    | none ↦ throw (not_found "Supervisor rule not found") s
    | some existing ↦ (
      ok (apply_dto dto existing),
      record s { rules = update_many (by_id id) (apply_dto dto) s.rules },
    )
  ]

  unfoldable pub delete_rule : String → Handler Supervision (Unit {0})
  delete_rule id s = elim (find_first (by_id id) s.rules) [
    | none ↦ throw (not_found "Supervisor rule not found") s
    | some existing ↦ (ok tt, record s { rules = delete_many (by_id id) s.rules })
  ]

  unfoldable pub toggle : String → Handler Supervision SupervisorRule
  toggle id s = elim (find_first (by_id id) s.rules) [
    | none ↦ throw (not_found "Supervisor rule not found") s
    | some existing ↦
        let set : SupervisorRule → SupervisorRule =
          λ r. record r { enabled = not existing.enabled } in
        (ok (set existing), record s { rules = update_many (by_id id) set s.rules })
  ]

  -- The restart of an application that is down: it counts only if its command succeeds.
  abbrev pub after_restart :
      Result Text × Machine World exec → RuleStatus × Bool × Machine World exec
  after_restart (ok out, m) = (RuleStatus.restarted, true, m)
  after_restart (err e, m) = (RuleStatus.unknown, false, m)

  abbrev pub if_down :
      Text
      → SupervisorRule
      → RuleStatus
      → Machine World exec
      → RuleStatus × Bool × Machine World exec
  if_down key_file r RuleStatus.down m =
      if r.auto_restart
      then after_restart
          (run_command World exec key_file r.server_id (build_restart_cmd r.app_type r.app_name) m)
      else (RuleStatus.down, false, m)
  if_down key_file r status m = (status, false, m)

  abbrev pub after_check :
      Text
      → SupervisorRule
      → Result Text × Machine World exec
      → RuleStatus × Bool × Machine World exec
  after_check key_file r (ok out, m) =
      if_down key_file r (parse_status to_lower_case r.app_type out) m
  after_check key_file r (err e, m) = (RuleStatus.unknown, false, m)

  -- The `try` block: the status, whether there was a restart, and the machine.
  unfoldable pub probe :
      Text → SupervisorRule → Machine World exec → RuleStatus × Bool × Machine World exec
  probe key_file r m =
      after_check key_file r
        (run_command World exec key_file r.server_id (build_check_cmd r.app_type r.app_name) m)

  abbrev pub result_of : ℕ → SupervisorRule → RuleStatus × Bool × Machine World exec → CheckResult
  result_of now r (status, restarted, m) = record {
    rule_id = r.id;
    app_name = r.app_name;
    server_id = r.server_id;
    status = status;
    restarted = restarted;
    checked_at = now;
  }

  abbrev pub record_check :
      ℕ → SupervisorRule → RuleStatus × Bool × Machine World exec → Supervision → Supervision
  record_check now r (status, restarted, m) s = record {
    rules = update_many (by_id r.id) (checked now status restarted) s.rules;
    events =
        create
          (record {
            title = title_of status r.app_name;
            severity = severity_of status;
            app_name = r.app_name;
            server_id = r.server_id;
          })
          s.events;
    machine = m;
  }

  -- `now` is the time of the call and `key_file` the path of its key file.
  unfoldable pub check_rule : ℕ → Text → String → Handler Supervision CheckResult
  unfolding probe
  check_rule now key_file id s = elim (find_first (by_id id) s.rules) [
    | none ↦ throw (not_found "Supervisor rule not found") s
    | some r ↦
        let outcome = probe key_file r s.machine in
        (ok (result_of now r outcome), record_check now r outcome s)
  ]

  abbrev pub push_result : Result CheckResult → List CheckResult → List CheckResult
  push_result (ok r) rest = r ∷ rest
  push_result (err e) rest = rest

  -- The loop over the rules that were read; a check that fails is left out. `clock` and `key_file`
  -- give the time and the path of the key file of each rule's check.
  abbrev pub check_each :
      (String → ℕ)
      → (String → Text)
      → List SupervisorRule
      → Supervision
      → List CheckResult × Supervision
  unfolding check_rule
  check_each clock key_file [] s = ([], s)
  check_each clock key_file (r ∷ rs) s =
      let (result, s') = check_rule (clock r.id) (key_file r.id) r.id s in
      let (results, s'') = check_each clock key_file rs s' in (push_result result results, s'')

  unfoldable pub check_all :
      (String → ℕ) → (String → Text) → Supervision → List CheckResult × Supervision
  unfolding check_each
  check_all clock key_file s =
      check_each clock key_file (keep (λ (r : SupervisorRule). r.enabled) (rows s.rules)) s
