-- ===== src/Tests/Supervision.antt =====
-- Examples of the supervisor.
use hamyar_ops.Base.{
  ◌≡◌, ◌≢◌, ◌↔◌, refl, String, Bool, true, false, none, some, [], ◌∷◌, map, codes,
}
use hamyar_ops.Base.Chars.{Text}
use hamyar_ops.Prisma.{find_first}
use hamyar_ops.Http.{Result, ok}
use hamyar_ops.Supervisor.Commands.{AppType, RuleStatus, Machine}
use hamyar_ops.Supervisor.Rules.{
  SupervisorRule, CheckResult, Supervision, by_id, check_rule, check_all,
}
use hamyar_ops.Supervisor.Rules.Checks.{check_rule_outcome}
use hamyar_ops.Supervisor.Rules.All.{check_all_ids}
use hamyar_ops.Tests.Values.{list_database}

-- A server on which every command succeeds and prints "active".
abbrev prints_active : Text → Unit {0} → Result Text × Unit {0}
prints_active command w = (ok (codes "active"), w)

abbrev as_it_is : Text → Text
as_it_is t = t

abbrev rule_of : String → AppType → Bool → SupervisorRule
rule_of id type enabled = record {
  id = id;
  server_id = none;
  app_name = codes "api";
  app_type = type;
  auto_restart = true;
  enabled = enabled;
  last_check_at = none;
  last_status = none;
  restart_count = 0;
}

abbrev remote : Machine ⦃db = list_database⦄ (Unit {0}) prints_active
remote = record {
  servers =
      record {
        id = "s1";
        host = codes "10.0.0.2";
        port = codes "22";
        username = codes "root";
        ssh_key_id = some "k1";
      }
      ∷ [];
  ssh_keys = record { id = "k1"; private_key = codes "secret" } ∷ [];
  temp_files = λ p. none;
  world = tt;
}

abbrev three_rules : Supervision ⦃db = list_database⦄ (Unit {0}) prints_active as_it_is
three_rules = record {
  rules =
      rule_of "a" AppType.pm2 true
      ∷ rule_of "b" AppType.docker false
      ∷ rule_of "c" AppType.systemd true
      ∷ [];
  events = [];
  machine = remote;
}

abbrev key_path : Text
key_path = codes "/tmp/ssh_key_sup_1"

check_rule_outcome_example :
    (res : CheckResult) × (s' : Supervision (Unit {0}) prints_active as_it_is) × (check_rule
        (Unit {0})
        prints_active
        as_it_is
        7
        key_path
        "a"
        three_rules
      ≡ (ok res, s'))
    × ((done : SupervisorRule) × (find_first (by_id "a") s'.rules ≡ some done)
        × (done.last_status ≡ some res.status)
        × (done.last_check_at ≡ some 7)
        × (res.status ≡ RuleStatus.restarted → done.restart_count ≡ 1)
        × (res.status ≢ RuleStatus.restarted → done.restart_count ≡ 0))
    × ((res.restarted ≡ true) ↔ (res.status ≡ RuleStatus.restarted))
    × (true ≡ true → res.status ≢ RuleStatus.down)
check_rule_outcome_example =
    check_rule_outcome (Unit {0}) prints_active as_it_is 7 key_path "a"
      (rule_of "a" AppType.pm2 true) three_rules refl

check_all_ids_example :
    map
      (λ (c : CheckResult). c.rule_id)
      (check_all (Unit {0}) prints_active as_it_is (λ i. 7) (λ i. key_path) three_rules).0
    ≡ "a" ∷ "c" ∷ []
check_all_ids_example =
    check_all_ids (Unit {0}) prints_active as_it_is (λ i. 7) (λ i. key_path) three_rules
