-- ===== src/Tests/Monitoring.antt =====
-- Examples of the evaluation of alert rules.
use hamyar_ops.Base.{
  ℕ, ◌-◌, ◌≡◌, String, true, ◌&&◌, none, some, List, [], ◌∷◌, codes, if◌then◌else◌, ltb, leb, ◌==◌,
}
use hamyar_ops.Base.Chars.{Text}
use hamyar_ops.Alerts.{Numbers, Reading, AlertRule, Alerts, evaluate}
use hamyar_ops.Alerts.Raised.{unresolved, fires, unresolved-evaluate}
use hamyar_ops.Tests.Values.{list_database}

instance abbrev whole_numbers : Numbers
whole_numbers = record {
  Number = ℕ;
  zero = 0;
  one = 1;
  minus = λ a b. a - b;
  is_less = λ a b. ltb a b;
  is_at_most = λ a b. leb a b;
  is_same = λ a b. a == b;
}

abbrev busy : Text → ℕ → ℕ → List (Reading ⦃numbers = whole_numbers⦄)
busy key from to =
    record {
      cpu_load = some 95;
      ram_load = none;
      value = none;
      rx = none;
      up = none;
      resp_time = none;
    }
    ∷ []

abbrev busy_rule : AlertRule ⦃numbers = whole_numbers⦄
busy_rule = record {
  id = "r1";
  name = codes "busy";
  metric = codes "cpu";
  app_name = none;
  operator = "gt";
  threshold = 90;
  duration_seconds = 60;
  enabled = true;
}

abbrev event_id : String → String
event_id r = r

abbrev no_alerts : Alerts ⦃numbers = whole_numbers⦄ busy 100000 ⦃db = list_database⦄ event_id
no_alerts = record { rules = busy_rule ∷ []; events = [] }

unresolved-evaluate_example :
    unresolved busy 100000 event_id "r1" (evaluate busy 100000 event_id "evaluate" no_alerts) ≡ (
      if fires busy 100000 event_id "r1" (busy_rule ∷ [])
        && unresolved busy 100000 event_id "r1" no_alerts == 0
      then 1
      else unresolved busy 100000 event_id "r1" no_alerts)
unresolved-evaluate_example = unresolved-evaluate busy 100000 event_id "r1" no_alerts
