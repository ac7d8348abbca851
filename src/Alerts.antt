-- ===== src/Alerts.antt =====
-- alert-evaluator.processor.ts of modules/monitoring, and the alert rules of monitoring.service.ts.
-- The numbers of JavaScript and the metrics in Redis are parameters; texts are lists of UTF-16 code
-- units.
pub mod Rules
pub mod Raised
use hamyar_ops.Base.{
  drop, ℕ, ◌-◌, ◌*◌, String, Bool, true, false, ◌&&◌, ◌||◌, not, Option, none, some, List, [], ◌∷◌,
  ◌++◌, if◌then◌else◌, codes, keep, or_else, is_some, str_eq, any,
}
use hamyar_ops.Base.Chars.{Text, is_empty, starts_with, text_eq, has}
use hamyar_ops.Prisma.{Database, find_first}
use hamyar_ops.Http.{record_missing, Result, ok, err, Handler}

-- The numbers of JavaScript, as far as rules compute with them.
pub record Numbers : Type 1 where
  pub Number : Type 0
  pub zero : Number
  pub one : Number
  pub minus : Number → Number → Number
  pub is_less : Number → Number → Bool
  pub is_at_most : Number → Number → Bool
  pub is_same : Number → Number → Bool

pub data Kind : Type 0 where
  cpu : Kind
  ram : Kind
  disk : Kind
  network : Kind
  resptime : Kind
  down : Kind

-- The key in Redis, and which part of a reading counts.
pub record ResolvedMetric : Type 0 where
  pub key : Text
  pub kind : Kind

-- What stands before a suffix.
abbrev one_more : ℕ → Option Text → Option Text
one_more c none = none
one_more c (some s) = some (c ∷ s)

abbrev pub before_suffix : Text → Text → Option Text
before_suffix suffix [] = if is_empty suffix then some [] else none
before_suffix suffix (c ∷ s) =
    let later = one_more c (before_suffix suffix s) in
    if text_eq suffix (c ∷ s) then some [] else later

-- `.+`: at least one character, and no line end.
abbrev pub is_name : Text → Bool
is_name s = not (is_empty s) && not (has 10 s || has 13 s || has 8232 s || has 8233 s)

abbrev pub app_metric : Kind → Option Text → Option ResolvedMetric
app_metric kind none = none
app_metric kind (some name) =
    if is_name name then some (record { key = codes "metrics:app:" ++ name; kind = kind }) else none

abbrev pub or_metric : Option ResolvedMetric → Option ResolvedMetric → Option ResolvedMetric
or_metric none b = b
or_metric (some a) b = some a

-- /^app:(.+):(resptime|down)$/
abbrev pub match_app : Text → Option ResolvedMetric
match_app metric =
    if starts_with (codes "app:") metric
    then or_metric (app_metric Kind.resptime (before_suffix (codes ":resptime") (drop 4 metric)))
        (app_metric Kind.down (before_suffix (codes ":down") (drop 4 metric)))
    else none

unfoldable pub resolve_metric : Text → Option ResolvedMetric
resolve_metric metric =
    if text_eq metric (codes "cpu")
    then some (record { key = codes "metrics:cpu"; kind = Kind.cpu })
    else if text_eq metric (codes "ram")
    then some (record { key = codes "metrics:ram"; kind = Kind.ram })
    else if text_eq metric (codes "disk")
    then some (record { key = codes "metrics:disk"; kind = Kind.disk })
    else if text_eq metric (codes "network")
    then some (record { key = codes "metrics:network"; kind = Kind.network })
    else match_app metric

-- The last element.
abbrev pub latest : {A : Type 0} → List A → Option A
latest [] = none
latest (x ∷ []) = some x
latest (x ∷ y ∷ xs) = latest (y ∷ xs)

module _ ⦃numbers : Numbers⦄ where
  open numbers use {Number, zero, one, minus, is_less, is_at_most, is_same}

  -- A reading; fields that it does not have are undefined.
  pub record Reading : Type 0 where
    pub cpu_load : Option Number
    pub ram_load : Option Number
    pub value : Option Number
    pub rx : Option Number
    pub up : Option Number
    pub resp_time : Option Number

  abbrev pub pick : Kind → Reading → Option Number
  pick Kind.cpu h = h.cpu_load
  pick Kind.ram h = h.ram_load
  pick Kind.disk h = h.value
  pick Kind.network h = h.rx
  pick Kind.resptime h = some (or_else h.resp_time zero)
  pick Kind.down h = some (minus one (or_else h.up one))

  -- `OPS[operator]?.(a, b)`
  abbrev pub compare_by : String → Number → Number → Bool
  compare_by operator a b =
      if str_eq operator "gt"
      then is_less b a
      else if str_eq operator "lt"
      then is_less a b
      else if str_eq operator "gte"
      then is_at_most b a
      else if str_eq operator "lte"
      then is_at_most a b
      else if str_eq operator "eq"
      then is_same a b
      else false

  pub record AlertRule : Type 0 where
    pub id : String
    pub name : Text
    pub metric : Text
    pub app_name : Option Text
    pub operator : String
    pub threshold : Number
    pub duration_seconds : ℕ
    pub enabled : Bool

  pub record AlertEvent : Type 0 where
    pub id : String
    pub rule_id : String
    pub resolved_at : Option ℕ
    pub value : Number
    pub notified : Bool

  abbrev pub is_unresolved : String → AlertEvent → Bool
  is_unresolved rule e = str_eq e.rule_id rule && not (is_some e.resolved_at)

  -- The value that triggers a rule, if the latest reading does. A comparison with undefined is false.
  abbrev pub value_triggering : AlertRule → Option Number → Option Number
  value_triggering r none = none
  value_triggering r (some v) = if compare_by r.operator v r.threshold then some v else none

  abbrev picked : Kind → Option Reading → Option Number
  picked kind none = none
  picked kind (some h) = pick kind h

  module _ (history : Text → ℕ → ℕ → List Reading) (now : ℕ) where
    abbrev triggered_by : AlertRule → Option ResolvedMetric → Option Number
    triggered_by r none = none
    triggered_by r (some m) =
        value_triggering r
          (picked m.kind (latest (history m.key (now - r.duration_seconds * 1000) now)))

    unfoldable pub triggered : AlertRule → Option Number
    unfolding resolve_metric
    triggered r = triggered_by r (resolve_metric r.metric)

    module _ ⦃db : Database⦄ (new_id : String → String) where
      open db use {Table, rows, create}

      pub record Alerts : Type 0 where
        pub rules : Table AlertRule
        pub events : Table AlertEvent

      abbrev pub raise : AlertRule → Number → Alerts → Alerts
      raise r v s = record s {
        events =
            create
              (record {
                id = new_id r.id;
                rule_id = r.id;
                resolved_at = none;
                value = v;
                notified = false;
              })
              s.events;
      }

      abbrev pub raise_once : AlertRule → Option Number → Alerts → Alerts
      raise_once r none s = s
      raise_once r (some v) s =
          if is_some (find_first (is_unresolved r.id) s.events) then s else raise r v s

      unfoldable pub evaluate_rule : AlertRule → Alerts → Alerts
      unfolding triggered
      evaluate_rule r s = raise_once r (triggered r) s

      abbrev pub evaluate_all : List AlertRule → Alerts → Alerts
      unfolding evaluate_rule
      evaluate_all [] s = s
      evaluate_all (r ∷ rs) s = evaluate_all rs (evaluate_rule r s)

      -- `process`, for the job `evaluate`; other jobs are ignored.
      unfoldable pub evaluate : String → Alerts → Alerts
      unfolding evaluate_all
      evaluate job s =
          if str_eq job "evaluate"
          then evaluate_all (keep (λ (r : AlertRule). r.enabled) (rows s.rules)) s
          else s
