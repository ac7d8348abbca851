-- ===== src/Alerts/Rules.antt =====
-- createAlertRule, updateAlertRule and deleteAlertRule of monitoring.service.ts.
use hamyar_ops.Base.{ℕ, String, Bool, true, Option, none, some, List, or_else, str_eq}
use hamyar_ops.Base.Chars.{Text}
use hamyar_ops.Prisma.{Database, find_first}
use hamyar_ops.Http.{record_missing, ok, err, Handler}
use hamyar_ops.Alerts.{Numbers, Reading, AlertRule, AlertEvent, Alerts}

module _ ⦃numbers : Numbers⦄ ⦃db : Database⦄ (history : Text → ℕ → ℕ → List Reading) (now : ℕ)
    (new_id : String → String) where
  open numbers use {Number}
  open db use {create, update_many, delete_many}

  pub record CreateAlertRule : Type 0 where
    pub name : Text
    pub metric : Text
    pub app_name : Option Text
    pub operator : String
    pub threshold : Number
    pub duration_seconds : Option ℕ

  -- The columns of a rule that may be changed; `app_name` may be set to null.
  pub record UpdateAlertRule : Type 0 where
    pub name : Option Text
    pub threshold : Option Number
    pub enabled : Option Bool
    pub app_name : Option (Option Text)

  abbrev pub apply_data : UpdateAlertRule → AlertRule → AlertRule
  apply_data d r = record r {
    name = or_else d.name r.name;
    threshold = or_else d.threshold r.threshold;
    enabled = or_else d.enabled r.enabled;
    app_name = or_else d.app_name r.app_name;
  }

  abbrev pub by_id : String → AlertRule → Bool
  by_id id r = str_eq r.id id

  unfoldable pub create_alert_rule :
      String → CreateAlertRule → Handler (Alerts history now new_id) AlertRule
  create_alert_rule id d s =
      let r : AlertRule = record {
        id = id;
        name = d.name;
        metric = d.metric;
        app_name = d.app_name;
        operator = d.operator;
        threshold = d.threshold;
        duration_seconds = or_else d.duration_seconds 60;
        enabled = true;
      } in
      (ok r, record s { rules = create r s.rules })

  unfoldable pub update_alert_rule :
      String → UpdateAlertRule → Handler (Alerts history now new_id) AlertRule
  update_alert_rule id d s = elim (find_first (by_id id) s.rules) [
    | none ↦ (err record_missing, s)
    | some r ↦
        (ok (apply_data d r), record s { rules = update_many (by_id id) (apply_data d) s.rules })
  ]

  -- The events of a rule go with it.
  unfoldable pub delete_alert_rule : String → Handler (Alerts history now new_id) AlertRule
  delete_alert_rule id s = elim (find_first (by_id id) s.rules) [
    | none ↦ (err record_missing, s)
    | some r ↦ (
      ok r,
      record s {
        rules = delete_many (by_id id) s.rules;
        events = delete_many (λ (e : AlertEvent). str_eq e.rule_id id) s.events;
      },
    )
  ]
