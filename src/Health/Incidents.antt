-- ===== src/Health/Incidents.antt =====
-- `trackIncident` of health-probe.processor.ts, and what one probe changes for one application.
-- The texts of incidents and events are not modelled.
pub mod Tracking
use hamyar_ops.Base.{
  ℕ, ◌-◌, String, Bool, true, false, ◌&&◌, not, Option, none, some, List, [], ◌∷◌, if◌then◌else◌,
  leb, ltb, ◌==◌, keep, is_some, str_eq,
}
use hamyar_ops.Prisma.{Database}
use hamyar_ops.Health.Probe.{
  HealthStatus, up, down, degraded, AppHealth, Response, was_healthy, new_history, health_of,
  JsNumber, status_of,
}

pub record Incident : Type 0 where
  pub id : String
  pub app_name : String
  pub status : HealthStatus
  pub started_at : ℕ
  pub resolved_at : Option ℕ
  pub duration_ms : Option ℕ

pub record IncidentEvent : Type 0 where
  pub incident_id : String
  pub status : HealthStatus

abbrev pub is_down : HealthStatus → Bool
is_down down = true
is_down up = false
is_down degraded = false

-- appName, and no `resolvedAt`.
abbrev pub is_open : String → Incident → Bool
is_open app i = str_eq i.app_name app && not (is_some i.resolved_at)

-- The most recently started one, the first among equals.
unfoldable pub most_recent : List Incident → Option Incident
most_recent [] = none
most_recent (i ∷ others) = elim (most_recent others) [
  | none ↦ some i
  | some later ↦ if ltb i.started_at later.started_at then some later else some i
]

abbrev pub resolve : ℕ → Incident → Incident
resolve now i = record i {
  status = up;
  resolved_at = some now;
  duration_ms = some (now - i.started_at);
}

module _ ⦃db : Database⦄ where
  open db use {Table, rows, create, update_many}

  -- What the monitoring keeps of one application, and the incidents of all of them.
  pub record Watch : Type 0 where
    pub health : Option AppHealth
    pub history : List Bool
    pub incidents : Table Incident
    pub events : Table IncidentEvent

  abbrev pub active_incident : String → Watch → Option Incident
  unfolding most_recent
  active_incident app w = most_recent (keep (is_open app) (rows w.incidents))

  abbrev add_event : String → HealthStatus → Watch → Watch
  add_event incident status w = record w {
    events = create (record { incident_id = incident; status = status }) w.events;
  }

  abbrev pub close_incident : ℕ → String → Watch → Watch
  close_incident now id w = record w {
    incidents = update_many (λ i. str_eq i.id id) (resolve now) w.incidents;
  }

  abbrev pub open_incident : ℕ → String → String → Watch → Watch
  open_incident now id app w = record w {
    incidents =
        create
          (record {
            id = id;
            app_name = app;
            status = down;
            started_at = now;
            resolved_at = none;
            duration_ms = none;
          })
          w.incidents;
  }

  -- The active incident is an argument, as the first statement of the function finds it.
  unfoldable pub track_by :
      ℕ → String → String → HealthStatus → Bool → ℕ → Option Incident → Watch → Watch
  track_by now new_id app up was_healthy failures (some i) w =
      add_event i.id up (close_incident now i.id w)
  track_by now new_id app up was_healthy failures none w = w
  track_by now new_id app down was_healthy failures (some i) w = w
  track_by now new_id app down was_healthy failures none w =
      if not was_healthy && leb 3 failures
      then if failures == 3 then add_event new_id down (open_incident now new_id app w) else w
      else w
  track_by now new_id app degraded was_healthy failures (some i) w =
      if is_down i.status then add_event i.id degraded w else w
  track_by now new_id app degraded was_healthy failures none w = w

  unfoldable pub track_incident : ℕ → String → String → HealthStatus → Bool → ℕ → Watch → Watch
  unfolding track_by
  track_incident now new_id app status was_healthy failures w =
      track_by now new_id app status was_healthy failures (active_incident app w) w

  abbrev pub set_health : ⦃num : JsNumber⦄ → String → Response → Watch → Watch
  set_health app r w = record w {
    health = some (health_of app r w.health w.history);
    history = new_history r.is_ok w.history;
  }

  -- The body of the loop for one application.
  unfoldable pub probe_app : ⦃num : JsNumber⦄ → ℕ → String → String → Response → Watch → Watch
  unfolding track_incident
  probe_app now new_id app r w =
      let h = health_of app r w.health w.history in
      track_incident now new_id app (status_of h) (was_healthy w.health) h.consecutive_failures
        (set_health app r w)
