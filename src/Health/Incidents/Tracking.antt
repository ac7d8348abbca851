-- ===== src/Health/Incidents/Tracking.antt =====
-- Incidents follow the streaks of failed probes.
use hamyar_ops.Base.{
  ℕ, ◌+◌, ◌≤◌, ◌<◌, ◌≡◌, refl, ap, String, Bool, true, false, Option, none, some, List, [], ◌∷◌,
  ◌++◌, arith, if◌then◌else◌, leb, length, keep, amend, str_eq, eq_iff, Option-cases, inl, inr,
}
use hamyar_ops.Prisma.{Database}
use hamyar_ops.Health.Probe.{
  HealthStatus, up, down, degraded, Response, was_healthy, previous_failures, failures_after,
  health_status, health_of, JsNumber,
}
use hamyar_ops.Health.Incidents.{
  Incident, is_open, most_recent, resolve, Watch, active_incident, track_by, track_incident,
  probe_app, set_health,
}

abbrev pub count_open : String → List Incident → ℕ
count_open app is = length (keep (is_open app) is)

most_recent-none : (is : List Incident) → most_recent is ≡ none → is ≡ []
unfolding most_recent
most_recent-none [] h = refl
most_recent-none (i ∷ others) h = ground arith

count-none :
    (app : String) (is : List Incident)
    → most_recent (keep (is_open app) is) ≡ none
    → count_open app is ≡ 0
count-none app is h = ground (arith, most_recent-none (keep (is_open app) is) h)

count-zero :
    (app : String) (is : List Incident)
    → count_open app is ≡ 0
    → most_recent (keep (is_open app) is) ≡ none
unfolding most_recent
count-zero app [] h = refl
count-zero app (i ∷ others) h = ground (arith, count-zero app others)

count-resolve :
    (app id : String) (now : ℕ) (is : List Incident)
    → count_open app (amend (λ i. str_eq i.id id) (resolve now) is) ≤ count_open app is
count-resolve app id now [] = omega arith
count-resolve app id now (i ∷ others) = ground (arith, count-resolve app id now others)

abbrev id_or : String → Option Incident → String
id_or d none = d
id_or d (some i) = i.id

same_id : (i a : Incident) → some i ≡ some a → str_eq i.id a.id ≡ true
same_id i a h = ground (arith, ap (λ o. id_or i.id o) h, eq_iff i.id a.id)

count-resolve_active :
    (app : String) (now : ℕ) (is : List Incident) (a : Incident)
    → count_open app is ≤ 1
    → most_recent (keep (is_open app) is) ≡ some a
    → count_open app (amend (λ i. str_eq i.id a.id) (resolve now) is) ≡ 0
unfolding most_recent
count-resolve_active app now [] a h m = ground arith
count-resolve_active app now (i ∷ others) a h m = ground (
  arith,
  count-resolve_active app now others a,
  count-resolve app a.id now others,
  count-zero app others,
  same_id i a,
)

count-append :
    (app : String) (is : List Incident) (i : Incident)
    → count_open app (is ++ i ∷ []) ≡ count_open app is + count_open app (i ∷ [])
count-append app [] i = omega arith
count-append app (x ∷ others) i = ground (arith, count-append app others i)

module _ ⦃db : Database⦄ where
  open db use {Table, rows}

  -- One incident is open while the application is down, and none otherwise.
  abbrev pub Tracks : String → Watch → Type 0
  Tracks app w =
      (count_open app (rows w.incidents) ≡ (if leb 3 (previous_failures w.health) then 1 else 0))
      × (0 < previous_failures w.health → was_healthy w.health ≡ false)

  track_up :
      (now : ℕ) (id app : String) (wh : Bool) (n : ℕ) (w : Watch)
      → count_open app (rows w.incidents) ≤ 1
      → count_open app (rows (track_incident now id app up wh n w).incidents) ≡ 0
  unfolding track_incident track_by most_recent active_incident
  track_up now id app wh n w h = elim (Option-cases (active_incident app w)) [
    | inl none_open ↦ rw none_open (count-none app (rows w.incidents) none_open)
    | inr (a, found) ↦
        rw (found, db.rows-update_many) (count-resolve_active app now (rows w.incidents) a h found)
  ]

  track_degraded :
      (now : ℕ) (id app : String) (wh : Bool) (n : ℕ) (w : Watch)
      → rows (track_incident now id app degraded wh n w).incidents ≡ rows w.incidents
  unfolding track_incident track_by
  track_degraded now id app wh n w = ground (arith, Option-cases (active_incident app w))

  track_third :
      (now : ℕ) (id app : String) (w : Watch)
      → count_open app (rows w.incidents) ≡ 0
      → count_open app (rows (track_incident now id app down false 3 w).incidents) ≡ 1
  unfolding track_incident track_by active_incident
  track_third now id app w h =
      rw (count-zero app (rows w.incidents) h, db.rows-create, count-append)
        (ground (arith, eq_iff app app))

  track_later :
      (now : ℕ) (id app : String) (wh : Bool) (n : ℕ) (w : Watch)
      → 3 < n
      → rows (track_incident now id app down wh n w).incidents ≡ rows w.incidents
  unfolding track_incident track_by
  track_later now id app wh n w h = ground (arith, Option-cases (active_incident app w))

  track-health :
      (now : ℕ) (id app : String) (st : HealthStatus) (wh : Bool) (n : ℕ) (w : Watch)
      → (track_incident now id app st wh n w).health ≡ w.health
  unfolding track_incident track_by
  track-health now id app up wh n w = ground (arith, Option-cases (active_incident app w))
  track-health now id app down wh n w = ground (arith, Option-cases (active_incident app w))
  track-health now id app degraded wh n w = ground (arith, Option-cases (active_incident app w))

  track-failed :
      (now : ℕ) (id app : String) (wh : Bool) (f : ℕ) (w : Watch)
      → count_open app (rows w.incidents) ≡ (if leb 3 f then 1 else 0)
      → (0 < f → wh ≡ false)
      → count_open app
          (rows (track_incident now id app (health_status false (f + 1)) wh (f + 1) w).incidents)
        ≡ (if leb 3 (f + 1) then 1 else 0)
  unfolding health_status
  track-failed now id app wh f w h q = ground (
    arith,
    track_degraded now id app wh (f + 1) w,
    track_third now id app w,
    track_later now id app wh (f + 1) w,
  )

  probe_app-Tracks :
      ⦃num : JsNumber⦄ (now : ℕ) (id app : String) (r : Response) (w : Watch)
      → Tracks app w
      → Tracks app (probe_app now id app r w)
  unfolding probe_app health_of failures_after health_status
  probe_app-Tracks now id app r w (h, q) =
      let w' = set_health app r w in
      ground (
        arith,
        track-health now id app (health_status r.is_ok (failures_after r.is_ok w.health))
            (was_healthy w.health) (failures_after r.is_ok w.health) w',
        track_up now id app (was_healthy w.health) 0 w',
        track-failed now id app (was_healthy w.health) (previous_failures w.health) w',
      )

  abbrev pub probe_times : ⦃num : JsNumber⦄ → String → List (ℕ × String × Response) → Watch → Watch
  unfolding probe_app
  probe_times app [] w = w
  probe_times app ((now, id, r) ∷ later) w = probe_times app later (probe_app now id app r w)

  probe_times-Tracks :
      ⦃num : JsNumber⦄ (app : String) (ps : List (ℕ × String × Response)) (w : Watch)
      → Tracks app w
      → Tracks app (probe_times app ps w)
  unfolding probe_times
  probe_times-Tracks app [] w h = h
  probe_times-Tracks app ((now, id, r) ∷ later) w h =
      probe_times-Tracks app later (probe_app now id app r w) (probe_app-Tracks now id app r w h)

  -- From an application without stored health and without an open incident, after any sequence
  -- of its probes in which its stored health does not expire, it has exactly one open incident if
  -- the failures in a row that its stored health counts are three or more, and none otherwise.
  pub incident_iff_down :
      ⦃num : JsNumber⦄ (app : String) (ps : List (ℕ × String × Response)) (w : Watch)
      → w.health ≡ none
      → count_open app (rows w.incidents) ≡ 0
      → count_open app (rows (probe_times app ps w).incidents)
        ≡ (if leb 3 (previous_failures (probe_times app ps w).health) then 1 else 0)
  incident_iff_down app ps w fresh none_open =
      (probe_times-Tracks app ps w (rw (fresh) (ground arith), rw (fresh) (ground arith))).0
