-- ===== src/Health/Probe/Streaks.antt =====
-- Streaks of failed probes and the counts of a snapshot.
use hamyar_ops.Base.{
  ℕ, ◌+◌, ◌≤◌, ◌≡◌, ◌↔◌, refl, String, Bool, false, Option, some, List, [], ◌∷◌, arith, length,
  keep, truthy, All, length-keep-le, Bool-cases, inl, inr,
}
use hamyar_ops.Health.Probe.{
  HealthStatus, up, down, degraded, AppHealth, Response, previous_failures, failures_after,
  health_status, new_history, JsNumber, health_of, status_of, Counts, Probed, count_all, snapshot,
  bump,
}

-- The stored health and history after a sequence of probes of one application, while nothing
-- expires.
unfoldable pub probe_all :
    ⦃num : JsNumber⦄ → String → List Response → Option AppHealth → List Bool → Option AppHealth
unfolding new_history
probe_all app [] prev checks = prev
probe_all app (r ∷ rs) prev checks =
    probe_all app rs (some (health_of app r prev checks)) (new_history r.is_ok checks)

failures-probe_all :
    ⦃num : JsNumber⦄ (app : String) (rs : List Response) (prev : Option AppHealth)
    (checks : List Bool)
    → All (λ (r : Response). r.is_ok ≡ false) rs
    → previous_failures (probe_all app rs prev checks) ≡ previous_failures prev + length rs
unfolding probe_all health_of failures_after
failures-probe_all app [] prev checks h = omega arith
failures-probe_all app (r ∷ rs) prev checks (bad, h) = ground (
  arith,
  failures-probe_all app rs (some (health_of app r prev checks)) (new_history r.is_ok checks) h,
)

-- After failed probes in a row, from an application that had no failure, the counter is their
-- number, and the last of them gives the status DOWN exactly if there were at least three.
pub streak_down_iff :
    ⦃num : JsNumber⦄ (app : String) (rs : List Response) (r : Response) (prev : Option AppHealth)
    (checks later : List Bool)
    → previous_failures prev ≡ 0
    → All (λ (r : Response). r.is_ok ≡ false) rs
    → r.is_ok ≡ false
    → ((health_of app r (probe_all app rs prev checks) later).consecutive_failures ≡ length rs + 1)
      × ((status_of (health_of app r (probe_all app rs prev checks) later) ≡ down)
          ↔ (3 ≤ length rs + 1))
unfolding health_of health_status failures_after
streak_down_iff app rs r prev checks later none_before h bad =
    ground (arith, failures-probe_all app rs prev checks h)

abbrev sum : Counts → ℕ
sum c = c.up_count + c.degraded_count + c.down_count

abbrev with_url : List Probed → List Probed
with_url = keep (λ (a : Probed). truthy a.health_url)

sum-bump :
    (s : HealthStatus) (c : Counts)
    → (sum (bump s c) ≡ sum c + 1) × ((bump s c).total_apps ≡ c.total_apps)
sum-bump up c = (omega arith, refl)
sum-bump down c = (omega arith, refl)
sum-bump degraded c = (omega arith, refl)

sum-count_all :
    ⦃num : JsNumber⦄ (apps : List Probed) (c : Counts)
    → (sum (count_all apps c) ≡ sum c + length (with_url apps))
      × ((count_all apps c).total_apps ≡ c.total_apps)
unfolding count_all
sum-count_all [] c = (omega arith, refl)
sum-count_all (a ∷ others) c =
    let s = status_of (health_of a.app_name a.response a.previous a.checks) in
    elim (Bool-cases (truthy a.health_url)) [
      | inl counted ↦ ground (arith, sum-count_all others (bump s c), sum-bump s c)
      | inr passed ↦ ground (arith, sum-count_all others c)
    ]

-- The up, degraded and down counts of a snapshot add up to the number of applications with a
-- health URL, so never to more than its total.
pub snapshot_sums :
    ⦃num : JsNumber⦄ (apps : List Probed)
    → ((snapshot apps).up_count + (snapshot apps).degraded_count + (snapshot apps).down_count
        ≡ length (keep (λ (a : Probed). truthy a.health_url) apps))
      × ((snapshot apps).up_count + (snapshot apps).degraded_count + (snapshot apps).down_count
          ≤ (snapshot apps).total_apps)
unfolding snapshot
snapshot_sums apps = ground (
  arith,
  length-keep-le (λ (a : Probed). truthy a.health_url) apps,
  sum-count_all apps
      (record { total_apps = length apps; up_count = 0; down_count = 0; degraded_count = 0 }),
)
