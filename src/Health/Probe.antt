-- ===== src/Health/Probe.antt =====
-- `process` of health-probe.processor.ts, without the incidents: what one probe of an application
-- makes of the stored health and history, and the counts of the snapshot. The answer of the
-- request and the values that Redis returns, which expire there, are arguments.
pub mod Streaks
pub mod Refinement
use hamyar_ops.Base.{
  ℕ, suc, ◌+◌, ◌*◌, ◌/◌, String, Bool, true, false, Option, none, some, List, [], ◌∷◌,
  if◌then◌else◌, leb, length, keep, take, truthy,
}

pub data HealthStatus : Type 0 where
  up down degraded : HealthStatus

-- `AppHealthDto`, without the time of the check.
pub record AppHealth : Type 0 where
  pub app_name : String
  pub healthy : Bool
  pub status_code : Option ℕ
  pub response_time_ms : ℕ
  pub consecutive_failures : ℕ
  pub uptime_percent : ℕ

-- The answer of a request: `res.ok`, the status, and the time it took. A request that fails has no
-- status and is not ok.
pub record Response : Type 0 where
  pub is_ok : Bool
  pub status_code : Option ℕ
  pub elapsed_ms : ℕ

abbrev pub was_healthy : Option AppHealth → Bool
was_healthy none = true
was_healthy (some prev) = prev.healthy

abbrev pub previous_failures : Option AppHealth → ℕ
previous_failures none = 0
previous_failures (some prev) = prev.consecutive_failures

unfoldable pub failures_after : Bool → Option AppHealth → ℕ
failures_after true prev = 0
failures_after false prev = previous_failures prev + 1

unfoldable pub health_status : Bool → ℕ → HealthStatus
health_status true failures = up
health_status false failures = if leb 3 failures then down else degraded

-- `[healthy ? '1' : '0', ...uptimeChecks].slice(0, 100)`, with the texts as Booleans.
unfoldable pub new_history : Bool → List Bool → List Bool
new_history healthy checks = take 100 (healthy ∷ take 100 checks)

abbrev pub ups : List Bool → ℕ
ups checks = length (keep (λ b. b) checks)

-- `Math.round(part / whole * 100)`, computed in floating point.
pub record JsNumber : Type 0 where
  pub percent : ℕ → ℕ → ℕ

unfoldable pub uptime : ⦃num : JsNumber⦄ → List Bool → ℕ
uptime ⦃num⦄ history = num.percent (ups history) (length history)

unfoldable pub health_of :
    ⦃num : JsNumber⦄ → String → Response → Option AppHealth → List Bool → AppHealth
unfolding failures_after uptime new_history
health_of app r prev checks = record {
  app_name = app;
  healthy = r.is_ok;
  status_code = r.status_code;
  response_time_ms = r.elapsed_ms;
  consecutive_failures = failures_after r.is_ok prev;
  uptime_percent = uptime (new_history r.is_ok checks);
}

-- The status that the probe gives to the application.
abbrev pub status_of : AppHealth → HealthStatus
status_of h = health_status h.healthy h.consecutive_failures

-- The counts of the snapshot.
pub record Counts : Type 0 where
  pub total_apps : ℕ
  pub up_count : ℕ
  pub down_count : ℕ
  pub degraded_count : ℕ

-- An application with its health URL, the answer of its request, and what Redis returns for it.
pub record Probed : Type 0 where
  pub app_name : String
  pub health_url : Option String
  pub response : Response
  pub previous : Option AppHealth
  pub checks : List Bool

abbrev pub bump : HealthStatus → Counts → Counts
bump up c = record c { up_count = c.up_count + 1 }
bump down c = record c { down_count = c.down_count + 1 }
bump degraded c = record c { degraded_count = c.degraded_count + 1 }

-- The loop over the applications; one whose URL is empty is passed over.
unfoldable pub count_all : ⦃num : JsNumber⦄ → List Probed → Counts → Counts
unfolding health_of health_status
count_all [] c = c
count_all (a ∷ others) c = count_all others (
    if truthy a.health_url
    then bump (status_of (health_of a.app_name a.response a.previous a.checks)) c
    else c)

unfoldable pub snapshot : ⦃num : JsNumber⦄ → List Probed → Counts
unfolding count_all
snapshot apps =
    count_all apps
      (record { total_apps = length apps; up_count = 0; down_count = 0; degraded_count = 0 })
