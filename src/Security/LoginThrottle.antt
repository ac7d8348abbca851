-- ===== src/Security/LoginThrottle.antt =====
-- apps/ops-api/src/common/security/login-throttle.ts: the module's map is passed as a value, and
-- `Date.now()` is the argument `now`, in milliseconds.
pub mod Lockout
pub mod Prune
use hamyar_ops.Base.{
  ℕ, ◌+◌, ◌-◌, ◌*◌, String, Bool, ◌&&◌, Option, none, some, if◌then◌else◌, ltb, leb, JsMap, map_set,
  map_delete, map_delete_where, JsText, ◌<>◌, str_eq,
}

pub record AttemptState : Type 0 where
  pub failures : ℕ
  pub locked_until : ℕ
  pub first_failure_at : ℕ

abbrev pub Attempts : Type 0
Attempts = JsMap AttemptState

abbrev pub max_failures : ℕ
max_failures = 5

abbrev pub window_ms : ℕ
window_ms = 15 * 60 * 1000

abbrev pub lockout_ms : ℕ
lockout_ms = 15 * 60 * 1000

-- `ip || 'unknown'`
abbrev ip_or_unknown : Option String → String
ip_or_unknown none = "unknown"
ip_or_unknown (some ip) = if str_eq ip "" then "unknown" else ip

-- The remaining lock of one entry of the map.
abbrev pub remaining : ℕ → Option AttemptState → ℕ
remaining now none = 0
remaining now (some state) = if ltb now state.locked_until then state.locked_until - now else 0

-- The entry that `recordLoginFailure` starts from.
abbrev pub fresh : ℕ → AttemptState
fresh now = record { failures = 0; locked_until = 0; first_failure_at = now }

abbrev pub current : ℕ → Option AttemptState → AttemptState
current now none = fresh now
current now (some state) = if ltb window_ms (now - state.first_failure_at) then fresh now else state

-- One more failure, on an entry that is not locked.
pub count_failure : ℕ → AttemptState → AttemptState
count_failure now state =
    if leb max_failures (state.failures + 1)
    then record { failures = 0; locked_until = now + lockout_ms; first_failure_at = now }
    else record state { failures = state.failures + 1 }

module _ ⦃js : JsText⦄ where
  unfoldable pub key : String → Option String → String
  key username ip = js.to_lower_case username <> ("|" <> ip_or_unknown ip)

  unfoldable pub get_login_lock_remaining_ms : ℕ → String → Option String → Attempts → ℕ
  get_login_lock_remaining_ms now username ip attempts = remaining now (attempts (key username ip))

  -- The map afterwards and the returned number. A locked entry is returned as it is, and not stored.
  unfoldable pub record_login_failure : ℕ → String → Option String → Attempts → Attempts × ℕ
  unfolding count_failure
  record_login_failure now username ip attempts =
      let k = key username ip in
      let state = current now (attempts k) in
      let counted = count_failure now state in
      if ltb now state.locked_until
      then (attempts, state.locked_until - now)
      else (map_set k counted attempts, counted.locked_until - now)

  unfoldable pub clear_login_failures : String → Option String → Attempts → Attempts
  clear_login_failures username ip attempts = map_delete (key username ip) attempts

abbrev pub is_stale : ℕ → ℕ → AttemptState → Bool
is_stale now max_age_ms state =
    ltb state.locked_until now && ltb max_age_ms (now - state.first_failure_at)

unfoldable pub prune_login_throttle : ℕ → ℕ → Attempts → Attempts
prune_login_throttle now max_age_ms attempts = map_delete_where (is_stale now max_age_ms) attempts
