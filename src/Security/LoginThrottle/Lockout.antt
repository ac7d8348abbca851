-- ===== src/Security/LoginThrottle/Lockout.antt =====
-- When login-throttle.ts locks an account, for how long, and what it leaves alone.
use hamyar_ops.Base.{
  ℕ, ◌+◌, ◌-◌, ◌≤◌, ◌<◌, ◌≡◌, refl, ◌≢◌, String, Option, none, some, List, [], ◌∷◌, ◌++◌, arith,
  eq_iff, length, All, JsText, zero-add, Option-cases, inl, inr,
}
use hamyar_ops.Security.LoginThrottle.{
  AttemptState, Attempts, max_failures, window_ms, lockout_ms, key, remaining, current,
  get_login_lock_remaining_ms, count_failure, record_login_failure, clear_login_failures,
}

-- What every stored entry satisfies.
pub record IsValidState (s : AttemptState) : Type 0 where
  pub below_limit : s.failures < max_failures
  pub lock_bounded : s.locked_until ≤ s.first_failure_at + lockout_ms

pub record IsValid (m : Attempts) : Type 0 where
  pub at_key : (k : String) (s : AttemptState) → m k ≡ some s → IsValidState s

count_failure-IsValidState :
    (now : ℕ) (s : AttemptState) → IsValidState s → IsValidState (count_failure now s)
unfolding count_failure
count_failure-IsValidState now s v = ground arith

current-IsValidState :
    (now : ℕ) (o : Option AttemptState)
    → ((s : AttemptState) → o ≡ some s → IsValidState s)
    → IsValidState (current now o)
current-IsValidState now none v = ground arith
current-IsValidState now (some s) v = ground (arith, v s refl)

module _ ⦃js : JsText⦄ (username : String) (ip : Option String) where
  -- A failure keeps every entry valid: its counter stays below the limit, and its lock ends at most
  -- fifteen minutes after its window began.
  pub record_login_failure-IsValid :
      (now : ℕ) (m : Attempts) → IsValid m → IsValid (record_login_failure now username ip m).0
  unfolding record_login_failure
  record_login_failure-IsValid now m v =
      let k = key username ip in
      record {
        at_key = λ j s e. ground (
          arith,
          v.at_key j s,
          count_failure-IsValidState now (current now (m k))
              (current-IsValidState now (m k) (v.at_key k)),
        );
      }

  -- The failures of one account at the given times, one after another.
  pub fail_all : List ℕ → Attempts → Attempts
  fail_all [] m = m
  fail_all (t ∷ ts) m = fail_all ts (record_login_failure t username ip m).0

  -- The account has an entry with this many failures, in a window begun at `start`, and no lock.
  abbrev HasFailures : ℕ → ℕ → Attempts → Type 0
  HasFailures n start m =
      m (key username ip)
      ≡ some (record { failures = n; locked_until = 0; first_failure_at = start })

  step_below :
      (n start t : ℕ) (m : Attempts)
      → HasFailures n start m
      → n + 1 < max_failures
      → t - start ≤ window_ms
      → HasFailures (n + 1) start (record_login_failure t username ip m).0
  unfolding record_login_failure
  step_below n start t m h below inside = ground (arith, eq_iff (key username ip) (key username ip))

  step_limit :
      (n start t now : ℕ) (m : Attempts)
      → HasFailures n start m
      → n + 1 ≡ max_failures
      → t - start ≤ window_ms
      → get_login_lock_remaining_ms now username ip (record_login_failure t username ip m).0
        ≡ (t + lockout_ms) - now
  unfolding record_login_failure get_login_lock_remaining_ms
  step_limit n start t now m h limit inside =
      ground (arith, eq_iff (key username ip) (key username ip))

  fail_all_limit :
      (n start t now : ℕ) (ts : List ℕ) (m : Attempts)
      → HasFailures n start m
      → n + length ts + 1 ≡ max_failures
      → All (λ u. u - start ≤ window_ms) ts
      → t - start ≤ window_ms
      → get_login_lock_remaining_ms now username ip (fail_all (ts ++ t ∷ []) m)
        ≡ (t + lockout_ms) - now
  unfolding fail_all
  fail_all_limit n start t now [] m h count inside last =
      step_limit n start t now m h (omega arith) last
  fail_all_limit n start t now (u ∷ us) m h count (here, inside) last =
      fail_all_limit (n + 1) start t now us (record_login_failure u username ip m).0
        (step_below n start u m h (omega arith) here) (omega arith) inside last

  step_first :
      (start : ℕ) (m : Attempts)
      → m (key username ip) ≡ none
      → HasFailures 1 start (record_login_failure start username ip m).0
  unfolding record_login_failure
  step_first start m absent = ground (arith, eq_iff (key username ip) (key username ip))

  -- An account without an entry that fails at `start`, at three further times and at `t`, all
  -- within the window that begins at `start`, is locked until fifteen minutes after `t`: at every
  -- `now` the remaining lock is what is left of them.
  pub fifth_failure_locks :
      (start t now : ℕ) (ts : List ℕ) (m : Attempts)
      → m (key username ip) ≡ none
      → length ts ≡ 3
      → All (λ u. u - start ≤ window_ms) ts
      → t - start ≤ window_ms
      → get_login_lock_remaining_ms now username ip (fail_all (start ∷ ts ++ t ∷ []) m)
        ≡ (t + lockout_ms) - now
  unfolding fail_all
  fifth_failure_locks start t now ts m absent three inside last =
      fail_all_limit 1 start t now ts (record_login_failure start username ip m).0
        (step_first start m absent) (omega arith) inside last

  -- The account's entry has at most this many failures and no lock.
  abbrev IsOpen : ℕ → Option AttemptState → Type 0
  IsOpen n none = Unit
  IsOpen n (some s) = (s.failures ≤ n) × (s.locked_until ≡ 0)

  step-IsOpen :
      (n t : ℕ) (m : Attempts)
      → IsOpen n (m (key username ip))
      → n + 1 < max_failures
      → IsOpen (n + 1) ((record_login_failure t username ip m).0 (key username ip))
  unfolding record_login_failure
  step-IsOpen n t m h below = ground (arith, eq_iff (key username ip) (key username ip))

  fail_all-IsOpen :
      (n : ℕ) (ts : List ℕ) (m : Attempts)
      → IsOpen n (m (key username ip))
      → n + length ts < max_failures
      → IsOpen (n + length ts) (fail_all ts m (key username ip))
  unfolding fail_all
  fail_all-IsOpen n [] m h below = ground arith
  fail_all-IsOpen n (t ∷ ts) m h below =
      let e : n + length (t ∷ ts) ≡ (n + 1) + length ts = omega arith in
      rw e (
        fail_all-IsOpen (n + 1) ts (record_login_failure t username ip m).0
          (step-IsOpen n t m h (omega arith)) (omega arith))

  remaining_of_IsOpen : (n now : ℕ) (o : Option AttemptState) → IsOpen n o → remaining now o ≡ 0
  remaining_of_IsOpen n now none h = refl
  remaining_of_IsOpen n now (some s) h = ground arith

  -- Fewer than five failures since the account had no entry never lock it, at whatever times they
  -- happen and whenever the lock is read.
  pub four_failures_stay_open :
      (now : ℕ) (ts : List ℕ) (m : Attempts)
      → m (key username ip) ≡ none
      → length ts < max_failures
      → get_login_lock_remaining_ms now username ip (fail_all ts m) ≡ 0
  unfolding get_login_lock_remaining_ms
  four_failures_stay_open now ts m absent few =
      remaining_of_IsOpen (length ts) now _
        (rw zero-add at (fail_all-IsOpen 0 ts m (rw absent tt) (omega arith)))

  -- In a valid map an account that is locked has an open window, so a further failure changes
  -- nothing and returns the remaining lock: the lock is not prolonged.
  pub locked_not_prolonged :
      (now : ℕ) (m : Attempts)
      → IsValid m
      → 0 < get_login_lock_remaining_ms now username ip m
      → record_login_failure now username ip m ≡ (m, get_login_lock_remaining_ms now username ip m)
  unfolding record_login_failure get_login_lock_remaining_ms
  locked_not_prolonged now m v locked = elim (Option-cases (m (key username ip))) [
    | inl e ↦ absurd (ground arith)
    | inr (s, e) ↦ ground (arith, v.at_key (key username ip) s e)
  ]

  -- Failures and clearing of one account leave the entry of every account with another key.
  pub other_account_unchanged :
      (now : ℕ) (k : String) (m : Attempts)
      → k ≢ key username ip
      → ((record_login_failure now username ip m).0 k ≡ m k)
        × (clear_login_failures username ip m k ≡ m k)
  unfolding record_login_failure clear_login_failures
  other_account_unchanged now k m other = ground (arith, eq_iff (key username ip) k)

  clear_login_failures_lem :
      (m : Attempts) → clear_login_failures username ip m (key username ip) ≡ none
  unfolding clear_login_failures
  clear_login_failures_lem m = ground (arith, eq_iff (key username ip) (key username ip))
