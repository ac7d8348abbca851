-- ===== src/Security/LoginThrottle/Prune.antt =====
-- The periodic cleanup of login-throttle.ts is not observable.
use hamyar_ops.Base.{
  ℕ, ◌≤◌, ◌<◌, ◌≡◌, refl, String, Option, none, some, arith, eq_iff, JsText, drop_if,
}
use hamyar_ops.Security.LoginThrottle.{
  AttemptState, Attempts, window_ms, is_stale, remaining, key, current, get_login_lock_remaining_ms,
  record_login_failure, prune_login_throttle,
}

-- An entry after pruning.
abbrev pruned : ℕ → ℕ → Option AttemptState → Option AttemptState
pruned now max_age_ms = drop_if (is_stale now max_age_ms)

module _ (now later max_age_ms : ℕ) (order : now ≤ later) (age : window_ms ≤ max_age_ms) where
  remaining-pruned :
      (o : Option AttemptState) → remaining later (pruned now max_age_ms o) ≡ remaining later o
  remaining-pruned none = refl
  remaining-pruned (some s) = ground arith

  current-pruned :
      (o : Option AttemptState) → current later (pruned now max_age_ms o) ≡ current later o
  current-pruned none = refl
  current-pruned (some s) = ground arith

  pruned_of_locked :
      (o : Option AttemptState)
      → later < (current later o).locked_until
      → pruned now max_age_ms o ≡ o
  pruned_of_locked none locked = refl
  pruned_of_locked (some s) locked = ground arith

module _ ⦃js : JsText⦄ (username : String) (ip : Option String) where
  prune-pruned :
      (now max_age_ms : ℕ) (m : Attempts)
      → prune_login_throttle now max_age_ms m (key username ip)
        ≡ pruned now max_age_ms (m (key username ip))
  unfolding prune_login_throttle
  prune-pruned now max_age_ms m = refl

  -- What `recordLoginFailure` returns and leaves for the account, from the account's entry.
  record_of_entry :
      (later : ℕ) (m n : Attempts)
      → current later (m (key username ip)) ≡ current later (n (key username ip))
      → (later < (current later (n (key username ip))).locked_until
          → m (key username ip) ≡ n (key username ip))
      → ((record_login_failure later username ip m).1
          ≡ (record_login_failure later username ip n).1)
        × ((record_login_failure later username ip m).0 (key username ip)
            ≡ (record_login_failure later username ip n).0 (key username ip))
  unfolding record_login_failure
  record_of_entry later m n same locked =
      rw same (ground (arith, eq_iff (key username ip) (key username ip)))

  -- Pruning at `now` with a maximal age of at least the window is not observable at any later time:
  -- the remaining lock of an account is the same, and so are the number that a further failure
  -- returns and the entry that this failure leaves for the account.
  pub prune_not_observable :
      (now later max_age_ms : ℕ) (m : Attempts)
      → now ≤ later
      → window_ms ≤ max_age_ms
      → (get_login_lock_remaining_ms later username ip (prune_login_throttle now max_age_ms m)
          ≡ get_login_lock_remaining_ms later username ip m)
        × ((record_login_failure later username ip (prune_login_throttle now max_age_ms m)).1
            ≡ (record_login_failure later username ip m).1)
        × ((record_login_failure later username ip (prune_login_throttle now max_age_ms m)).0
              (key username ip)
            ≡ (record_login_failure later username ip m).0 (key username ip))
  unfolding get_login_lock_remaining_ms
  prune_not_observable now later max_age_ms m order age =
      let o = m (key username ip) in
      let p = prune-pruned now max_age_ms m in
      let (number, entry) =
        record_of_entry later (prune_login_throttle now max_age_ms m) m
          (rw p (current-pruned now later max_age_ms order age o))
          (λ locked. rw p (pruned_of_locked now later max_age_ms order age o locked)) in
      (rw p (remaining-pruned now later max_age_ms order age o), number, entry)
