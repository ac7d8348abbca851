-- ===== src/Tests/Security.antt =====
-- Examples of the login throttle and of the secrets.
use hamyar_ops.Base.{◌+◌, ◌-◌, ◌≡◌, refl, none, some, [], ◌∷◌, ◌++◌, arith}
use hamyar_ops.Security.LoginThrottle.{
  Attempts, key, get_login_lock_remaining_ms, record_login_failure, prune_login_throttle,
  lockout_ms,
}
use hamyar_ops.Security.LoginThrottle.Lockout.{IsValid, fail_all, fifth_failure_locks}
use hamyar_ops.Security.LoginThrottle.Prune.{prune_not_observable}
use hamyar_ops.Tests.Values.{plain_text}

abbrev no_attempts : Attempts
no_attempts k = none

-- One account, locked until a quarter of an hour.
abbrev locked_attempts : Attempts
locked_attempts k = some (record { failures = 0; locked_until = 900000; first_failure_at = 0 })

fifth_failure_locks_example :
    get_login_lock_remaining_ms 5000 "alice" none
      (fail_all "alice" none (1000 ∷ (2000 ∷ 2500 ∷ 3000 ∷ []) ++ 4000 ∷ []) no_attempts)
    ≡ (4000 + lockout_ms) - 5000
fifth_failure_locks_example =
    fifth_failure_locks "alice" none 1000 4000 5000 (2000 ∷ 2500 ∷ 3000 ∷ []) no_attempts refl refl
      (ground arith) (ground arith)

locked_attempts-IsValid : IsValid locked_attempts
locked_attempts-IsValid = record {
  at_key = λ k s e. record { below_limit = ground arith; lock_bounded = ground arith };
}

prune_not_observable_example :
    (get_login_lock_remaining_ms 6000 "alice" none
        (prune_login_throttle 5000 1800000 locked_attempts)
      ≡ get_login_lock_remaining_ms 6000 "alice" none locked_attempts)
    × ((record_login_failure 6000 "alice" none
          (prune_login_throttle 5000 1800000 locked_attempts)).1
        ≡ (record_login_failure 6000 "alice" none locked_attempts).1)
    × ((record_login_failure 6000 "alice" none
            (prune_login_throttle 5000 1800000 locked_attempts)).0
          (key "alice" none)
        ≡ (record_login_failure 6000 "alice" none locked_attempts).0 (key "alice" none))
prune_not_observable_example =
    prune_not_observable "alice" none 5000 6000 1800000 locked_attempts (ground arith)
      (ground arith)
