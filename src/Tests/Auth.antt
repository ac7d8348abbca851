-- ===== src/Tests/Auth.antt =====
-- Examples of logins, sessions and backup codes.
use hamyar_ops.Base.{◌+◌, ◌≡◌, refl, none, some, arith, eq_iff, str_eq, length}
use hamyar_ops.Prisma.{find_first}
use hamyar_ops.Http.{unauthorized, ok, err}
use hamyar_ops.Security.Secrets.{
  assert_strong_secret, get_jwt_access_secret, get_jwt_refresh_secret,
}
use hamyar_ops.Security.LoginThrottle.{
  key, get_login_lock_remaining_ms, record_login_failure, clear_login_failures,
}
use hamyar_ops.Auth.State.{User}
use hamyar_ops.Auth.Login.{
  Tokens, safe_user, index_of, splice_one, assert_not_locked, check_password, validate_user,
  consume_backup_code, check_totp, second_factor, generate_tokens, create_session, open_session,
  login,
}
use hamyar_ops.Auth.Login.Soundness.{IsAdmitted, login_sound}
use hamyar_ops.Auth.Login.BackupCodes.{backup_code_used_once}
use hamyar_ops.Auth.Sessions.{live_session, session_user, rotate_session, refresh}
use hamyar_ops.Auth.Sessions.Rotation.{IsValid, refresh_rotates}
use hamyar_ops.Tests.Values.{list_database, plain_text}
use hamyar_ops.Tests.Accounts.{
  plain_libraries, plain_env, at_start, at_end, alice, alice_tokens, accounts,
}

alice_logs_in :
    login plain_libraries plain_env at_start "alice" "wonder" (some "spare-1") accounts ≡ (
      ok (alice_tokens, safe_user alice),
      (login plain_libraries plain_env at_start "alice" "wonder" (some "spare-1") accounts).1,
    )
unfolding login validate_user assert_not_locked check_password second_factor check_totp
    consume_backup_code open_session generate_tokens create_session safe_user index_of splice_one
    get_jwt_access_secret get_jwt_refresh_secret assert_strong_secret get_login_lock_remaining_ms
    record_login_failure clear_login_failures key
alice_logs_in = refl

login_sound_example :
    IsAdmitted plain_libraries plain_env at_start "alice" "wonder"
      (some "spare-1")
      accounts
      (login plain_libraries plain_env at_start "alice" "wonder" (some "spare-1") accounts).1
      alice_tokens
      (safe_user alice)
login_sound_example =
    login_sound plain_libraries plain_env at_start "alice" "wonder" (some "spare-1") accounts
      (login plain_libraries plain_env at_start "alice" "wonder" (some "spare-1") accounts).1
      alice_tokens (safe_user alice) alice_logs_in

is_open : get_login_lock_remaining_ms 10000 "alice" none accounts.attempts ≡ 0
unfolding get_login_lock_remaining_ms
is_open = refl

listed : index_of "spare-1" alice.totp_backup_codes ≡ some 0
unfolding index_of
listed = refl

backup_code_used_once_example :
    (after : User) × (find_first
        (λ u. str_eq u.id "u1")
        (login plain_libraries plain_env at_start "alice" "wonder"
          (some "spare-1")
          accounts).1.users
      ≡ some after)
    × (length after.totp_backup_codes + 1 ≡ 2)
    × (index_of "spare-1" after.totp_backup_codes ≡ none)
backup_code_used_once_example =
    backup_code_used_once plain_libraries plain_env at_start "alice" "wonder" "spare-1" alice 0
      accounts
      (login plain_libraries plain_env at_start "alice" "wonder" (some "spare-1") accounts).1
      (alice_tokens, safe_user alice) alice_logs_in refl refl refl refl listed
      ((λ e. ground (arith, (eq_iff "spare-2" "spare-1").1 e), tt), (tt, tt))

accounts-IsValid : IsValid plain_libraries plain_env accounts
accounts-IsValid = record { hashes = (tt, tt); ids = (tt, tt) }

abbrev bob_tokens : Tokens
bob_tokens = record { access_token = "bobaccess"; refresh_token = "bobrefresh" }

bob_refreshes :
    refresh plain_libraries plain_env at_start "old" accounts
    ≡ (ok bob_tokens, (refresh plain_libraries plain_env at_start "old" accounts).1)
unfolding refresh live_session session_user rotate_session generate_tokens get_jwt_access_secret
    get_jwt_refresh_secret assert_strong_secret get_login_lock_remaining_ms record_login_failure
    clear_login_failures key
bob_refreshes = refl

refresh_rotates_example :
    IsValid plain_libraries plain_env (refresh plain_libraries plain_env at_start "old" accounts).1
    × (refresh plain_libraries plain_env at_end "old"
          (refresh plain_libraries plain_env at_start "old" accounts).1
        ≡ (
          err (unauthorized "Invalid or expired refresh token"),
          (refresh plain_libraries plain_env at_start "old" accounts).1,
        ))
refresh_rotates_example =
    refresh_rotates plain_libraries plain_env at_start at_end "old" accounts
      (refresh plain_libraries plain_env at_start "old" accounts).1 bob_tokens accounts-IsValid
      bob_refreshes (λ e. ground (arith, (eq_iff "bobrefresh" "old").1 e))
