-- ===== src/Tests/Users.antt =====
-- Examples of the second factor, of the users' administration, and of passkeys.
use hamyar_ops.Base.{
  ℕ, ◌≡◌, refl, String, false, none, some, [], ◌∷◌, arith, eq_iff, str_eq, any, ◌⊎◌,
}
use hamyar_ops.Prisma.{find_first}
use hamyar_ops.Http.{ok, err, not_found, conflict}
use hamyar_ops.Security.Secrets.{
  assert_strong_secret, get_jwt_access_secret, get_jwt_refresh_secret,
}
use hamyar_ops.Security.LoginThrottle.{
  key, get_login_lock_remaining_ms, record_login_failure, clear_login_failures,
}
use hamyar_ops.Auth.State.{viewer, Passkey, Auth}
use hamyar_ops.Auth.Login.{Tokens, safe_user, generate_tokens, create_session, open_session, login}
use hamyar_ops.Auth.Totp.{require_user, setup_totp}
use hamyar_ops.Auth.Totp.Enrolment.{login-setup_totp}
use hamyar_ops.Auth.Users.{CreateUser, UpdateUser, update, change_password, reset_password}
use hamyar_ops.Auth.Users.Unique.{IsValid, update-IsValid}
use hamyar_ops.Auth.Users.Taken.{is_taken}
use hamyar_ops.Auth.Passkeys.{
  Verdict, verified, admit, check_assertion, find_passkey, verify_passkey_login,
}
use hamyar_ops.Auth.Passkeys.Laws.{IsAsserted, verify_passkey_login_sound}
use hamyar_ops.Tests.Values.{list_database, plain_text}
use hamyar_ops.Tests.Accounts.{plain_libraries, plain_env, at_start, at_end, alice, bob, accounts}

abbrev enrolled : Auth
unfolding setup_totp
enrolled = (setup_totp plain_libraries plain_env at_start "u1" "seed-2" ("new-1" ∷ []) accounts).1

totp_set_up :
    setup_totp plain_libraries plain_env at_start "u1" "seed-2" ("new-1" ∷ []) accounts
    ≡ (ok ("seed-2", "new-1" ∷ []), enrolled)
unfolding setup_totp require_user enrolled
totp_set_up = refl

same_user :
    find_first (λ u. str_eq u.username "alice") enrolled.users
    ≡ find_first (λ u. str_eq u.id "u1") enrolled.users
unfolding setup_totp require_user enrolled
same_user = refl

open_after_setup : get_login_lock_remaining_ms 20000 "alice" none enrolled.attempts ≡ 0
unfolding setup_totp require_user get_login_lock_remaining_ms enrolled
open_after_setup = refl

login-setup_totp_example :
    login plain_libraries plain_env at_end "alice" "wonder" none enrolled
    ≡ open_session plain_libraries plain_env at_end "alice"
        (record alice {
          totp_secret = some "seed-2";
          totp_enabled = false;
          totp_backup_codes = "new-1" ∷ [];
        })
        enrolled
login-setup_totp_example =
    login-setup_totp plain_libraries plain_env at_start at_end "wonder" "seed-2" ("new-1" ∷ [])
      alice accounts enrolled ("seed-2", "new-1" ∷ []) refl totp_set_up same_user refl
      open_after_setup

accounts_distinct : IsValid accounts
accounts_distinct = record {
  usernames = (((λ e. ground (arith, (eq_iff "bob" "alice").1 e)), tt), (tt, tt));
  emails =
      (((λ e. ground (arith, (eq_iff "bob@example.org" "alice@example.org").1 e)), tt), (tt, tt));
  ids = (((λ e. ground (arith, (eq_iff "u2" "u1").1 e)), tt), (tt, tt));
}

abbrev carol : CreateUser
carol = record {
  username = "carol";
  email = "carol@example.org";
  password = "secret-8";
  role = viewer;
}

-- Bob asks for the address of Alice.
abbrev readdressed : UpdateUser
readdressed = record { username = some "robert"; email = some "alice@example.org"; role = none }

update-IsValid_example :
    IsValid (update plain_libraries plain_env at_start "u2" readdressed accounts).1
    × ((any (is_taken "u2" readdressed) accounts.users ≡ false)
        ⊎ ((update plain_libraries plain_env at_start "u2" readdressed accounts).0
            ≡ err (not_found "User not found"))
        ⊎ ((update plain_libraries plain_env at_start "u2" readdressed accounts).0
            ≡ err (conflict "Username or email already in use")))
update-IsValid_example =
    update-IsValid plain_libraries plain_env at_start "u2" readdressed accounts
      (update plain_libraries plain_env at_start "u2" readdressed accounts).1
      (update plain_libraries plain_env at_start "u2" readdressed accounts).0 accounts_distinct refl

abbrev after_change : Auth
unfolding change_password
after_change =
    (change_password plain_libraries plain_env at_start "u2" "builder" "builder-2" accounts).1

bob_changed :
    change_password plain_libraries plain_env at_start "u2" "builder" "builder-2" accounts
    ≡ (ok tt, after_change)
unfolding change_password require_user after_change
bob_changed = refl

abbrev after_reset : Auth
unfolding reset_password
after_reset = (reset_password plain_libraries plain_env at_start "u2" "builder-3" accounts).1

bob_reset :
    reset_password plain_libraries plain_env at_start "u2" "builder-3" accounts
    ≡ (ok tt, after_reset)
unfolding reset_password require_user after_reset
bob_reset = refl

same_bob :
    find_first (λ u. str_eq u.username "bob") after_reset.users
    ≡ find_first (λ u. str_eq u.id "u2") after_reset.users
unfolding reset_password require_user after_reset
same_bob = refl

open_after_reset : get_login_lock_remaining_ms 20000 "bob" none after_reset.attempts ≡ 0
unfolding reset_password require_user get_login_lock_remaining_ms after_reset
open_after_reset = refl

abbrev challenge_text : String
challenge_text = "challenge"

abbrev accept : String → Passkey → Verdict ℕ
accept challenge k = verified 4

bob_asserts :
    verify_passkey_login plain_libraries plain_env at_start "c1" (some "challenge") accept accounts
    ≡ (
      ok (record { access_token = "bobaccess"; refresh_token = "bobrefresh" }, safe_user bob),
      (verify_passkey_login plain_libraries plain_env at_start "c1"
          (some "challenge")
          accept
          accounts).1,
    )
unfolding verify_passkey_login check_assertion find_passkey admit generate_tokens create_session
    safe_user get_jwt_access_secret get_jwt_refresh_secret assert_strong_secret
    get_login_lock_remaining_ms record_login_failure clear_login_failures key
bob_asserts = refl

abbrev bob_tokens : Tokens
bob_tokens = record { access_token = "bobaccess"; refresh_token = "bobrefresh" }

verify_passkey_login_sound_example :
    (c : String) × (some challenge_text ≡ some c)
    × IsAsserted plain_libraries plain_env at_start "c1" c accept accounts
        (verify_passkey_login plain_libraries plain_env at_start "c1"
          (some "challenge")
          accept
          accounts).1
        bob_tokens
        (safe_user bob)
verify_passkey_login_sound_example =
    verify_passkey_login_sound plain_libraries plain_env at_start "c1" (some "challenge") accept
      accounts
      (verify_passkey_login plain_libraries plain_env at_start "c1" (some "challenge") accept
        accounts).1
      bob_tokens (safe_user bob) bob_asserts
