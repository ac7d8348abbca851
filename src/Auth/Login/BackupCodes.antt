-- ===== src/Auth/Login/BackupCodes.antt =====
-- A backup code serves once.
use hamyar_ops.Base.{
  ℕ, zero, suc, ◌+◌, ◌≡◌, refl, ap, String, true, false, none, some, List, [], ◌∷◌, arith, eq_iff,
  str_eq, JsText, length,
}
use hamyar_ops.Base.Rows.{IsAbsent, IsDistinct, first-amend_found}
use hamyar_ops.Prisma.{Database, find_first}
use hamyar_ops.Http.{ok}
use hamyar_ops.Security.Secrets.{Env}
use hamyar_ops.Auth.State.{User, Libraries, Request, Auth}
use hamyar_ops.Auth.Login.{Tokens, SafeUser, index_of, splice_one, open_session, login}

length-splice_one :
    (c : String) (i : ℕ) (codes : List String)
    → index_of c codes ≡ some i
    → length (splice_one i codes) + 1 ≡ length codes
unfolding index_of splice_one
length-splice_one c i [] h = cc
length-splice_one c zero (d ∷ ds) h = omega arith
length-splice_one c (suc i) (d ∷ ds) h = ground (arith, length-splice_one c i ds)

index_of-IsAbsent :
    (c : String) (codes : List String) → IsAbsent (λ x. x) c codes → index_of c codes ≡ none
unfolding index_of
index_of-IsAbsent c [] a = refl
index_of-IsAbsent c (d ∷ ds) (n, a) = ground (arith, eq_iff d c, index_of-IsAbsent c ds a)

index_of-splice_one :
    (c : String) (i : ℕ) (codes : List String)
    → IsDistinct (λ x. x) codes
    → index_of c codes ≡ some i
    → index_of c (splice_one i codes) ≡ none
unfolding index_of splice_one
index_of-splice_one c i [] d h = refl
index_of-splice_one c zero (x ∷ xs) (a, d) h = ground (arith, eq_iff x c, index_of-IsAbsent c xs)
index_of-splice_one c (suc i) (x ∷ xs) (a, d) h = ground (arith, index_of-splice_one c i xs d)

module _ ⦃db : Database⦄ ⦃js : JsText⦄ (lib : Libraries) (env : Env) (req : Request) where
  open db use {rows, update_many}

  -- The row of a user after an update of that user.
  pub find-update :
      (id : String) (f : User → User) (user : User) (t : db.Table User)
      → ((u : User) → (f u).id ≡ u.id)
      → find_first (λ u. str_eq u.id id) t ≡ some user
      → find_first (λ u. str_eq u.id id) (update_many (λ u. str_eq u.id id) f t) ≡ some (f user)
  find-update id f user t same found = rw (db.rows-update_many (λ u. str_eq u.id id) f t) (
      first-amend_found (λ u. str_eq u.id id) f (rows t) user (λ u. ap (λ k. str_eq k id) (same u))
        found)

  open_session-users :
      (username : String) (user : User) (s s' : Auth) (r : Tokens × SafeUser)
      → open_session lib env req username user s ≡ (ok r, s')
      → s'.users
        ≡ update_many
            (λ u. str_eq u.id user.id)
            (λ u. record u { last_login_at = some req.now })
            s.users
  unfolding open_session
  open_session-users username user s s' r h = ground arith

  login-users :
      (username password token : String) (user : User) (i : ℕ) (s s' : Auth) (r : Tokens × SafeUser)
      → login lib env req username password (some token) s ≡ (ok r, s')
      → find_first (λ u. str_eq u.username username) s.users ≡ some user
      → user.totp_enabled ≡ true
      → lib.totp_verify req.now user.totp_secret token ≡ false
      → index_of (lib.sha256_hex token) user.totp_backup_codes ≡ some i
      → s'.users
        ≡ update_many
            (λ u. str_eq u.id user.id)
            (λ u. record u { last_login_at = some req.now })
            (update_many
              (λ u. str_eq u.id user.id)
              (λ u. record u { totp_backup_codes = splice_one i user.totp_backup_codes })
              s.users)
  unfolding login
  login-users username password token user i s s' r h named on invalid at_i = ground arith

  -- A login that succeeds by the backup code at position `i` of the user's distinct codes leaves
  -- the user with one code less, and with no code of this hash: the code does not serve again.
  pub backup_code_used_once :
      (username password token : String) (user : User) (i : ℕ) (s s' : Auth) (r : Tokens × SafeUser)
      → login lib env req username password (some token) s ≡ (ok r, s')
      → find_first (λ u. str_eq u.username username) s.users ≡ some user
      → find_first (λ u. str_eq u.id user.id) s.users ≡ some user
      → user.totp_enabled ≡ true
      → lib.totp_verify req.now user.totp_secret token ≡ false
      → index_of (lib.sha256_hex token) user.totp_backup_codes ≡ some i
      → IsDistinct (λ c. c) user.totp_backup_codes
      → (after : User) × (find_first (λ u. str_eq u.id user.id) s'.users ≡ some after)
        × (length after.totp_backup_codes + 1 ≡ length user.totp_backup_codes)
        × (index_of (lib.sha256_hex token) after.totp_backup_codes ≡ none)
  backup_code_used_once username password token user i s s' r h named found on invalid at_i
        distinct =
      let codes = splice_one i user.totp_backup_codes in
      let used = record user { totp_backup_codes = codes } in
      (
        record user { totp_backup_codes = codes; last_login_at = some req.now },
        rw (login-users username password token user i s s' r h named on invalid at_i) (
            find-update user.id (λ u. record u { last_login_at = some req.now }) used _ (λ u. refl)
              (find-update user.id (λ u. record u { totp_backup_codes = codes }) user s.users
                (λ u. refl) found)),
        length-splice_one (lib.sha256_hex token) i user.totp_backup_codes at_i,
        index_of-splice_one (lib.sha256_hex token) i user.totp_backup_codes distinct at_i,
      )
