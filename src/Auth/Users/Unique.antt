-- ===== src/Auth/Users/Unique.antt =====
-- Names, addresses and ids of users stay unique, and a deleted user is gone.
use hamyar_ops.Base.{
  ◌≡◌, ◌∙◌, ◌≢◌, refl, String, false, ◌&&◌, ◌||◌, not, none, some, [], ◌∷◌, ◌++◌, arith, str_eq,
  any, amend, keep, JsText, eq_iff, Option-cases, Bool-cases, inl, inr, ◌⊎◌, true,
}
use hamyar_ops.Base.Rows.{
  first-keep-not, IsDistinct, IsAbsent, any-IsAbsent, IsDistinct-append, IsDistinct-keep,
  IsDistinct-amend_same,
}
use hamyar_ops.Base.Rows.Keys.{IsDistinct-amend, amend_one}
use hamyar_ops.Prisma.{Database, find_first}
use hamyar_ops.Http.{Exception, Result, ok, err, not_found, conflict}
use hamyar_ops.Security.Secrets.{Env}
use hamyar_ops.Auth.Totp.{require_user}
use hamyar_ops.Auth.State.{User, Session, Passkey, Libraries, Request, Auth}
use hamyar_ops.Auth.Users.{CreateUser, UpdateUser, apply_dto, create_user, update, delete}
use hamyar_ops.Auth.Users.Taken.{is_taken, any-or-false, any_free, any_taken}

module _ ⦃db : Database⦄ where
  open db use {rows}

  pub record IsValid (s : Auth) : Type 0 where
    pub usernames : IsDistinct (λ (u : User). u.username) (rows s.users)
    pub emails : IsDistinct (λ (u : User). u.email) (rows s.users)
    pub ids : IsDistinct (λ (u : User). u.id) (rows s.users)

module _ ⦃db : Database⦄ ⦃js : JsText⦄ (lib : Libraries) (env : Env) (req : Request) where
  open db use {rows, create, update_many}

  create_user_lem :
      (dto : CreateUser) (s s' : Auth) (row : User)
      → create_user lib env req dto s ≡ (ok row, s')
      → (rows s'.users ≡ rows s.users ++ row ∷ [])
        × (any (λ u. str_eq u.username dto.username || str_eq u.email dto.email) (rows s.users)
            ≡ false)
        × (row.username ≡ dto.username)
        × (row.email ≡ dto.email)
        × (row.id ≡ req.new_id)
  unfolding create_user
  create_user_lem dto s s' row h = ground (arith, db.rows-create row s.users)

  create_user_err :
      (dto : CreateUser) (s s' : Auth) (e : Exception)
      → create_user lib env req dto s ≡ (err e, s')
      → s' ≡ s
  unfolding create_user
  create_user_err dto s s' e h = ground arith

  -- Creating a user, successful or refused, keeps the users' names, addresses and ids distinct, if
  -- the id of the row that it creates is new.
  pub create_user-IsValid :
      (dto : CreateUser) (s s' : Auth) (r : Result User)
      → IsValid s
      → IsAbsent (λ (u : User). u.id) req.new_id (rows s.users)
      → create_user lib env req dto s ≡ (r, s')
      → IsValid s'
  create_user-IsValid dto s s' (err e) v new h = rw (create_user_err dto s s' e h) v
  create_user-IsValid dto s s' (ok row) v new h =
      let (grown, free, name, email, id) = create_user_lem dto s s' row h in
      let (free_name, free_email) =
        any-or-false (λ u. str_eq u.username dto.username) (λ u. str_eq u.email dto.email)
          (rows s.users) free in
      record {
        usernames = rw grown (
            IsDistinct-append (λ u. u.username) row (rows s.users) v.usernames
              (rw name (any-IsAbsent (λ u. u.username) dto.username (rows s.users) free_name)));
        emails = rw grown (
            IsDistinct-append (λ u. u.email) row (rows s.users) v.emails
              (rw email (any-IsAbsent (λ u. u.email) dto.email (rows s.users) free_email)));
        ids = rw grown (IsDistinct-append (λ u. u.id) row (rows s.users) v.ids (rw id new));
      }

  update_found :
      (id : String) (dto : UpdateUser) (s s' : Auth)
      → update lib env req id dto s ≡ (ok tt, s')
      → (user : User) × (find_first (λ u. str_eq u.id id) s.users ≡ some user)
  unfolding update
  update_found id dto s s' h = elim (Option-cases (find_first (λ u. str_eq u.id id) s.users)) [
    | inl e ↦ absurd (ground arith)
    | inr found ↦ found
  ]

  update_lem :
      (id : String) (dto : UpdateUser) (s s' : Auth) (user : User)
      → update lib env req id dto s ≡ (ok tt, s')
      → find_first (λ u. str_eq u.id id) s.users ≡ some user
      → (rows s'.users ≡ amend (λ u. str_eq u.id id) (apply_dto dto) (rows s.users))
        × (any
              (λ u.
                not (str_eq u.id id)
                && (str_eq u.username (apply_dto dto user).username
                    || str_eq u.email (apply_dto dto user).email))
              (rows s.users)
            ≡ false)
  unfolding update
  update_lem id dto s s' user h found =
      ground (arith, db.rows-update_many (λ u. str_eq u.id id) (apply_dto dto) s.users)

  update_err :
      (id : String) (dto : UpdateUser) (s s' : Auth) (e : Exception)
      → update lib env req id dto s ≡ (err e, s')
      → s' ≡ s
  unfolding update
  update_err id dto s s' e h = ground arith

  update_keeps :
      (id : String) (dto : UpdateUser) (s s' : Auth) (r : Result (Unit {0}))
      → IsValid s
      → update lib env req id dto s ≡ (r, s')
      → IsValid s'
  update_keeps id dto s s' (err e) v h = rw (update_err id dto s s' e h) v
  update_keeps id dto s s' (ok tt) v h =
      let (user, found) = update_found id dto s s' h in
      let (changed, free) = update_lem id dto s s' user h found in
      let row = apply_dto dto user in
      let (free_name, free_email) =
        any_free (λ (u : User). str_eq u.id id) (λ (u : User). str_eq u.username row.username)
          (λ (u : User). str_eq u.email row.email) (rows s.users) free in
      let one =
        changed
        ∙ amend_one (λ (u : User). u.id) (apply_dto dto) (λ (u : User). row) id (rows s.users) user
            v.ids found refl in
      record {
        usernames = rw one (
            IsDistinct-amend (λ u. u.username) (λ u. u.id) (λ u. row) row.username id (λ u. refl)
              (rows s.users) v.usernames v.ids free_name);
        emails = rw one (
            IsDistinct-amend (λ u. u.email) (λ u. u.id) (λ u. row) row.email id (λ u. refl)
              (rows s.users) v.emails v.ids free_email);
        ids =
            rw changed (
              IsDistinct-amend_same (λ u. u.id) _ (apply_dto dto) (rows s.users) (λ u. refl) v.ids);
      }

  update_taken :
      (id : String) (dto : UpdateUser) (s s' : Auth) (r : Result (Unit {0})) (user : User)
      → find_first (λ u. str_eq u.id id) s.users ≡ some user
      → any (is_taken id dto) (rows s.users) ≡ true
      → update lib env req id dto s ≡ (r, s')
      → r ≡ err (conflict "Username or email already in use")
  unfolding update require_user
  update_taken id dto s s' r user found taken h =
      ground (arith, any_taken id dto.username dto.email (rows s.users))

  update_missing :
      (id : String) (dto : UpdateUser) (s s' : Auth) (r : Result (Unit {0}))
      → find_first (λ u. str_eq u.id id) s.users ≡ none
      → update lib env req id dto s ≡ (r, s')
      → r ≡ err (not_found "User not found")
  unfolding update require_user
  update_missing id dto s s' r missing h = ground arith

  -- Updating a user, successful or refused, keeps the users' names, addresses and ids distinct. If
  -- the request has a name or an address that is not empty and is another user's, it is refused as a
  -- conflict, or as not found.
  pub update-IsValid :
      (id : String) (dto : UpdateUser) (s s' : Auth) (r : Result (Unit {0}))
      → IsValid s
      → update lib env req id dto s ≡ (r, s')
      → IsValid s'
        × ((any (is_taken id dto) (rows s.users) ≡ false)
            ⊎ (r ≡ err (not_found "User not found"))
            ⊎ (r ≡ err (conflict "Username or email already in use")))
  update-IsValid id dto s s' r v h = (
    update_keeps id dto s s' r v h,
    elim (Bool-cases (any (is_taken id dto) (rows s.users))) [
      | inr free ↦ inl free
      | inl taken ↦ elim (Option-cases (find_first (λ u. str_eq u.id id) s.users)) [
        | inl missing ↦ inr (inl (update_missing id dto s s' r missing h))
        | inr (user, found) ↦ inr (inr (update_taken id dto s s' r user found taken h))
      ]
    ],
  )

  delete_err :
      (id by : String) (s s' : Auth) (e : Exception)
      → delete lib env req id by s ≡ (err e, s')
      → s' ≡ s
  unfolding delete
  delete_err id by s s' e h = ground arith

  delete_lem :
      (id by : String) (s s' : Auth)
      → delete lib env req id by s ≡ (ok tt, s')
      → (id ≢ by)
        × (rows s'.users ≡ keep (λ u. not (str_eq u.id id)) (rows s.users))
        × (rows s'.sessions ≡ keep (λ t. not (str_eq t.user_id id)) (rows s.sessions))
        × (rows s'.passkeys ≡ keep (λ k. not (str_eq k.user_id id)) (rows s.passkeys))
  unfolding delete
  delete_lem id by s s' h = ground (
    arith,
    eq_iff id by,
    db.rows-delete_many (λ u. str_eq u.id id) s.users,
    db.rows-delete_many (λ (t : Session). str_eq t.user_id id) s.sessions,
    db.rows-delete_many (λ (k : Passkey). str_eq k.user_id id) s.passkeys,
  )

  -- A deletion is never of the requesting user's own account. It removes the user, every session of
  -- that user and every passkey of that user, and keeps the remaining users distinct.
  pub delete_sound :
      (id by : String) (s s' : Auth)
      → IsValid s
      → delete lib env req id by s ≡ (ok tt, s')
      → (id ≢ by)
        × (find_first (λ u. str_eq u.id id) s'.users ≡ none)
        × (find_first (λ (t : Session). str_eq t.user_id id) s'.sessions ≡ none)
        × (find_first (λ (k : Passkey). str_eq k.user_id id) s'.passkeys ≡ none)
        × IsValid s'
  delete_sound id by s s' v h =
      let (other, users, sessions, passkeys) = delete_lem id by s s' h in
      (
        other,
        rw users (first-keep-not (λ u. str_eq u.id id) (rows s.users)),
        rw sessions (first-keep-not (λ t. str_eq t.user_id id) (rows s.sessions)),
        rw passkeys (first-keep-not (λ k. str_eq k.user_id id) (rows s.passkeys)),
        record {
          usernames = rw users (IsDistinct-keep (λ u. u.username) _ (rows s.users) v.usernames);
          emails = rw users (IsDistinct-keep (λ u. u.email) _ (rows s.users) v.emails);
          ids = rw users (IsDistinct-keep (λ u. u.id) _ (rows s.users) v.ids);
        },
      )
