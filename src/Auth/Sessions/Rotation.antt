-- ===== src/Auth/Sessions/Rotation.antt =====
-- Sessions by their refresh tokens: rotation, expiry and logout.
use hamyar_ops.Base.{
  ◌+◌, ◌*◌, ◌≤◌, ◌≡◌, refl, ◌≢◌, String, ◌&&◌, not, Option, none, some, arith, str_eq, false,
  Option-cases, inl, inr, amend, any, JsText,
}
use hamyar_ops.Base.Rows.{
  first-keep-not, IsDistinct, IsAbsent, any-IsAbsent, IsDistinct-append, IsDistinct-amend_same,
}
use hamyar_ops.Base.Rows.Keys.{IsDistinct-amend, first-amend_old}
use hamyar_ops.Prisma.{Database, find_first}
use hamyar_ops.Http.{unauthorized, Result, ok, err}
use hamyar_ops.Security.Secrets.{Env}
use hamyar_ops.Auth.State.{User, Session, Libraries, Request, Auth}
use hamyar_ops.Auth.Login.{Tokens, SafeUser, login}
use hamyar_ops.Auth.Login.Soundness.{login_sound}
use hamyar_ops.Auth.Login.Failures.{login_error-sessions}
use hamyar_ops.Auth.Sessions.{refresh, logout}

module _ ⦃db : Database⦄ ⦃js : JsText⦄ (lib : Libraries) (env : Env) where
  open db use {rows}

  -- The sessions have distinct hashes and distinct ids.
  pub record IsValid (s : Auth) : Type 0 where
    pub hashes : IsDistinct (λ (t : Session). t.refresh_token_hash) (rows s.sessions)
    pub ids : IsDistinct (λ (t : Session). t.id) (rows s.sessions)

  -- A refresh token without a session is refused, and nothing changes.
  refresh_of_unknown :
      (req : Request) (token : String) (s : Auth)
      → find_first (λ t. str_eq t.refresh_token_hash (lib.sha256_hex token)) s.sessions ≡ none
      → refresh lib env req token s ≡ (err (unauthorized "Invalid or expired refresh token"), s)
  unfolding refresh
  refresh_of_unknown req token s h = ground arith

  find-logout :
      (req : Request) (token : String) (s : Auth)
      → find_first
          (λ t. str_eq t.refresh_token_hash (lib.sha256_hex token))
          (logout lib env req token s).1.sessions
        ≡ none
  unfolding logout
  find-logout req token s =
      rw (db.rows-delete_many _ s.sessions) (first-keep-not _ (rows s.sessions))

  -- After a logout the refresh token is refused, at whatever time and however often it had been
  -- used before, and the refusal changes nothing.
  pub refresh-logout :
      (req later : Request) (token : String) (s : Auth)
      → let s' = (logout lib env req token s).1 in
        refresh lib env later token s' ≡ (err (unauthorized "Invalid or expired refresh token"), s')
  refresh-logout req later token s =
      refresh_of_unknown later token (logout lib env req token s).1 (find-logout req token s)

  -- What a refresh has checked and done: the token's session is found and not expired, its user
  -- exists, and the session's row has the hash of the new refresh token and a new expiry.
  pub record IsRotated (req : Request) (token : String) (s s' : Auth) (tokens : Tokens)
      : Type 0 where
    pub session : Session
    pub user : User
    pub found :
        find_first (λ t. str_eq t.refresh_token_hash (lib.sha256_hex token)) s.sessions
        ≡ some session
    pub live : req.now ≤ session.expires_at
    pub owner : find_first (λ u. str_eq u.id session.user_id) s.users ≡ some user
    pub free :
        any
          (λ t.
            str_eq t.refresh_token_hash (lib.sha256_hex tokens.refresh_token)
            && not (str_eq t.id session.id))
          (rows s.sessions)
        ≡ false
    pub rotated :
        rows s'.sessions
        ≡ amend
            (λ t. str_eq t.id session.id)
            (λ t. record t {
              refresh_token_hash = lib.sha256_hex tokens.refresh_token;
              expires_at = req.now + env.refresh_ttl_s * 1000;
            })
            (rows s.sessions)
    pub rest : (s'.users ≡ s.users) × (s'.attempts ≡ s.attempts)

  refresh_sound :
      (req : Request) (token : String) (s s' : Auth) (tokens : Tokens)
      → refresh lib env req token s ≡ (ok tokens, s')
      → IsRotated req token s s' tokens
  unfolding refresh
  refresh_sound req token s s' tokens h =
      elim (Option-cases
        (find_first (λ t. str_eq t.refresh_token_hash (lib.sha256_hex token)) s.sessions)) [
          | inl e ↦ absurd (ground arith)
          | inr (session, found) ↦
              elim (Option-cases (find_first (λ u. str_eq u.id session.user_id) s.users)) [
                | inl e ↦ absurd (ground arith)
                | inr (user, owner) ↦ record {
                  session = session;
                  user = user;
                  found = found;
                  live = ground arith;
                  owner = owner;
                  free = ground arith;
                  rotated = ground (
                    arith,
                    db.rows-update_many (λ t. str_eq t.id session.id)
                        (λ t. record t {
                          refresh_token_hash = lib.sha256_hex tokens.refresh_token;
                          expires_at = req.now + env.refresh_ttl_s * 1000;
                        })
                        s.sessions,
                  );
                  rest = ground arith;
                }
              ]
        ]

  -- A refresh that succeeds, in a valid state, leaves the state valid, and the token that was used
  -- is refused from then on, at whatever time, if the new token has another hash.
  pub refresh_rotates :
      (req later : Request) (token : String) (s s' : Auth) (tokens : Tokens)
      → IsValid s
      → refresh lib env req token s ≡ (ok tokens, s')
      → lib.sha256_hex tokens.refresh_token ≢ lib.sha256_hex token
      → IsValid s'
        × (refresh lib env later token s'
            ≡ (err (unauthorized "Invalid or expired refresh token"), s'))
  refresh_rotates req later token s s' tokens v h other =
      let r = refresh_sound req token s s' tokens h in
      let hash = lib.sha256_hex tokens.refresh_token in
      let change = λ (t : Session). record t {
        refresh_token_hash = hash;
        expires_at = req.now + env.refresh_ttl_s * 1000;
      } in
      (
        record {
          hashes = rw r.rotated (
              IsDistinct-amend (λ t. t.refresh_token_hash) (λ t. t.id) change hash r.session.id
                (λ t. refl) (rows s.sessions) v.hashes v.ids r.free);
          ids =
              rw r.rotated
                (IsDistinct-amend_same (λ t. t.id) _ change (rows s.sessions) (λ t. refl) v.ids);
        },
        refresh_of_unknown later token s' (
            rw r.rotated (
              first-amend_old (λ t. t.refresh_token_hash) (λ t. t.id) change hash r.session.id
                (λ t. refl) (lib.sha256_hex token) (rows s.sessions) r.session r.found refl v.hashes
                other)),
      )

  -- A login, successful or refused, keeps the sessions valid, if the id of the row that it creates
  -- is new.
  pub login-IsValid :
      (req : Request) (username password : String) (token : Option String) (s s' : Auth)
      (r : Result (Tokens × SafeUser))
      → IsValid s
      → IsAbsent (λ (t : Session). t.id) req.new_id (rows s.sessions)
      → login lib env req username password token s ≡ (r, s')
      → IsValid s'
  login-IsValid req username password token s s' (err e) v new h =
      let same = login_error-sessions lib env req username password token s s' e h in
      record { hashes = rw same v.hashes; ids = rw same v.ids }
  login-IsValid req username password token s s' (ok (tokens, safe)) v new h =
      let o = (login_sound lib env req username password token s s' tokens safe h).has_opened in
      record {
        hashes = rw o.opened (
            IsDistinct-append (λ t. t.refresh_token_hash) _ (rows s.sessions) v.hashes
              (any-IsAbsent (λ t. t.refresh_token_hash) _ (rows s.sessions) o.was_free));
        ids = rw o.opened (IsDistinct-append (λ t. t.id) _ (rows s.sessions) v.ids new);
      }
