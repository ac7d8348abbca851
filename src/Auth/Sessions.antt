-- ===== src/Auth/Sessions.antt =====
-- `refresh`, `logout` and `me` of auth.service.ts.
pub mod Rotation
use hamyar_ops.Base.{
  ℕ, ◌+◌, ◌*◌, String, Bool, ◌&&◌, not, Option, none, some, if◌then◌else◌, ltb, str_eq, any, JsText,
}
use hamyar_ops.Prisma.{Database, find_first}
use hamyar_ops.Http.{
  unauthorized, unique_violation, ok, err, Handler, pure, throw, modify, ◌>>=◌, ◌>>◌,
}
use hamyar_ops.Security.Secrets.{Env}
use hamyar_ops.Auth.State.{User, Session, Libraries, Request, Auth}
use hamyar_ops.Auth.Login.{Tokens, generate_tokens}

module _ ⦃db : Database⦄ ⦃js : JsText⦄ (lib : Libraries) (env : Env) (req : Request) where
  open db use {rows, update_many, delete_many}

  -- `!session || session.expiresAt < new Date()`
  unfoldable pub live_session : Option Session → Handler Auth Session
  live_session none = throw (unauthorized "Invalid or expired refresh token")
  live_session (some session) =
      if ltb session.expires_at req.now
      then throw (unauthorized "Invalid or expired refresh token")
      else pure session

  unfoldable pub session_user : Option User → Handler Auth User
  session_user none = throw (unauthorized "User not found")
  session_user (some user) = pure user

  -- `prisma.session.update`; the schema makes the hash unique.
  unfoldable pub rotate_session : Session → String → Handler Auth (Unit {0})
  rotate_session session hash s =
      if any (λ t. str_eq t.refresh_token_hash hash && not (str_eq t.id session.id))
        (rows s.sessions)
      then (err unique_violation, s)
      else (
        ok tt,
        record s {
          sessions =
              update_many (λ t. str_eq t.id session.id)
                (λ t. record t {
                  refresh_token_hash = hash;
                  expires_at = req.now + env.refresh_ttl_s * 1000;
                })
                s.sessions;
        },
      )

  unfoldable pub refresh : String → Handler Auth Tokens
  unfolding live_session session_user rotate_session generate_tokens
  refresh token = do
    let hash = lib.sha256_hex token
    found ← λ s. (ok (find_first (λ t. str_eq t.refresh_token_hash hash) s.sessions), s)
    session ← live_session found
    owner ← λ s. (ok (find_first (λ u. str_eq u.id session.user_id) s.users), s)
    user ← session_user owner
    tokens ← generate_tokens lib env req user
    rotate_session session (lib.sha256_hex tokens.refresh_token)
    pure tokens

  unfoldable pub logout : String → Handler Auth (Unit {0})
  logout token = modify λ s. record s {
    sessions = delete_many (λ t. str_eq t.refresh_token_hash (lib.sha256_hex token)) s.sessions;
  }
