-- ===== src/Auth/Passkeys.antt =====
-- `verifyPasskeyRegister` and `verifyPasskeyLogin` of auth.service.ts. The verdicts of
-- @simplewebauthn/server are arguments.
pub mod Laws
use hamyar_ops.Base.{
  ℕ, String, List, [], or_else, Bool, ◌&&◌, Option, none, some, if◌then◌else◌, str_eq, truthy, not,
  any, JsText,
}
use hamyar_ops.Prisma.{Database, find_first}
use hamyar_ops.Http.{
  Exception, bad_request, unauthorized, conflict, Result, ok, err, Handler, pure, throw, modify,
  ◌>>=◌, ◌>>◌,
}
use hamyar_ops.Security.Secrets.{Env}
use hamyar_ops.Auth.State.{User, Passkey, Libraries, Request, Auth}
use hamyar_ops.Auth.Login.{
  Tokens, SafeUser, safe_user, generate_tokens, create_session, update_user,
}

-- The credential of a verified registration.
pub record Credential : Type 0 where
  pub id : String
  pub public_key : String
  pub counter : ℕ
  pub transports : Option (List String)

-- The request's body, as far as it is stored: the name, and the transports of the response.
pub record Registration : Type 0 where
  pub name : Option String
  pub transports : Option (List String)

-- `name || 'Passkey'`
abbrev name_or_default : Option String → String
name_or_default none = "Passkey"
name_or_default (some name) = if str_eq name "" then "Passkey" else name

-- What a verification gives: it throws, it is not verified, or it is.
pub data Verdict (A : Type 0) : Type 0 where
  throws : Verdict A
  rejected : Verdict A
  verified : A → Verdict A

module _ ⦃db : Database⦄ ⦃js : JsText⦄ (lib : Libraries) (env : Env) (req : Request) where
  open db use {rows, create, update_many}

  abbrev pub new_passkey : String → Registration → Credential → Passkey
  new_passkey user_id body c = record {
    id = req.new_id;
    user_id = user_id;
    name = name_or_default body.name;
    credential_id = c.id;
    public_key = c.public_key;
    counter = c.counter;
    transports = or_else c.transports (or_else body.transports []);
  }

  unfoldable pub store_passkey : String → Registration → Credential → Handler Auth (Unit {0})
  store_passkey user_id body c s =
      if any (λ k. str_eq k.credential_id c.id) (rows s.passkeys)
      then (err (conflict "Passkey already registered"), s)
      else (ok tt, record s { passkeys = create (new_passkey user_id body c) s.passkeys })

  unfoldable pub verify_passkey_register :
      String
      → Registration
      → Option String
      → (String → Verdict Credential)
      → Handler Auth (Unit {0})
  unfolding store_passkey
  verify_passkey_register user_id body none verify =
      throw (bad_request "Challenge not found in session")
  verify_passkey_register user_id body (some challenge) verify =
      if str_eq challenge ""
      then throw (bad_request "Challenge not found in session")
      else elim (verify challenge) [
        | throws ↦ throw (bad_request "Passkey verification failed")
        | rejected ↦ throw (bad_request "Passkey registration not verified")
        | verified c ↦ store_passkey user_id body c
      ]

  -- What a verified passkey opens: the counter is stored, and a session is opened for its user.
  unfoldable pub admit : Passkey → User → ℕ → Handler Auth (Tokens × SafeUser)
  unfolding generate_tokens create_session safe_user
  admit passkey user new_counter = do
    modify λ s. record s {
      passkeys =
          update_many (λ k. str_eq k.id passkey.id) (λ k. record k { counter = new_counter })
            s.passkeys;
    }
    tokens ← generate_tokens lib env req user
    create_session lib env req user.id (lib.sha256_hex tokens.refresh_token)
    update_user lib env req user.id λ u. record u { last_login_at = some req.now }
    pure (tokens, safe_user user)

  unfoldable pub check_assertion : Passkey → User → Verdict ℕ → Handler Auth (Tokens × SafeUser)
  unfolding admit
  check_assertion passkey user throws = throw (unauthorized "Passkey verification failed")
  check_assertion passkey user rejected = throw (unauthorized "Passkey authentication not verified")
  check_assertion passkey user (verified new_counter) = admit passkey user new_counter

  -- `findUnique({ include: { user: true } })`: the foreign key gives every passkey its user.
  unfoldable pub find_passkey : String → Auth → Option (Passkey × User)
  find_passkey credential_id s =
      elim (find_first (λ k. str_eq k.credential_id credential_id) s.passkeys) [
        | none ↦ none
        | some k ↦ elim (find_first (λ u. str_eq u.id k.user_id) s.users) [
          | none ↦ none
          | some u ↦ some (k, u)
        ]
      ]

  unfoldable pub verify_passkey_login :
      String → Option String → (String → Passkey → Verdict ℕ) → Handler Auth (Tokens × SafeUser)
  unfolding check_assertion find_passkey
  verify_passkey_login credential_id none verify s =
      throw (bad_request "Challenge not found in session") s
  verify_passkey_login credential_id (some challenge) verify s =
      if str_eq challenge ""
      then throw (bad_request "Challenge not found in session") s
      else elim (find_passkey credential_id s) [
        | none ↦ throw (unauthorized "Passkey not registered") s
        | some (passkey, user) ↦ check_assertion passkey user (verify challenge passkey) s
      ]
