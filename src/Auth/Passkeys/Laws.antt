-- ===== src/Auth/Passkeys/Laws.antt =====
-- What a passkey login and a passkey registration establish.
use hamyar_ops.Base.{
  ℕ, ◌≡◌, refl, ◌≢◌, String, false, Option, none, some, arith, str_eq, amend, any, JsText, eq_iff,
  Option-cases, inl, inr, ◌⊎◌, [], ◌∷◌, ◌++◌, Bool-cases,
}
use hamyar_ops.Base.Rows.{IsDistinct, any-IsAbsent, IsDistinct-append}
use hamyar_ops.Prisma.{Database, find_first}
use hamyar_ops.Http.{Result, ok}
use hamyar_ops.Security.Secrets.{Env}
use hamyar_ops.Auth.State.{User, Passkey, Libraries, Request, Auth}
use hamyar_ops.Auth.Login.{Tokens, SafeUser, safe_user, new_session}
use hamyar_ops.Auth.Passkeys.{
  Credential, Registration, Verdict, throws, rejected, verified, verify_passkey_register,
  verify_passkey_login, new_passkey, admit, check_assertion, find_passkey,
}

Verdict-cases :
    {A : Type 0} (v : Verdict A) → (v ≡ throws) ⊎ (v ≡ rejected) ⊎ ((a : A) × (v ≡ verified a))
Verdict-cases throws = inl refl
Verdict-cases rejected = inr (inl refl)
Verdict-cases (verified a) = inr (inr (a, refl))

module _ ⦃db : Database⦄ ⦃js : JsText⦄ (lib : Libraries) (env : Env) (req : Request) where
  open db use {rows}

  -- The login of a passkey's owner by an assertion of a challenge, with what it stores.
  pub record IsAsserted (credential_id challenge : String) (verify : String → Passkey → Verdict ℕ)
      (s s' : Auth) (tokens : Tokens) (safe : SafeUser) : Type 0 where
    pub given : challenge ≢ ""
    pub passkey : Passkey
    pub user : User
    pub counter : ℕ
    pub registered :
        find_first (λ k. str_eq k.credential_id credential_id) s.passkeys ≡ some passkey
    pub owner : find_first (λ u. str_eq u.id passkey.user_id) s.users ≡ some user
    pub asserted : verify challenge passkey ≡ verified counter
    pub stored :
        rows s'.passkeys
        ≡ amend
            (λ k. str_eq k.id passkey.id)
            (λ k. record k { counter = counter })
            (rows s.passkeys)
    pub returned : safe ≡ safe_user user
    pub opened :
        rows s'.sessions
        ≡ rows s.sessions
          ++ new_session lib env req user.id (lib.sha256_hex tokens.refresh_token) ∷ []

  admit_lem :
      (passkey : Passkey) (user : User) (counter : ℕ) (s s' : Auth) (tokens : Tokens)
      (safe : SafeUser)
      → admit lib env req passkey user counter s ≡ (ok (tokens, safe), s')
      → (rows s'.passkeys
          ≡ amend
              (λ k. str_eq k.id passkey.id)
              (λ k. record k { counter = counter })
              (rows s.passkeys))
        × (safe ≡ safe_user user)
        × (rows s'.sessions
            ≡ rows s.sessions
              ++ new_session lib env req user.id (lib.sha256_hex tokens.refresh_token) ∷ [])
  unfolding admit
  admit_lem passkey user counter s s' tokens safe h = ground (
    arith,
    db.rows-update_many (λ j. str_eq j.id passkey.id) (λ j. record j { counter = counter })
        s.passkeys,
    db.rows-create (new_session lib env req user.id (lib.sha256_hex tokens.refresh_token))
        s.sessions,
  )

  -- A passkey login that succeeds had a challenge that is not empty, and is by a registered passkey
  -- of an existing user whose assertion of that challenge was verified. It returns that user, stores
  -- the new counter, and adds one session of that user with the hash of the returned refresh token.
  pub verify_passkey_login_sound :
      (credential_id : String) (challenge : Option String) (verify : String → Passkey → Verdict ℕ)
      (s s' : Auth) (tokens : Tokens) (safe : SafeUser)
      → verify_passkey_login lib env req credential_id challenge verify s ≡ (ok (tokens, safe), s')
      → (c : String) × (challenge ≡ some c) × IsAsserted credential_id c verify s s' tokens safe
  unfolding verify_passkey_login check_assertion find_passkey
  verify_passkey_login_sound credential_id none verify s s' tokens safe h = absurd (ground arith)
  verify_passkey_login_sound credential_id (some challenge) verify s s' tokens safe h = (
    challenge,
    refl,
    elim (Option-cases (find_first (λ k. str_eq k.credential_id credential_id) s.passkeys)) [
      | inl e ↦ absurd (ground arith)
      | inr (k, registered) ↦
          elim (Option-cases (find_first (λ u. str_eq u.id k.user_id) s.users)) [
            | inl e ↦ absurd (ground arith)
            | inr (u, owner) ↦ elim (Verdict-cases (verify challenge k)) [
              | inl e ↦ absurd (ground arith)
              | inr (inl e) ↦ absurd (ground arith)
              | inr (inr (n, e)) ↦
                  let (stored, returned, opened) =
                    admit_lem k u n s s' tokens safe (ground arith) in
                  record {
                    given = ground (arith, eq_iff challenge "");
                    passkey = k;
                    user = u;
                    counter = n;
                    registered = registered;
                    owner = owner;
                    asserted = e;
                    stored = stored;
                    returned = returned;
                    opened = opened;
                  }
            ]
          ]
    ],
  )

  register_cases :
      (user_id : String) (body : Registration) (challenge : Option String)
      (verify : String → Verdict Credential) (s s' : Auth) (r : Result (Unit {0}))
      → verify_passkey_register lib env req user_id body challenge verify s ≡ (r, s')
      → (rows s'.passkeys ≡ rows s.passkeys)
        ⊎ ((c : Credential) × (any (λ k. str_eq k.credential_id c.id) (rows s.passkeys) ≡ false)
            × (rows s'.passkeys ≡ rows s.passkeys ++ new_passkey lib env req user_id body c ∷ []))
  unfolding verify_passkey_register
  register_cases user_id body none verify s s' r h = inl (ground arith)
  register_cases user_id body (some challenge) verify s s' r h =
      elim (Verdict-cases (verify challenge)) [
        | inl e ↦ inl (ground arith)
        | inr (inl e) ↦ inl (ground arith)
        | inr (inr (c, e)) ↦
            elim (Bool-cases (any (λ k. str_eq k.credential_id c.id) (rows s.passkeys))) [
              | inl taken ↦ inl (ground arith)
              | inr free ↦ elim (Bool-cases (str_eq challenge "")) [
                | inl empty ↦ inl (ground arith)
                | inr given ↦ inr (
                  c,
                  free,
                  ground
                      (arith, db.rows-create (new_passkey lib env req user_id body c) s.passkeys),
                )
              ]
            ]
      ]

  -- Registering a passkey, successful or refused, keeps the credential ids distinct.
  pub register-IsDistinct :
      (user_id : String) (body : Registration) (challenge : Option String)
      (verify : String → Verdict Credential) (s s' : Auth) (r : Result (Unit {0}))
      → IsDistinct (λ (k : Passkey). k.credential_id) (rows s.passkeys)
      → verify_passkey_register lib env req user_id body challenge verify s ≡ (r, s')
      → IsDistinct (λ (k : Passkey). k.credential_id) (rows s'.passkeys)
  register-IsDistinct user_id body challenge verify s s' r d h =
      elim (register_cases user_id body challenge verify s s' r h) [
        | inl same ↦ rw same d
        | inr (c, free, grown) ↦ rw grown (
            IsDistinct-append (λ k. k.credential_id) (new_passkey lib env req user_id body c)
              (rows s.passkeys) d (any-IsAbsent (λ k. k.credential_id) c.id (rows s.passkeys) free))
      ]
