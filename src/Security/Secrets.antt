-- ===== src/Security/Secrets.antt =====
-- apps/ops-api/src/common/security/secrets.ts: the environment is the argument `env`.
use hamyar_ops.Base.{
  ℕ, ◌≤◌, ◌≡◌, ◌≢◌, String, Bool, true, ◌&&◌, ◌||◌, Option, none, some, arith, eq_iff, ltb,
  if◌then◌else◌, str_eq, is_text, JsText, ◌<>◌, ◌↔◌, List, keep, map, not, codes,
}
use hamyar_ops.Base.Chars.{Text, is_empty, trim, split}
use hamyar_ops.Http.{error, Result, ok, err}

-- The variables of `process.env` that the modelled code reads. `refresh_ttl_s` is the number that
-- `parseInt(process.env.JWT_REFRESH_TTL || '604800')` gives.
pub record Env : Type 0 where
  pub node_env : Option String
  pub jwt_access_secret : Option String
  pub jwt_refresh_secret : Option String
  pub refresh_ttl_s : ℕ

abbrev pub weak_access : String
weak_access = "dev-access-secret"

abbrev pub weak_refresh : String
weak_refresh = "dev-refresh-secret"

abbrev pub min_secret_len : ℕ
min_secret_len = 32

abbrev pub is_production : Env → Bool
is_production env = is_text env.node_env "production"

abbrev list_of : Text → List Text
list_of value = keep (λ o. not (is_empty o)) (map trim (split b',' value))

-- The value of CORS_ORIGINS, as a list of UTF-16 code units; an empty one counts as unset.
unfoldable pub get_cors_origins : Option Text → List Text
get_cors_origins none = list_of (codes "http://localhost:3004")
get_cors_origins (some value) =
    if is_empty value then list_of (codes "http://localhost:3004") else list_of value

module _ ⦃js : JsText⦄ where
  -- `value?.trim()`, with "" for undefined: the code tests both by `!secret`.
  abbrev trimmed : Option String → String
  trimmed none = ""
  trimmed (some value) = js.trim value

  -- The length that the second message gives at its end is left out.
  unfoldable pub assert_strong_secret : Env → String → Option String → String → Result String
  assert_strong_secret env name value weak_fallback =
      let secret = trimmed value in
      if str_eq secret "" || str_eq secret weak_fallback
      then if is_production env
        then err (
            error (
              name
              <> " must be set to a strong unique value in production (min 32 chars). Generate with: openssl rand -hex 32"))
        else ok weak_fallback
      else if is_production env && ltb (js.length secret) min_secret_len
      then err (error (name <> " must be at least 32 characters in production"))
      else ok secret

  unfoldable pub get_jwt_access_secret : Env → Result String
  unfolding assert_strong_secret
  get_jwt_access_secret env =
      assert_strong_secret env "JWT_ACCESS_SECRET" env.jwt_access_secret weak_access

  unfoldable pub get_jwt_refresh_secret : Env → Result String
  unfolding assert_strong_secret
  get_jwt_refresh_secret env =
      assert_strong_secret env "JWT_REFRESH_SECRET" env.jwt_refresh_secret weak_refresh

  -- In production a secret is returned exactly if the variable, trimmed, is that secret, is not the
  -- weak default nor empty, and has at least 32 code units.
  pub assert_strong_secret_production :
      (env : Env) (name : String) (value : Option String) (weak_fallback secret : String)
      → is_production env ≡ true
      → (assert_strong_secret env name value weak_fallback ≡ ok secret) ↔ (
          (trimmed value ≡ secret)
          × (secret ≢ "")
          × (secret ≢ weak_fallback)
          × (min_secret_len ≤ js.length secret))
  unfolding assert_strong_secret
  assert_strong_secret_production env name value weak_fallback secret production = (
    λ h. ground (arith, eq_iff (trimmed value) "", eq_iff (trimmed value) weak_fallback),
    λ h. ground (arith, eq_iff (trimmed value) "", eq_iff (trimmed value) weak_fallback),
  )
