-- ===== src/Interceptors/Sanitizing.antt =====
-- apps/ops-api/src/common/interceptors/api-events.interceptor.ts: what is hidden of a body.
-- `toLowerCase` is a parameter.
use hamyar_ops.Base.{ℕ, suc, Bool, List, [], ◌∷◌, if◌then◌else◌, any, codes}
use hamyar_ops.Base.Chars.{Text, includes}
use hamyar_ops.Base.Chars.Numbers.{decimal}
use hamyar_ops.Json.{Json, null, bool, num, str, arr, obj, Elems, nil, cons, Props, end, prop}

unfoldable pub redacted : Json
redacted = str (codes "***REDACTED***")

unfoldable pub sensitive_keys : List Text
sensitive_keys =
    codes "password"
    ∷ codes "token"
    ∷ codes "secret"
    ∷ codes "key"
    ∷ codes "privateKey"
    ∷ codes "accessToken"
    ∷ []

unfoldable pub is_sensitive : (Text → Text) → Text → Bool
is_sensitive to_lower_case key = any (λ k. includes k (to_lower_case key)) sensitive_keys

-- `sanitizeBody`; the spread of an array has its indices for keys.
unfoldable mutual
  pub sanitize_body : (Text → Text) → Json → Json
  sanitize_body low null = null
  sanitize_body low (bool b) = bool b
  sanitize_body low (num n) = num n
  sanitize_body low (str s) = str s
  sanitize_body low (arr es) = obj (sanitize_elems low 0 es)
  sanitize_body low (obj ps) = obj (sanitize_props low ps)

  pub sanitize_elems : (Text → Text) → ℕ → Elems → Props
  sanitize_elems low i nil = end
  sanitize_elems low i (cons v vs) =
      prop (decimal i) (if is_sensitive low (decimal i) then redacted else sanitize_body low v)
        (sanitize_elems low (suc i) vs)

  pub sanitize_props : (Text → Text) → Props → Props
  sanitize_props low end = end
  sanitize_props low (prop k v ps) =
      prop k (if is_sensitive low k then redacted else sanitize_body low v) (sanitize_props low ps)
