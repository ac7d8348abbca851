-- ===== src/EnvEditor/Paths.antt =====
-- Which file the service reads and writes for an application.
use hamyar_ops.Base.{
  String, ◌≡◌, ◌≢◌, refl, sym, ap, subst, ◌∙◌, true, Bool-cases, inl, inr, List, arith, any, All,
  map,
}
use hamyar_ops.Base.Chars.{Text, starts_with, text_eq}
use hamyar_ops.Base.Chars.Lines.{text_eq_self, text_eq-to}
use hamyar_ops.Http.{Result, ok, err}
use hamyar_ops.EnvEditor.{
  EnvVar, AppConfig, Files, validate_path, validated, config_of, find_app, located, get_env_vars,
  update_env_vars,
}
use hamyar_ops.EnvEditor.Written.{IsWritable, read_back, parse_env-serialize_env}

-- The path's text starts with the text of an allowed root.
abbrev pub IsUnder : List Text → Text → Type 0
IsUnder roots p = any (λ root. starts_with root p) roots ≡ true

module _ (resolve : Text → Text) (roots : List Text) (apps : List AppConfig) where
  same_path : (q p : Text) → ok (resolve q) ≡ ok p → resolve q ≡ p
  same_path q p e = ground (arith, e)

  validated-IsUnder :
      (r : Result Text) (p : Text) → validated resolve roots apps r ≡ ok p → IsUnder roots p
  unfolding validated validate_path
  validated-IsUnder (err x) p e = ground (arith, e)
  validated-IsUnder (ok q) p e =
      elim (Bool-cases (any (λ root. starts_with root (resolve q)) roots)) [
        | inl h ↦ subst (IsUnder roots) (same_path q p (ground (arith, e, h))) h
        | inr h ↦ ground (arith, e, h)
      ]

  located-IsUnder :
      (name : String) (p : Text) → located resolve roots apps name ≡ ok p → IsUnder roots p
  unfolding located
  located-IsUnder name p e =
      validated-IsUnder (config_of resolve roots apps (find_app resolve roots apps name apps)) p e

  -- When an application's file is found in an allowed place and its variables are saved, reading
  -- them back gives the saved variables in their order, a quoted value with a backslash before each
  -- of its double quotes; this is under the condition that each of them fits on a line.
  pub get_env_vars-update_env_vars :
      (name : String) (vs : List EnvVar) (p : Text) (s : Files)
      → located resolve roots apps name ≡ ok p
      → All IsWritable vs
      → (get_env_vars resolve roots apps name (update_env_vars resolve roots apps name vs s).1).0
        ≡ ok (map read_back vs)
  unfolding get_env_vars update_env_vars
  get_env_vars-update_env_vars name vs p s e ws =
      rw (e, text_eq_self p, parse_env-serialize_env vs ws)

  -- Saving the variables of an application, whether it succeeds or fails, changes no file but one
  -- whose path's text starts with the text of an allowed root.
  pub update_env_vars-IsUnder :
      (name : String) (vs : List EnvVar) (p : Text) (s : Files)
      → (update_env_vars resolve roots apps name vs s).1 p ≢ s p
      → IsUnder roots p
  unfolding update_env_vars
  update_env_vars-IsUnder name vs p s e = choose (located resolve roots apps name) refl
    where
      choose : (r : Result Text) → located resolve roots apps name ≡ r → IsUnder roots p
      choose (err x) h = absurd (e (rw (h)))
      choose (ok q) h = elim (Bool-cases (text_eq p q)) [
        | inl same ↦ located-IsUnder name p (h ∙ ap ok (sym (text_eq-to p q same)))
        | inr other ↦ absurd (e (rw (h, other)))
      ]
