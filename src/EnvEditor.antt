-- ===== src/EnvEditor.antt =====
-- apps/ops-api/src/modules/env-editor/env-editor.service.ts: the variables of an application in its
-- .env file. `path.resolve`, the file system and PM2 are parameters, and the applications are a
-- table; texts are lists of UTF-16 code units.
pub mod Written
pub mod Paths
use hamyar_ops.Base.{
  ℕ, String, Bool, true, false, ◌&&◌, ◌||◌, not, Option, none, some, List, [], ◌∷◌, ◌++◌,
  if◌then◌else◌, any, ◌==◌, codes, str_eq,
}
use hamyar_ops.Base.Chars.{
  Text, is_empty, text_eq, trim, trim_end, starts_with, ends_with, has, split, join, cut,
  drop_first, drop_last, replace_all,
}
use hamyar_ops.Http.{
  Exception, bad_request, not_found, Result, ok, err, Handler, pure, throw, ◌>>=◌, ◌>>◌,
}

-- `EnvVarDto`; an absent comment is the empty text, which the code treats alike.
pub record EnvVar : Type 0 where
  pub key : Text
  pub value : Text
  pub comment : Text

-- `value.slice(1, -1)` if the value stands between two double or two single quotes.
unfoldable pub unquote : Text → Text
unquote v =
    if (starts_with (b'"' ∷ []) v && ends_with (b'"' ∷ []) v)
      || (starts_with (b'\'' ∷ []) v && ends_with (b'\'' ∷ []) v)
    then drop_last (drop_first v)
    else v

-- `(pendingComment ? pendingComment + '\n' : '') + l`
unfoldable pub add_comment : Text → Text → Text
add_comment pending l = if is_empty pending then l else pending ++ (b'\n' ∷ l)

-- What a line that is no comment and not blank adds, if it has a `=`.
abbrev pub entry : Text → Option (Text × Text) → List EnvVar → List EnvVar
unfolding unquote
entry pending none later = later
entry pending (some (k, v)) later =
    record { key = trim k; value = unquote v; comment = pending } ∷ later

-- The loop over the lines, with the pending comment.
unfoldable pub parse_lines : Text → List Text → List EnvVar
unfolding add_comment entry
parse_lines pending [] = []
parse_lines pending (raw ∷ rest) =
    let line = trim_end raw in
    let is_comment = starts_with (b'#' ∷ []) line in
    let later =
      parse_lines (if is_comment then add_comment pending (trim (drop_first line)) else []) rest in
    if is_comment || is_empty (trim line) then later else entry pending (cut b'=' line) later

unfoldable pub parse_env : Text → List EnvVar
unfolding parse_lines
parse_env content = parse_lines [] (split b'\n' content)

abbrev pub needs_quotes : Text → Bool
needs_quotes v = has b' ' v || has b'#' v || has b'\n' v

unfoldable pub escape : Text → Text
escape v = replace_all b'"' (b'\\' ∷ b'"' ∷ []) v

unfoldable pub serialize_value : Text → Text
unfolding escape
serialize_value v = if needs_quotes v then b'"' ∷ (escape v ++ b'"' ∷ []) else v

-- The lines of the comment, each behind "# ", and a line end.
abbrev pub comment_lines : List Text → Text
comment_lines [] = []
comment_lines (l ∷ ls) = (b'#' ∷ b' ' ∷ l) ++ (b'\n' ∷ comment_lines ls)

unfoldable pub serialize_var : EnvVar → Text
unfolding serialize_value
serialize_var v =
    (if is_empty v.comment then [] else comment_lines (split b'\n' v.comment))
    ++ (v.key ++ (b'=' ∷ serialize_value v.value))

abbrev pub texts_of : List EnvVar → List Text
unfolding serialize_var
texts_of [] = []
texts_of (v ∷ vs) = serialize_var v ∷ texts_of vs

unfoldable pub serialize_env : List EnvVar → Text
unfolding texts_of
serialize_env vars = join b'\n' (texts_of vars) ++ b'\n' ∷ []

-- The row of an application, as far as the service reads it.
pub record AppConfig : Type 0 where
  pub pm2_name : String
  pub env_path : Option Text

-- The files of the server, by their resolved paths.
abbrev pub Files : Type 0
Files = Text → Option Text

module _ (resolve : Text → Text) (roots : List Text) (apps : List AppConfig) where
  -- `roots` are the resolved entries of FILE_BROWSER_ROOTS.
  unfoldable pub validate_path : Text → Result Text
  validate_path path =
      if any (λ root. starts_with root (resolve path)) roots
      then ok (resolve path)
      else err (bad_request "Access denied: path outside allowed directories")

  abbrev pub find_app : String → List AppConfig → Option AppConfig
  find_app name [] = none
  find_app name (a ∷ others) = if str_eq a.pm2_name name then some a else find_app name others

  -- `if (!cfg.envPath)`
  abbrev pub env_path_of : Option Text → Result Text
  env_path_of none = err (bad_request "No .env path configured for this app")
  env_path_of (some p) =
      if is_empty p then err (bad_request "No .env path configured for this app") else ok p

  abbrev pub config_of : Option AppConfig → Result Text
  config_of none = err (not_found "App not found")
  config_of (some a) = env_path_of a.env_path

  unfoldable pub validated : Result Text → Result Text
  unfolding validate_path
  validated (ok p) = validate_path p
  validated (err e) = err e

  -- What the three handlers begin with: the resolved path of the application's file.
  unfoldable pub located : String → Result Text
  unfolding validated
  located name = validated (config_of (find_app name apps))

  abbrev pub locate : String → Handler Files Text
  locate name s = (located name, s)

  abbrev vars_of : Option Text → List EnvVar
  unfolding parse_env
  vars_of none = []
  vars_of (some content) = parse_env content

  unfoldable pub get_env_vars : String → Handler Files (List EnvVar)
  unfolding vars_of
  get_env_vars name = do path ← locate name; λ s. (ok (vars_of (s path)), s)

  abbrev pub write_file : Text → Text → Files → Files
  write_file path content files p = if text_eq p path then some content else files p

  unfoldable pub update_env_raw : String → Text → Handler Files (Unit {0})
  update_env_raw name content = do path ← locate name; λ s. (ok tt, write_file path content s)

  unfoldable pub update_env_vars : String → List EnvVar → Handler Files (Unit {0})
  unfolding serialize_env
  update_env_vars name vars = do
    path ← locate name
    λ s. (ok tt, write_file path (serialize_env vars) s)

  -- PM2 is restarted only after the file is written.
  unfoldable pub save_and_restart :
      (String → Result (Unit {0})) → String → List EnvVar → Handler Files (Unit {0})
  unfolding update_env_vars
  save_and_restart restart name vars = do update_env_vars name vars; λ s. (restart name, s)
