-- ===== src/Tests/Environment.antt =====
-- Examples of the editor of .env files.
use hamyar_ops.Base.{◌≡◌, ◌≢◌, refl, none, some, List, [], ◌∷◌, codes, arith}
use hamyar_ops.Base.Chars.{Text}
use hamyar_ops.Http.{ok}
use hamyar_ops.EnvEditor.{
  EnvVar, AppConfig, Files, located, validated, validate_path, update_env_vars,
}
use hamyar_ops.EnvEditor.Paths.{IsUnder, update_env_vars-IsUnder}

abbrev sample_vars : List EnvVar
sample_vars =
    record { key = codes "PORT"; value = codes "80"; comment = codes "the port" }
    ∷ record { key = codes "NAME"; value = codes "a \"b\""; comment = [] }
    ∷ []

abbrev same_path : Text → Text
same_path p = p

abbrev web_root : List Text
web_root = codes "/var/www" ∷ []

abbrev env_path : Text
env_path = codes "/var/www/api/.env"

abbrev one_app : List AppConfig
one_app = record { pm2_name = "api"; env_path = some env_path } ∷ []

abbrev no_files : Files
no_files p = none

found_there : located same_path web_root one_app "api" ≡ ok env_path
unfolding located validated validate_path
found_there = refl

file_changed :
    (update_env_vars same_path web_root one_app "api" sample_vars no_files).1 env_path
    ≢ no_files env_path
unfolding update_env_vars located validated validate_path
file_changed e = ground (arith, e)

update_env_vars-IsUnder_example : IsUnder web_root env_path
update_env_vars-IsUnder_example =
    update_env_vars-IsUnder same_path web_root one_app "api" sample_vars env_path no_files
      file_changed
