-- ===== src/Backups/Archives.antt =====
-- backups.service.ts: what an archive of an application, a database, a container or a compose file
-- is made of. Commands, files and paths are parameters, and so is the reading of the JSON that
-- `docker inspect` prints; the lines of the log are left out, and so
-- is the time that the description of an archive of an application holds.
pub mod Machine
use hamyar_ops.Base.{
  ℕ, String, Bool, ◌&&◌, ◌||◌, not, Option, none, some, List, [], ◌∷◌, ◌++◌, if◌then◌else◌, ◌<>◌,
  str_eq, truthy, or_else, starts_with, is_text,
}
use hamyar_ops.Http.{
  Exception, bad_request, not_found, error, ok, err, Handler, pure, throw, gets, ◌>>=◌, ◌>>◌,
}
use hamyar_ops.Backups.{TargetType, app, database, container, compose, full, other}
use hamyar_ops.Backups.Archives.Machine.{Effects, attempt, when, unless, text_or}

pub record AppTarget : Type 0 where
  pub pm2_name : String
  pub deploy_path : Option String
  pub env_path : Option String
  pub db_type : Option String
  pub db_name : Option String
  pub container_name : Option String

unfoldable pub excludes : List String
excludes = "node_modules" ∷ ".next" ∷ "dist" ∷ ".turbo" ∷ ".git" ∷ ".cache" ∷ "coverage" ∷ []

unfoldable pub exclude_args : List String → List String
exclude_args [] = []
exclude_args (e ∷ es) = "--exclude" ∷ e ∷ exclude_args es

abbrev pub find_target : String → List AppTarget → Option AppTarget
find_target name [] = none
find_target name (a ∷ others) = if str_eq a.pm2_name name then some a else find_target name others

module _ {World : Type 0} (effects : Effects World) where
  open effects use {
    exec, make_temp_dir, make_dir, make_dirs, write_file, copy_file, remove_tree, exists, split,
    join, dirname, basename, volumes_of, json, json_indented, json_with_volumes,
  }

  abbrev dump_args : String → String → String → List String
  dump_args engine user db =
      if str_eq engine "postgres"
      then "-U" ∷ user ∷ "--no-owner" ∷ "--clean" ∷ "--if-exists" ∷ db ∷ []
      else "-u" ∷ user ∷ db ∷ []

  abbrev save_dump : String → String → List String → Handler World (Unit {0})
  save_dump file program args = do out ← exec program args; write_file file out

  unfoldable pub dump_local : String → String → String → Option String → Handler World (Unit {0})
  dump_local engine db file user =
      if str_eq engine "postgres"
      then save_dump file "pg_dump" (dump_args engine (text_or user "postgres") db)
      else if str_eq engine "mysql"
      then save_dump file "mysqldump" (dump_args engine (text_or user "root") db)
      else throw (bad_request ("Unsupported db engine " <> engine))

  unfoldable pub dump_in_container :
      String → String → String → String → Option String → Handler World (Unit {0})
  dump_in_container engine db where_from file user =
      if str_eq engine "postgres"
      then save_dump file "docker"
          ("exec" ∷ where_from ∷ "pg_dump" ∷ dump_args engine (text_or user "postgres") db)
      else if str_eq engine "mysql"
      then save_dump file "docker" (
          "exec"
          ∷ where_from
          ∷ "sh"
          ∷ "-c"
          ∷ ("mysqldump -u " <> text_or user "root" <> " " <> db)
          ∷ [])
      else throw (bad_request ("Unsupported db engine " <> engine))

  unfoldable pub dump_database :
      String → String → String → String → Option String → Handler World (Unit {0})
  unfolding dump_local dump_in_container
  dump_database engine db where_from file user =
      if starts_with "local-" where_from
      then dump_local engine db file user
      else dump_in_container engine db where_from file user

  -- The archive is packed from the staging directory, which is then removed.
  unfoldable pub pack : String → String → Handler World (Unit {0})
  pack staging out_path = do
    out ← exec "tar" ("-czf" ∷ out_path ∷ "-C" ∷ staging ∷ "." ∷ [])
    remove_tree staging

  abbrev pub dump_by_config : AppTarget → String → Handler World (Unit {0})
  unfolding dump_database
  dump_by_config cfg file = elim cfg.container_name [
    | none ↦ throw (error "containerName required to dump DB")
    | some c ↦
        if str_eq c ""
        then throw (error "containerName required to dump DB")
        else dump_database (or_else cfg.db_type "") (or_else cfg.db_name "") c file none
  ]

  abbrev pub deploy_path_of : AppTarget → Option String
  deploy_path_of cfg =
      if truthy cfg.deploy_path
      then cfg.deploy_path
      else if truthy cfg.env_path
      then some (dirname (or_else cfg.env_path ""))
      else none

  abbrev stage_app : AppTarget → String → String → Handler World (Unit {0})
  unfolding exclude_args excludes pack
  stage_app cfg deploy_path out_path = do
    staging ← make_temp_dir "/tmp/hamyar-backup-"
    make_dir (join staging "app")
    tree ← exec "tar" (
        "-czf"
        ∷ join (join staging "app") "app.tar.gz"
        ∷ "-C"
        ∷ deploy_path
        ∷ (exclude_args excludes ++ "." ∷ []))
    when (truthy cfg.db_type && truthy cfg.db_name)
        (attempt (dump_by_config cfg (join (join staging "app") "database.sql")))
    when (truthy cfg.env_path && not (is_text cfg.env_path (join deploy_path ".env"))) (
        attempt (
          copy_file (or_else cfg.env_path "") (
            join (join staging "env")
              (text_or (some (basename (or_else cfg.env_path ""))) ".env"))))
    write_file (join staging "meta.json") (
        json_indented (
          ("pm2Name", some cfg.pm2_name)
          ∷ ("deployPath", some deploy_path)
          ∷ ("envPath", cfg.env_path)
          ∷ ("dbType", cfg.db_type)
          ∷ ("dbName", cfg.db_name)
          ∷ []))
    pack staging out_path

  abbrev deployed : AppTarget → String → Option String → Handler World (Unit {0})
  deployed cfg out_path none =
      throw (bad_request ("No deployPath or envPath configured for " <> cfg.pm2_name))
  deployed cfg out_path (some path) = do
    there ← gets (exists path)
    unless (bad_request ("deployPath " <> path <> " does not exist")) there
        (stage_app cfg path out_path)

  unfoldable pub backup_app : String → Option AppTarget → String → Handler World (Unit {0})
  unfolding stage_app
  backup_app name none out_path = throw (not_found ("App " <> name <> " not found"))
  backup_app name (some cfg) out_path = deployed cfg out_path (deploy_path_of cfg)

  abbrev database_parts : List String → Option (String × String × String × Option String)
  database_parts (c ∷ e ∷ d ∷ []) = some (c, e, d, none)
  database_parts (c ∷ e ∷ d ∷ u ∷ rest) = some (c, e, d, some u)
  database_parts (c ∷ e ∷ []) = none
  database_parts (c ∷ []) = none
  database_parts [] = none

  abbrev bad_target : Exception
  bad_target = bad_request "database target must be container::engine::db[::user]"

  abbrev dump_and_pack :
      String → Option (String × String × String × Option String) → Handler World (Unit {0})
  unfolding dump_database pack
  dump_and_pack out_path none = throw bad_target
  dump_and_pack out_path (some (c, e, d, u)) =
      if str_eq c "" || str_eq e "" || str_eq d "" then throw bad_target else (do
        staging ← make_temp_dir "/tmp/hamyar-backup-"
        dump_database e d c (join staging "database.sql") u
        write_file (join staging "meta.json")
            (json (("container", some c) ∷ ("engine", some e) ∷ ("db", some d) ∷ ("user", u) ∷ []))
        pack staging out_path)

  unfoldable pub backup_database : String → String → Handler World (Unit {0})
  unfolding dump_and_pack
  backup_database target out_path = dump_and_pack out_path (database_parts (split target "::"))

  -- A volume that cannot be read is skipped.
  unfoldable pub snapshot_volumes : String → List String → Handler World (Unit {0})
  snapshot_volumes staging [] = pure tt
  snapshot_volumes staging (v ∷ vs) = do
    make_dirs (dirname (join (join staging "volumes") (v <> ".tar.gz")))
    attempt (do
      out ← exec "docker" (
          "run"
          ∷ "--rm"
          ∷ "-v"
          ∷ (v <> ":/data:ro")
          ∷ "-v"
          ∷ (staging <> "/volumes:/out")
          ∷ "alpine:3.20"
          ∷ "sh"
          ∷ "-c"
          ∷ ("tar czf /out/" <> v <> ".tar.gz -C /data .")
          ∷ [])
      pure tt)
    snapshot_volumes staging vs

  abbrev add_compose : String → String → Handler World (Unit {0})
  add_compose staging file = do
    there ← gets (exists file)
    when there (do
      make_dir (join staging "compose")
      copy_file file (join (join staging "compose") (basename file)))

  unfoldable pub backup_container : String → String → String → Handler World (Unit {0})
  unfolding snapshot_volumes pack
  backup_container compose_file name out_path = do
    staging ← make_temp_dir "/tmp/hamyar-backup-"
    inspected ← exec "docker" ("inspect" ∷ name ∷ [])
    write_file (join staging "container-inspect.json") inspected
    volumes ← volumes_of inspected
    snapshot_volumes staging volumes
    attempt (add_compose staging compose_file)
    write_file (join staging "meta.json") (json_with_volumes name volumes)
    pack staging out_path

  unfoldable pub backup_compose : String → String → String → Handler World (Unit {0})
  unfolding pack
  backup_compose compose_file name out_path = do
    let file = if str_eq name "" then compose_file else name
    there ← gets (exists file)
    unless (bad_request ("compose file " <> file <> " not found")) there (do
      staging ← make_temp_dir "/tmp/hamyar-backup-"
      copy_file file (join staging (basename file))
      write_file (join staging "meta.json") (json (("composeFile", some file) ∷ []))
      pack staging out_path)

  -- The archive of a target, by its type.
  unfoldable pub make_archive :
      String → List AppTarget → TargetType → String → String → Handler World (Unit {0})
  unfolding backup_app backup_database backup_container backup_compose
  make_archive compose_file apps app name out_path =
      backup_app name (find_target name apps) out_path
  make_archive compose_file apps database name out_path = backup_database name out_path
  make_archive compose_file apps container name out_path =
      backup_container compose_file name out_path
  make_archive compose_file apps compose name out_path = backup_compose compose_file name out_path
  make_archive compose_file apps full name out_path =
      throw (bad_request "Unknown backup target type full")
  make_archive compose_file apps (other type) name out_path =
      throw (bad_request ("Unknown backup target type " <> type))
