-- ===== src/Backups/Restores.antt =====
-- backups.service.ts: the restoring of a backup of an application, a database or a container from its
-- archive. What it uses of the machine besides Backups/Archives/Machine is a parameter; the lines of
-- the log are left out.
pub mod Found
pub mod Offloaded
use hamyar_ops.Base.{
  ℕ, String, Bool, true, false, ◌&&◌, Option, none, some, List, [], ◌∷◌, if◌then◌else◌, ◌<>◌,
  str_eq, truthy, or_else, starts_with, is_some,
}
use hamyar_ops.Prisma.{Database, find_first}
use hamyar_ops.Http.{
  Exception, bad_request, not_found, error, ok, err, Handler, pure, throw, gets, ◌>>=◌, ◌>>◌,
}
use hamyar_ops.Schedules.Backups.{Strategy}
use hamyar_ops.Backups.{
  Storage, TargetType, app, database, container, compose, full, other, BackupRecord, Storages,
  Backups, by_id, is_local, strategy_of,
}
use hamyar_ops.Backups.Archives.{AppTarget, find_target, deploy_path_of}
use hamyar_ops.Backups.Archives.Machine.{Effects, unless, when}

-- `meta.json`, as far as it says them; nothing if it cannot be read.
pub record Meta : Type 0 where
  pub container : Option String
  pub engine : Option String
  pub db : Option String

-- What a restore uses of the machine. `feed` runs a program on a file, and fails if it does not end
-- with code 0.
pub record Restoring (World : Type 0) : Type 0 where
  pub download : String → String → Handler World String
  pub read_file : String → Handler World String
  pub read_dir : String → Handler World (List String)
  pub feed : String → List String → String → Handler World (Unit {0})
  pub meta_of : String → World → Meta
  pub ends_with : String → String → Bool
  pub without_end : String → String → String

-- Where an archive stands: an object of an S3 configuration, or a file.
pub data Location : Type 0 where
  object : (config key : String) → Location
  file : (path : String) → Location

abbrev first_of : List String → Option String
first_of [] = none
first_of (a ∷ rest) = some a

abbrev rest_of : List String → List String
rest_of [] = []
rest_of (a ∷ rest) = rest

-- a ?? b
abbrev either : Option String → Option String → Option String
either none b = b
either (some a) b = some a

module _ ⦃db : Database⦄ ⦃storages : Storages⦄ where
  abbrev pub config_of : Option Strategy → Option String
  config_of none = none
  config_of (some t) = if truthy t.s3_config_id then t.s3_config_id else none

  abbrev in_bucket : String → Option String → Handler Backups Location
  in_bucket key none = throw (bad_request "S3 config missing")
  in_bucket key (some config) = pure (object config key)

  abbrev on_disk : Option String → Handler Backups Location
  on_disk none s = (err (not_found "Backup archive not found on disk"), s)
  on_disk (some path) s =
      if truthy (some path) && storages.exists path s.world
      then (ok (file path), s)
      else (err (not_found "Backup archive not found on disk"), s)

  abbrev pub has_object : BackupRecord → Bool
  has_object r =
      (if is_local r.storage then false else true) && truthy r.s3_key && truthy r.strategy_id

  -- Where `getArchiveBuffer` reads.
  unfoldable pub locate : BackupRecord → Handler Backups Location
  locate r s =
      if has_object r
      then in_bucket (or_else r.s3_key "") (config_of (strategy_of r.strategy_id s)) s
      else on_disk r.local_path s

module _ ⦃db : Database⦄ ⦃storages : Storages⦄ (effects : Effects storages.World)
    (restoring : Restoring storages.World) (apps : List AppTarget) where
  open effects use {
    exec, make_temp_dir, make_dir, make_dirs, write_file, remove_tree, exists, split, join,
  }
  open restoring use {download, read_file, read_dir, feed, meta_of, ends_with, without_end}

  abbrev on_world : {A : Type 0} → Handler storages.World A → Handler Backups A
  on_world m s = let (a, world) = m s.world in (a, record s { world = world })

  abbrev read_at : Location → Handler storages.World String
  read_at (object config key) = download config key
  read_at (file path) = read_file path

  unfoldable pub get_archive_buffer : BackupRecord → Handler Backups String
  unfolding locate
  get_archive_buffer r = do at ← locate r; on_world (read_at at)

  -- An argument that is undefined makes execFile throw, and in a text it reads "undefined".
  abbrev with_text :
      Option String
      → (String → Handler storages.World (Unit {0}))
      → Handler storages.World (Unit {0})
  with_text none k = throw (error "The argument must be of type string")
  with_text (some text) k = k text

  abbrev feed_local : String → Option String → String → Handler storages.World (Unit {0})
  feed_local engine db sql = with_text db λ name.
      if str_eq engine "postgres"
      then feed "psql" ("-U" ∷ "postgres" ∷ "-d" ∷ name ∷ []) sql
      else feed "mysql" (name ∷ []) sql

  abbrev feed_container :
      String → Option String → String → String → Handler storages.World (Unit {0})
  feed_container engine db where_to sql =
      if str_eq engine "postgres"
      then with_text db (λ name.
        feed "docker" ("exec" ∷ "-i" ∷ where_to ∷ "psql" ∷ "-U" ∷ "postgres" ∷ "-d" ∷ name ∷ [])
          sql)
      else feed "docker"
          ("exec" ∷ "-i" ∷ where_to ∷ "sh" ∷ "-c" ∷ ("mysql " <> or_else db "undefined") ∷ []) sql

  unfoldable pub restore_sql :
      String → Option String → String → String → Handler storages.World (Unit {0})
  restore_sql engine db where_to sql = do
    there ← gets (exists sql)
    unless (bad_request "database.sql missing in archive") there (
        if starts_with "local-" where_to
        then feed_local engine db sql
        else feed_container engine db where_to sql)

  abbrev pub extract_app : String → Bool → String → String → Handler storages.World (Unit {0})
  extract_app stamp overwrite dir deploy_path = do
    let app_tar = join (join dir "app") "app.tar.gz"
    let target = if overwrite then deploy_path else join deploy_path (".restore-" <> stamp)
    there ← gets (exists app_tar)
    when there
        (do make_dirs target; out ← exec "tar" ("-xzf" ∷ app_tar ∷ "-C" ∷ target ∷ []); pure tt)

  abbrev pub restore_dump : String → AppTarget → Handler storages.World (Unit {0})
  unfolding restore_sql
  restore_dump dir cfg = do
    let sql = join (join dir "app") "database.sql"
    there ← gets (exists sql)
    when (truthy cfg.db_type && truthy cfg.db_name && truthy cfg.container_name && there)
        (restore_sql (or_else cfg.db_type "") cfg.db_name (or_else cfg.container_name "") sql)

  abbrev path_of : Option AppTarget → Option String
  path_of none = none
  path_of (some cfg) = deploy_path_of effects cfg

  abbrev into_app :
      String → Bool → String → Option AppTarget → Option String → Handler storages.World (Unit {0})
  into_app stamp overwrite dir cfg none = throw (bad_request "No deployPath to restore into")
  into_app stamp overwrite dir none (some path) = extract_app stamp overwrite dir path
  into_app stamp overwrite dir (some cfg) (some path) = do
    extract_app stamp overwrite dir path
    restore_dump dir cfg

  unfoldable pub restore_app : String → Bool → String → String → Handler storages.World (Unit {0})
  restore_app stamp overwrite dir name =
      let cfg = find_target name apps in into_app stamp overwrite dir cfg (path_of cfg)

  unfoldable pub restore_database : String → String → Handler storages.World (Unit {0})
  unfolding restore_sql
  restore_database dir name = do
    meta ← gets (meta_of dir)
    let parts = split name "::"
    let where_to = either meta.container (first_of parts)
    let engine = either meta.engine (first_of (rest_of parts))
    let db = either meta.db (first_of (rest_of (rest_of parts)))
    restore_sql (or_else engine "postgres") db (or_else where_to "") (join dir "database.sql")

  unfoldable pub restore_volumes : String → List String → Handler storages.World (Unit {0})
  restore_volumes dir [] = pure tt
  restore_volumes dir (f ∷ fs) = do
    let volume = without_end ".tar.gz" f
    when (ends_with ".tar.gz" f) (do
      made ← exec "docker" ("volume" ∷ "create" ∷ volume ∷ [])
      out ← exec "docker" (
          "run"
          ∷ "--rm"
          ∷ "-v"
          ∷ (volume <> ":/data")
          ∷ "-v"
          ∷ (dir <> ":/in:ro")
          ∷ "alpine:3.20"
          ∷ "sh"
          ∷ "-c"
          ∷ ("tar xzf /in/" <> f <> " -C /data")
          ∷ [])
      pure tt)
    restore_volumes dir fs

  abbrev restore_container : String → Handler storages.World (Unit {0})
  unfolding restore_volumes
  restore_container dir = do
    let volumes = join dir "volumes"
    there ← gets (exists volumes)
    when there (do files ← read_dir volumes; restore_volumes volumes files)

  -- What is made of an archive that was extracted to a directory; the other types are only logged.
  unfoldable pub restore_type :
      String → Bool → String → TargetType → String → Handler storages.World (Unit {0})
  unfolding restore_app restore_database restore_container
  restore_type stamp overwrite dir app name = restore_app stamp overwrite dir name
  restore_type stamp overwrite dir database name = restore_database dir name
  restore_type stamp overwrite dir container name = restore_container dir
  restore_type stamp overwrite dir compose name = pure tt
  restore_type stamp overwrite dir full name = pure tt
  restore_type stamp overwrite dir (other type) name = pure tt

  abbrev pub unpack : String → Bool → BackupRecord → String → Handler storages.World (Unit {0})
  unfolding restore_type
  unpack stamp overwrite r archive = do
    staging ← make_temp_dir "/tmp/hamyar-restore-"
    write_file (join staging "backup.tar.gz") archive
    make_dir (join staging "extracted")
    out ← exec "tar" ("-xzf" ∷ join staging "backup.tar.gz" ∷ "-C" ∷ join staging "extracted" ∷ [])
    restore_type stamp overwrite (join staging "extracted") r.target_type r.target_name
    remove_tree staging

  abbrev restore_found : String → Bool → Option BackupRecord → Handler Backups (Unit {0})
  unfolding get_archive_buffer
  restore_found stamp overwrite none = throw (not_found "Backup not found")
  restore_found stamp overwrite (some r) = do
    archive ← get_archive_buffer r
    on_world (unpack stamp overwrite r archive)

  unfoldable pub restore : String → Bool → String → Handler Backups (Unit {0})
  unfolding restore_found
  restore stamp overwrite id s = restore_found stamp overwrite (find_first (by_id id) s.records) s
