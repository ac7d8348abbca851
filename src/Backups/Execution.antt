-- ===== src/Backups/Execution.antt =====
-- backups.service.ts: backups of single targets, of the targets of a strategy and of the archive of
-- a record, with the upload to S3. What an archive is made of is in Backups/Archives; full backups
-- differ in that, and are not modelled.
pub mod Keeping
pub mod Archived
pub mod Strategies
pub mod Placing
pub mod Settled
pub mod Running
pub mod Targets
use hamyar_ops.Base.{
  ℕ, ◌+◌, ◌*◌, String, Bool, true, false, ◌&&◌, not, Option, none, some, List, [], ◌∷◌, ◌++◌,
  if◌then◌else◌, ◌<>◌, str_eq, truthy, or_else, is_text,
}
use hamyar_ops.Prisma.{Database, find_first}
use hamyar_ops.Http.{
  Exception, bad_request, not_found, Result, ok, err, Handler, pure, throw, gets, modify, ◌>>=◌,
  ◌>>◌,
}
use hamyar_ops.Schedules.Backups.{Strategy}
use hamyar_ops.Backups.{
  Storage, RecordStatus, TargetType, app, database, container, compose, full, other, BackupRecord,
  Storages, Backups, by_id, is_local, enforce_retention, strategy_of,
}
use hamyar_ops.Backups.Archives.{AppTarget, make_archive}
use hamyar_ops.Backups.Archives.Machine.{Effects}

abbrev pub type_text : TargetType → String
type_text app = "app"
type_text database = "database"
type_text container = "container"
type_text compose = "compose"
type_text full = "full"
type_text (other t) = t

-- `strat.targetType as BackupTargetType`
abbrev type_of : String → TargetType
type_of t =
    if str_eq t "app"
    then app
    else if str_eq t "database"
    then database
    else if str_eq t "container"
    then container
    else if str_eq t "compose"
    then compose
    else other t

-- What the record of a finished backup says of its archive.
pub record Stored : Type 0 where
  pub storage : Storage
  pub s3_key : Option String
  pub local_path : Option String
  pub expires_at : Option ℕ

module _ ⦃db : Database⦄ ⦃storages : Storages⦄ (effects : Effects storages.World)
    (compose_file backups_dir : String) (ttl_hours : ℕ) (safe : String → String)
    (apps : List AppTarget) where
  open db use {Table, rows, create, update_many}
  open effects use {file_size, upload, remove, join}

  -- An effect on the machine, in the state of the service.
  abbrev pub lift : {A : Type 0} → Handler storages.World A → Handler Backups A
  lift m s = let (a, world) = m s.world in (a, record s { world = world })

  -- `${targetType}-${safe}-${stamp}.tar.gz`
  abbrev pub archive_name : TargetType → String → String → String
  archive_name type name stamp = type_text type <> "-" <> safe name <> "-" <> stamp <> ".tar.gz"

  -- strategy?.storage === 's3' && strategy.s3ConfigId
  abbrev pub s3_config : Option Strategy → Option String
  s3_config none = none
  s3_config (some t) =
      if str_eq t.storage "s3" && truthy t.s3_config_id then t.s3_config_id else none

  abbrev pub stored_here : ℕ → String → Stored
  stored_here now out_path = record {
    storage = Storage.local;
    s3_key = none;
    local_path = some out_path;
    expires_at = some (now + ttl_hours * 3600 * 1000);
  }

  unfoldable pub offload :
      ℕ → TargetType → String → String → String → Option String → Handler Backups Stored
  offload now type name file_name out_path none = pure (stored_here now out_path)
  offload now type name file_name out_path (some config) = do
    let key = "backups/" <> type_text type <> "/" <> name <> "/" <> file_name
    lift (upload config key out_path)
    lift (remove out_path)
    pure (record { storage = Storage.s3; s3_key = some key; local_path = none; expires_at = none })

  -- A strategy that is gone leaves no number to keep, which enforceRetention swallows.
  abbrev pub retain : Option String → Backups → Backups
  retain none s = s
  retain (some id) s = elim (strategy_of (some id) s) [ none ↦ s | some t ↦ enforce_retention t s ]

  abbrev pub finished : Option String → String → ℕ → Stored → BackupRecord → BackupRecord
  finished strategy_id file_name size t r = record r {
    strategy_id = strategy_id;
    storage = t.storage;
    size_bytes = size;
    file_name = file_name;
    local_path = t.local_path;
    s3_key = t.s3_key;
    status = RecordStatus.success;
    expires_at = t.expires_at;
  }

  -- The `try` block up to the update of the record.
  unfoldable pub archived :
      ℕ → String → TargetType → String → Option String → Handler Backups (ℕ × Stored)
  unfolding offload make_archive
  archived now stamp type name strategy_id = do
    let file_name = archive_name type name stamp
    let out_path = join backups_dir file_name
    lift (make_archive effects compose_file apps type name out_path)
    size ← lift (file_size out_path)
    config ← gets (λ s. s3_config (strategy_of strategy_id s))
    t ← offload now type name file_name out_path config
    modify (retain strategy_id)
    pure (size, t)

  -- The `try` block and its `catch`.
  abbrev pub settle : String → Option String → String → Result (ℕ × Stored) × Backups → Backups
  settle record_id strategy_id file_name (ok (size, t), s) = record s {
    records = update_many (by_id record_id) (finished strategy_id file_name size t) s.records;
  }
  settle record_id strategy_id file_name (err e, s) = record s {
    records =
        update_many (by_id record_id)
          (λ r. record r { status = RecordStatus.failed; message = some e }) s.records;
  }

  unfoldable pub execute_backup :
      ℕ → String → String → TargetType → String → Option String → Backups → Backups
  unfolding archived
  execute_backup now stamp record_id type name strategy_id s =
      settle record_id strategy_id (archive_name type name stamp)
        (archived now stamp type name strategy_id s)

  abbrev new_record : ℕ → String → Option String → TargetType → String → Storage → BackupRecord
  new_record now id strategy_id type name storage = record {
    id = id;
    strategy_id = strategy_id;
    target_type = type;
    target_name = name;
    file_name = "";
    size_bytes = 0;
    message = none;
    storage = storage;
    local_path = none;
    s3_key = none;
    status = RecordStatus.running;
    created_at = now;
    expires_at = none;
  }

  abbrev started : BackupRecord → Backups → Backups
  started r s = record s { records = create r s.records }

  -- `runAdHoc`, with the backup that goes on behind its answer.
  unfoldable pub run_ad_hoc : ℕ → String → String → TargetType → String → Backups → Backups
  unfolding execute_backup
  run_ad_hoc now stamp id type name s =
      execute_backup now stamp id type name none
        (started (new_record now id none type name Storage.local) s)

  abbrev storage_of : String → Storage
  storage_of t = if str_eq t "s3" then Storage.s3 else Storage.local

  -- The loop over the targets of a strategy; `ids` gives the id of the record of each target.
  unfoldable pub run_targets :
      ℕ → String → (String → String) → Strategy → List String → Backups → Backups
  unfolding execute_backup
  run_targets now stamp ids t [] s = s
  run_targets now stamp ids t (name ∷ names) s =
      let type = type_of t.target_type in
      run_targets now stamp ids t names (
        execute_backup now stamp (ids name) type name (some t.id)
          (started (new_record now (ids name) (some t.id) type name (storage_of t.storage)) s))

  -- The time of the last run is left out of the strategy's row.
  unfoldable pub run_strategy_backup : ℕ → String → (String → String) → String → Backups → Backups
  unfolding run_targets
  run_strategy_backup now stamp ids strategy_id s = elim (strategy_of (some strategy_id) s) [
    | none ↦ s
    | some t ↦ if t.enabled then run_targets now stamp ids t t.targets s else s
  ]
