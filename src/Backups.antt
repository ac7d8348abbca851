-- ===== src/Backups.antt =====
-- backups.service.ts of modules/backups: the records of backups, their deletion, the retention of a
-- strategy and the daily cleanup. The files and S3 are parameters. The backups themselves are
-- in Backups/Execution; the sweep of files that no record names is not modelled.
pub mod Retention
pub mod Archives
pub mod Execution
pub mod Restores
use hamyar_ops.Base.{
  ℕ, String, Bool, true, false, ◌&&◌, not, Option, none, some, List, [], ◌∷◌, if◌then◌else◌, keep,
  drop, take, leb, is_some, is_text, str_eq, ◌+◌, suc,
}
use hamyar_ops.Base.Rows.Deletions.{newest_first}
use hamyar_ops.Prisma.{Database, find_first}
use hamyar_ops.Http.{Exception, Result, Handler, ok, err, pure, ◌>>=◌, ◌>>◌}
use hamyar_ops.Schedules.Backups.{Strategy}

pub data Storage : Type 0 where
  local : Storage
  s3 : Storage

pub data RecordStatus : Type 0 where
  running : RecordStatus
  success : RecordStatus
  failed : RecordStatus
  expired : RecordStatus

pub data TargetType : Type 0 where
  app database container compose full : TargetType
  other : String → TargetType

pub record BackupRecord : Type 0 where
  pub id : String
  pub strategy_id : Option String
  pub target_type : TargetType
  pub target_name : String
  pub file_name : String
  pub size_bytes : ℕ
  pub message : Option Exception
  pub storage : Storage
  pub local_path : Option String
  pub s3_key : Option String
  pub status : RecordStatus
  pub created_at : ℕ
  pub expires_at : Option ℕ

abbrev pub is_success : RecordStatus → Bool
is_success RecordStatus.success = true
is_success RecordStatus.running = false
is_success RecordStatus.failed = false
is_success RecordStatus.expired = false

abbrev pub is_local : Storage → Bool
is_local Storage.local = true
is_local Storage.s3 = false

-- The files and the objects of S3 configurations. `fs.unlinkSync` may throw; an error of the removal
-- of an object is ignored wherever one is removed.
pub record Storages : Type 1 where
  pub World : Type 0
  pub exists : String → World → Bool
  pub unlink : String → World → Result (Unit {0}) × World
  pub delete_object : String → String → World → World

abbrev pub by_id : String → BackupRecord → Bool
by_id id r = str_eq r.id id

-- A finished backup of a strategy.
abbrev pub is_kept : String → BackupRecord → Bool
is_kept strategy r = is_text r.strategy_id strategy && is_success r.status

abbrev pub is_due : ℕ → Option ℕ → Bool
is_due now none = false
is_due now (some t) = leb t now

abbrev pub is_expired : ℕ → BackupRecord → Bool
is_expired now r = is_local r.storage && is_due now r.expires_at

abbrev pub expire : BackupRecord → BackupRecord
expire r = record r { status = RecordStatus.expired; local_path = none }

module _ ⦃db : Database⦄ ⦃storages : Storages⦄ where
  open db use {Table, rows, update_many, delete_many}
  open storages use {World, exists, unlink, delete_object}

  pub record Backups : Type 0 where
    pub records : Table BackupRecord
    pub strategies : Table Strategy
    pub world : World

  abbrev pub strategy_of : Option String → Backups → Option Strategy
  strategy_of none s = none
  strategy_of (some id) s = find_first (λ (t : Strategy). str_eq t.id id) s.strategies

  abbrev delete_from : Option Strategy → String → World → World
  delete_from none key w = w
  delete_from (some t) key w = elim t.s3_config_id [ none ↦ w | some c ↦ delete_object c key w ]

  abbrev delete_remote : BackupRecord → Backups → World → World
  delete_remote r s w = elim r.storage [
    | local ↦ w
    | s3 ↦ elim r.s3_key [ none ↦ w | some key ↦ delete_from (strategy_of r.strategy_id s) key w ]
  ]

  abbrev pub unlink_if_there : Option String → World → Result (Unit {0}) × World
  unlink_if_there none w = (ok tt, w)
  unlink_if_there (some path) w = if exists path w then unlink path w else (ok tt, w)

  -- The row goes only once its file is removed.
  abbrev pub after_unlink : String → Result (Unit {0}) × World → Handler Backups (Unit {0})
  after_unlink id (ok done, w) s =
      (ok tt, record s { records = delete_many (by_id id) s.records; world = w })
  after_unlink id (err e, w) s = (err e, record s { world = w })

  unfoldable pub delete_record : String → Handler Backups (Unit {0})
  delete_record id s = elim (find_first (by_id id) s.records) [
    | none ↦ (ok tt, s)
    | some r ↦ after_unlink id (unlink_if_there r.local_path (delete_remote r s s.world)) s
  ]

  -- The first deletion that throws ends the loop.
  abbrev pub delete_records : List BackupRecord → Handler Backups (Unit {0})
  unfolding delete_record
  delete_records [] = pure tt
  delete_records (r ∷ rs) = do delete_record r.id; delete_records rs

  -- What the deletions throw is logged and ignored.
  unfoldable pub enforce_retention : Strategy → Backups → Backups
  unfolding delete_records newest_first
  enforce_retention t s =
      (delete_records
        (drop t.retention_max (
          newest_first (λ (r : BackupRecord). r.created_at) (keep (is_kept t.id) (rows s.records))))
        s).1

  abbrev pub expire_all : List BackupRecord → Backups → Backups
  expire_all [] s = s
  expire_all (r ∷ rs) s = expire_all rs (record s {
    records = update_many (by_id r.id) expire s.records;
    world = (unlink_if_there r.local_path s.world).1;
  })

  -- The first part of `cleanupExpiredLocal`, over the records.
  unfoldable pub cleanup_expired_local : ℕ → Backups → Backups
  cleanup_expired_local now s = expire_all (take 500 (keep (is_expired now) (rows s.records))) s
