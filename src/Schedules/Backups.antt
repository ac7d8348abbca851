-- ===== src/Schedules/Backups.antt =====
-- The strategies of backup-strategy.service.ts and their repeatable jobs. Its handlers of S3
-- configurations only pass rows on and are not modelled.
use hamyar_ops.Base.{
  ℕ, String, Bool, true, Option, none, some, List, [], ◌∷◌, if◌then◌else◌, ◌<>◌, or_else, str_eq,
  truthy, keep,
}
use hamyar_ops.Prisma.{Database, find_first}
use hamyar_ops.Http.{record_missing, ok, err, Handler, pure, ◌>>◌}
use hamyar_ops.Bull.{JobQueue}
use hamyar_ops.Schedules.Registration as Registration

pub record Strategy : Type 0 where
  pub id : String
  pub name : String
  pub target_type : String
  pub targets : List String
  pub storage : String
  pub s3_config_id : Option String
  pub schedule_cron : String
  pub retention_max : ℕ
  pub exclude_node_modules : Bool
  pub enabled : Bool

pub record CreateStrategy : Type 0 where
  pub name : String
  pub target_type : String
  pub targets : Option (List String)
  pub storage : Option String
  pub s3_config_id : Option String
  pub schedule_cron : String
  pub retention_max : Option ℕ
  pub exclude_node_modules : Option Bool
  pub enabled : Option Bool

pub record UpdateStrategy : Type 0 where
  pub name : Option String
  pub targets : Option (List String)
  pub storage : Option String
  pub s3_config_id : Option (Option String)
  pub schedule_cron : Option String
  pub retention_max : Option ℕ
  pub exclude_node_modules : Option Bool
  pub enabled : Option Bool

-- The data of the jobs: `{ strategyId }`, or `{}` for the daily cleanup.
pub data BackupJob : Type 0 where
  run_strategy : String → BackupJob
  cleanup : BackupJob

abbrev pub job_key : String → String
job_key id = "backup-strategy:" <> id

abbrev pub apply_dto : UpdateStrategy → Strategy → Strategy
apply_dto dto s = record s {
  name = or_else dto.name s.name;
  targets = or_else dto.targets s.targets;
  storage = or_else dto.storage s.storage;
  s3_config_id = or_else dto.s3_config_id s.s3_config_id;
  schedule_cron = or_else dto.schedule_cron s.schedule_cron;
  retention_max = or_else dto.retention_max s.retention_max;
  exclude_node_modules = or_else dto.exclude_node_modules s.exclude_node_modules;
  enabled = or_else dto.enabled s.enabled;
}

module _ ⦃db : Database⦄ ⦃bull : JobQueue⦄ where
  open db use {Table, rows, create, update_many, delete_many}
  open bull use {Queue}

  pub record Strategies : Type 0 where
    pub strategies : Table Strategy
    pub queue : Queue BackupJob

  -- A call of the queue, which may throw.
  abbrev pub on_queue : Handler (Queue BackupJob) (Unit {0}) → Handler Strategies (Unit {0})
  on_queue m s = let r = m s.queue in (r.0, record s { queue = r.1 })

  unfoldable pub register : Strategy → Handler (Queue BackupJob) (Unit {0})
  unfolding Registration.register
  register s =
      if s.enabled
      then Registration.register (job_key s.id) s.schedule_cron (run_strategy s.id)
      else pure tt

  -- What is stored stays if the registration throws.
  abbrev registered : Strategy → Handler Strategies Strategy
  unfolding register
  registered t = do on_queue (register t); pure t

  abbrev pub unregister : String → Queue BackupJob → Queue BackupJob
  unfolding Registration.unregister
  unregister id q = Registration.unregister (job_key id) q

  abbrev register_all : List Strategy → Handler (Queue BackupJob) (Unit {0})
  unfolding register
  register_all [] = pure tt
  register_all (s ∷ rest) = do register s; register_all rest

  -- The argument is the variable BACKUPS_CLEANUP_CRON.
  unfoldable pub on_module_init : Option String → Handler Strategies (Unit {0})
  unfolding register_all
  on_module_init cleanup_cron s =
      on_queue
        (do
          register_all (keep (λ (t : Strategy). t.enabled) (rows s.strategies))
          bull.add_repeat "cleanup" cleanup
              (if truthy cleanup_cron then or_else cleanup_cron "" else "30 3 * * *")
              (some "backup-strategy:cleanup"))
        s

  unfoldable pub create_strategy : String → CreateStrategy → Handler Strategies Strategy
  unfolding registered
  create_strategy new_id dto s =
      let t : Strategy = record {
        id = new_id;
        name = dto.name;
        target_type = dto.target_type;
        targets = or_else dto.targets [];
        storage = or_else dto.storage "local";
        s3_config_id = dto.s3_config_id;
        schedule_cron = dto.schedule_cron;
        retention_max = or_else dto.retention_max 24;
        exclude_node_modules = or_else dto.exclude_node_modules true;
        enabled = or_else dto.enabled true;
      } in
      registered t (record s { strategies = create t s.strategies })

  -- The job goes first, also where there is no row and the update throws.
  unfoldable pub update_strategy : String → UpdateStrategy → Handler Strategies Strategy
  unfolding registered unregister
  update_strategy id dto s =
      let q = unregister id s.queue in
      elim (find_first (λ (t : Strategy). str_eq t.id id) s.strategies) [
        | none ↦ (err record_missing, record s { queue = q })
        | some existing ↦ registered (apply_dto dto existing) (record s {
          strategies = update_many (λ (o : Strategy). str_eq o.id id) (apply_dto dto) s.strategies;
          queue = q;
        })
      ]

  unfoldable pub delete_strategy : String → Handler Strategies (Unit {0})
  unfolding unregister
  delete_strategy id s =
      let q = unregister id s.queue in
      elim (find_first (λ (t : Strategy). str_eq t.id id) s.strategies) [
        | none ↦ (err record_missing, record s { queue = q })
        | some existing ↦ (
          ok tt,
          record s {
            strategies = delete_many (λ (o : Strategy). str_eq o.id id) s.strategies;
            queue = q;
          },
        )
      ]
