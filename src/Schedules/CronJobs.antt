-- ===== src/Schedules/CronJobs.antt =====
-- cron-jobs.service.ts: commands by cron expressions, as repeatable jobs of this server or as entries
-- in the crontab of a managed server, which are behind an interface.
pub mod Crontab
pub mod Runs
pub mod KeyFiles
pub mod Histories
use hamyar_ops.Base.{
  ℕ, String, Bool, true, false, ◌&&◌, ◌||◌, not, Option, none, some, List, [], ◌∷◌, ◌++◌,
  if◌then◌else◌, is_some, ◌<>◌, or_else, str_eq, truthy,
}
use hamyar_ops.Prisma.{Database, find_first}
use hamyar_ops.Http.{not_found, Result, ok, err, Handler, pure, throw, modify, ◌>>=◌, ◌>>◌}
use hamyar_ops.Bull.{JobQueue}
use hamyar_ops.Schedules.Registration.{register, unregister}

pub record CronJob : Type 0 where
  pub id : String
  pub server_id : Option String
  pub title : String
  pub command : String
  pub cron_expression : String
  pub enabled : Bool
  pub last_run_at : Option ℕ
  pub last_run_output : Option String
  pub last_run_status : Option Bool

pub record CreateCronJob : Type 0 where
  pub server_id : Option String
  pub title : String
  pub command : String
  pub cron_expression : String
  pub enabled : Option Bool

pub record UpdateCronJob : Type 0 where
  pub title : Option String
  pub command : Option String
  pub cron_expression : Option String
  pub enabled : Option Bool

-- `addRemoteCrontabEntry` with the server, the id, the title, the expression and the command, and
-- `removeRemoteCrontabEntry` with the server and the id. Both may throw.
pub record Remote : Type 1 where
  pub Crontabs : Type 0
  pub add_entry :
      String → String → String → String → String → Crontabs → Result (Unit {0}) × Crontabs
  pub remove_entry : String → String → Crontabs → Result (Unit {0}) × Crontabs

-- The answer of a local command: its output, and its exit code.
pub record CommandResult : Type 0 where
  pub output : String
  pub exit_ok : Bool

-- The events that are created, without their texts; a run has its status.
pub data CronEvent : Type 0 where
  cron_created cron_deleted : CronEvent
  cron_run : Bool → CronEvent

abbrev pub job_key : String → String
job_key id = "cron-job:" <> id

abbrev pub is_local : CronJob → Bool
is_local j = not (truthy j.server_id)

abbrev pub apply_dto : UpdateCronJob → CronJob → CronJob
apply_dto dto j = record j {
  title = or_else dto.title j.title;
  command = or_else dto.command j.command;
  cron_expression = or_else dto.cron_expression j.cron_expression;
  enabled = or_else dto.enabled j.enabled;
}

abbrev pub text_changed : Option String → String → Bool
text_changed none old = false
text_changed (some new) old = not (str_eq new old)

abbrev pub flag_changed : Option Bool → Bool → Bool
flag_changed none old = false
flag_changed (some true) old = not old
flag_changed (some false) old = old

-- `expressionChanged || commandChanged`
abbrev pub definition_changed : UpdateCronJob → CronJob → Bool
definition_changed dto j =
    text_changed dto.cron_expression j.cron_expression || text_changed dto.command j.command

module _ ⦃db : Database⦄ ⦃bull : JobQueue⦄ (remote : Remote) where
  open db use {Table, rows, create, update_many, delete_many}
  open bull use {Queue}

  pub record CronJobs : Type 0 where
    pub jobs : Table CronJob
    pub queue : Queue String
    pub crontabs : remote.Crontabs
    pub events : List CronEvent

  abbrev pub at_remote :
      (remote.Crontabs → Result (Unit {0}) × remote.Crontabs) → Handler CronJobs (Unit {0})
  at_remote f s = let r = f s.crontabs in (r.0, record s { crontabs = r.1 })

  abbrev pub emit : CronEvent → Handler CronJobs (Unit {0})
  emit e = modify λ s. record s { events = s.events ++ e ∷ [] }

  abbrev pub new_job : String → CreateCronJob → CronJob
  new_job new_id dto = record {
    id = new_id;
    server_id = dto.server_id;
    title = dto.title;
    command = dto.command;
    cron_expression = dto.cron_expression;
    enabled = or_else dto.enabled true;
    last_run_at = none;
    last_run_output = none;
    last_run_status = none;
  }

  -- A call of the queue, which may throw.
  abbrev pub on_queue : Handler (Queue String) (Unit {0}) → Handler CronJobs (Unit {0})
  on_queue m s = let r = m s.queue in (r.0, record s { queue = r.1 })

  abbrev pub queue_if_enabled : CronJob → Handler (Queue String) (Unit {0})
  unfolding register
  queue_if_enabled j = if j.enabled then register (job_key j.id) j.cron_expression j.id else pure tt

  unfoldable pub place_job : CronJob → Handler CronJobs (Unit {0})
  unfolding queue_if_enabled
  place_job j =
      if truthy j.server_id
      then at_remote
          (remote.add_entry (or_else j.server_id "") j.id j.title j.cron_expression j.command)
      else on_queue (queue_if_enabled j)

  unfoldable pub create_job : String → CreateCronJob → Handler CronJobs CronJob
  unfolding place_job
  create_job new_id dto = do
    modify λ s. record s { jobs = create (new_job new_id dto) s.jobs }
    place_job (new_job new_id dto)
    emit cron_created
    pure (new_job new_id dto)

  unfoldable pub find_job : String → Handler CronJobs CronJob
  find_job id s = elim (find_first (λ (j : CronJob). str_eq j.id id) s.jobs) [
    | none ↦ throw (not_found "Cron job not found") s
    | some j ↦ pure j s
  ]

  abbrev pub replace_entry : CronJob → UpdateCronJob → Handler CronJobs (Unit {0})
  replace_entry j dto = do
    at_remote (remote.remove_entry (or_else j.server_id "") j.id)
    at_remote (
        remote.add_entry (or_else j.server_id "") j.id (or_else dto.title j.title)
          (or_else dto.cron_expression j.cron_expression) (or_else dto.command j.command))

  -- The changes of the crontab of a managed server.
  unfoldable pub update_remote : CronJob → UpdateCronJob → Handler CronJobs (Unit {0})
  update_remote j dto = do
    if truthy j.server_id && definition_changed dto j then replace_entry j dto else pure tt
    if truthy j.server_id && flag_changed dto.enabled j.enabled
        then if or_else dto.enabled false
          then replace_entry j dto
          else at_remote (remote.remove_entry (or_else j.server_id "") j.id)
        else pure tt

  -- The changes of the queue of this server.
  unfoldable pub update_queue : CronJob → UpdateCronJob → Handler (Queue String) (Unit {0})
  unfolding register unregister
  update_queue j dto =
      if truthy j.server_id
      then pure tt
      else if definition_changed dto j
      then (do
        modify (unregister (job_key j.id))
        if or_else dto.enabled j.enabled
            then register (job_key j.id) (or_else dto.cron_expression j.cron_expression) j.id
            else pure tt)
      else if flag_changed dto.enabled j.enabled
      then if or_else dto.enabled false
        then register (job_key j.id) j.cron_expression j.id
        else modify (unregister (job_key j.id))
      else pure tt

  unfoldable pub update_job : String → UpdateCronJob → Handler CronJobs (Unit {0})
  unfolding find_job update_remote update_queue
  update_job id dto = do
    existing ← find_job id
    update_remote existing dto
    on_queue (update_queue existing dto)
    modify λ s. record s {
      jobs = update_many (λ (j : CronJob). str_eq j.id id) (apply_dto dto) s.jobs;
    }

  unfoldable pub toggle : String → Bool → Handler CronJobs (Unit {0})
  unfolding update_job
  toggle id enabled =
      update_job id
        (record { title = none; command = none; cron_expression = none; enabled = some enabled })

  unfoldable pub withdraw_job : CronJob → Handler CronJobs (Unit {0})
  unfolding unregister
  withdraw_job j =
      if truthy j.server_id
      then at_remote (remote.remove_entry (or_else j.server_id "") j.id)
      else modify λ s. record s { queue = unregister (job_key j.id) s.queue }

  unfoldable pub delete_job : String → Handler CronJobs (Unit {0})
  unfolding find_job withdraw_job
  delete_job id = do
    j ← find_job id
    withdraw_job j
    modify λ s. record s { jobs = delete_many (λ (j : CronJob). str_eq j.id id) s.jobs }
    emit cron_deleted

  -- What a run leaves: the output and the status in the row, and an event.
  unfoldable pub finish_run : ℕ → CommandResult → String → CronJobs → CronJobs
  finish_run now r id s = record s {
    jobs =
        update_many (λ (o : CronJob). str_eq o.id id)
          (λ (o : CronJob). record o {
            last_run_at = some now;
            last_run_output = some r.output;
            last_run_status = some r.exit_ok;
          })
          s.jobs;
    events = s.events ++ cron_run r.exit_ok ∷ [];
  }

  -- `executeJob`, at the end of the command, with its answer.
  unfoldable pub execute_job : ℕ → (String → CommandResult) → String → CronJobs → CronJobs
  unfolding finish_run
  execute_job now run id s = elim (find_first (λ (j : CronJob). str_eq j.id id) s.jobs) [
    | none ↦ s
    | some j ↦ if j.enabled then finish_run now (run j.command) id s else s
  ]
