-- ===== src/Schedules/Apps.antt =====
-- scheduler.service.ts: restarts of applications by cron expressions.
pub mod Runs
use hamyar_ops.Base.{
  ℕ, String, Bool, true, false, Option, none, some, List, [], ◌∷◌, if◌then◌else◌, any, ◌<>◌,
  or_else, str_eq,
}
use hamyar_ops.Prisma.{Database, find_first}
use hamyar_ops.Http.{
  not_found, record_missing, Result, ok, err, Handler, pure, throw, modify, ◌>>=◌, ◌>>◌,
}
use hamyar_ops.Bull.{JobQueue}
use hamyar_ops.Schedules.Registration.{register, unregister}

pub record AppSchedule : Type 0 where
  pub id : String
  pub app_name : String
  pub cron : String
  pub action : String
  pub enabled : Bool
  pub label : Option String
  pub last_ran_at : Option ℕ

pub record CreateAppSchedule : Type 0 where
  pub cron : String
  pub action : Option String
  pub label : Option String
  pub enabled : Option Bool

pub record UpdateAppSchedule : Type 0 where
  pub cron : Option String
  pub action : Option String
  pub label : Option String
  pub enabled : Option Bool

-- The data of a job: the schedule, the application, and the action.
pub record ScheduleJob : Type 0 where
  pub schedule_id : String
  pub app_name : String
  pub action : String

abbrev pub job_key : String → String
job_key id = "schedule:" <> id

abbrev pub job_of : AppSchedule → ScheduleJob
job_of s = record { schedule_id = s.id; app_name = s.app_name; action = s.action }

abbrev pub apply_dto : UpdateAppSchedule → AppSchedule → AppSchedule
apply_dto dto s = record s {
  cron = or_else dto.cron s.cron;
  action = or_else dto.action s.action;
  label = elim dto.label [ none ↦ s.label | some l ↦ some l ];
  enabled = or_else dto.enabled s.enabled;
}

module _ ⦃db : Database⦄ ⦃bull : JobQueue⦄ where
  open db use {Table, rows, create, update_many, delete_many}
  open bull use {Queue}

  -- The names of the configured applications, the schedules, and the queue.
  pub record Schedules : Type 0 where
    pub apps : List String
    pub schedules : Table AppSchedule
    pub queue : Queue ScheduleJob

  -- A call of the queue, which may throw.
  abbrev pub on_queue : Handler (Queue ScheduleJob) (Unit {0}) → Handler Schedules (Unit {0})
  on_queue m s = let r = m s.queue in (r.0, record s { queue = r.1 })

  abbrev pub register_if_enabled : AppSchedule → Handler (Queue ScheduleJob) (Unit {0})
  unfolding register
  register_if_enabled t = if t.enabled then register (job_key t.id) t.cron (job_of t) else pure tt

  abbrev register_all : List AppSchedule → Handler (Queue ScheduleJob) (Unit {0})
  unfolding register_if_enabled
  register_all [] = pure tt
  register_all (t ∷ ts) = do register_if_enabled t; register_all ts

  unfoldable pub on_module_init : Handler Schedules (Unit {0})
  unfolding register_all
  on_module_init s = on_queue (register_all (rows s.schedules)) s

  -- What is stored stays if the registration throws.
  abbrev registered : AppSchedule → Handler Schedules AppSchedule
  unfolding register_if_enabled
  registered t = do on_queue (register_if_enabled t); pure t

  unfoldable pub create_schedule :
      String → String → CreateAppSchedule → Handler Schedules AppSchedule
  unfolding registered
  create_schedule new_id app_name dto s =
      let t : AppSchedule = record {
        id = new_id;
        app_name = app_name;
        cron = dto.cron;
        action = or_else dto.action "restart";
        enabled = or_else dto.enabled true;
        label = dto.label;
        last_ran_at = none;
      } in
      if any (λ a. str_eq a app_name) s.apps
      then registered t (record s { schedules = create t s.schedules })
      else throw (not_found "App not found") s

  unfoldable pub update_schedule : String → UpdateAppSchedule → Handler Schedules AppSchedule
  unfolding unregister registered
  update_schedule id dto s = elim (find_first (λ (t : AppSchedule). str_eq t.id id) s.schedules) [
    | none ↦ throw (not_found "Schedule not found") s
    | some existing ↦ registered (apply_dto dto existing) (record s {
      schedules = update_many (λ (o : AppSchedule). str_eq o.id id) (apply_dto dto) s.schedules;
      queue = unregister (job_key id) s.queue;
    })
  ]

  -- The job goes first, also where there is no row and the deletion throws.
  unfoldable pub delete_schedule : String → Handler Schedules (Unit {0})
  unfolding unregister
  delete_schedule id s =
      let s' = record s { queue = unregister (job_key id) s.queue } in
      elim (find_first (λ (t : AppSchedule). str_eq t.id id) s.schedules) [
        | none ↦ (err record_missing, s')
        | some t ↦ (
          ok tt,
          record s' { schedules = delete_many (λ (o : AppSchedule). str_eq o.id id) s.schedules },
        )
      ]
