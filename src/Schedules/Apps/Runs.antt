-- ===== src/Schedules/Apps/Runs.antt =====
-- scheduler.processor.ts: what a job of the scheduler does. PM2 is a parameter; the logged line is
-- left out.
use hamyar_ops.Base.{ℕ, String, none, some, if◌then◌else◌, str_eq}
use hamyar_ops.Prisma.{Database, find_first}
use hamyar_ops.Http.{record_missing, ok, err, Handler, ◌>>◌}
use hamyar_ops.Bull.{JobQueue}
use hamyar_ops.Schedules.Apps.{AppSchedule, ScheduleJob, Schedules}

-- The operations of PM2, each of which may fail.
pub record Pm2 (World : Type 0) : Type 0 where
  pub restart : String → Handler World (Unit {0})
  pub reload : String → Handler World (Unit {0})
  pub stop : String → Handler World (Unit {0})

abbrev ran_at : ℕ → AppSchedule → AppSchedule
ran_at now t = record t { last_ran_at = some now }

module _ ⦃db : Database⦄ ⦃bull : JobQueue⦄ {World : Type 0} (pm2 : Pm2 World) where
  open db use {rows, update_many}

  pub record Host : Type 0 where
    pub schedules : Schedules
    pub world : World

  unfoldable act : String → String → Handler World (Unit {0})
  act action app w =
      if str_eq action "restart"
      then pm2.restart app w
      else if str_eq action "reload"
      then pm2.reload app w
      else if str_eq action "stop"
      then pm2.stop app w
      else (ok tt, w)

  -- Prisma refuses the update of a schedule that is gone.
  unfoldable note_run : ℕ → String → Handler Schedules (Unit {0})
  note_run now id s = elim (find_first (λ (t : AppSchedule). str_eq t.id id) s.schedules) [
    | none ↦ (err record_missing, s)
    | some t ↦ (
      ok tt,
      record s {
        schedules = update_many (λ (o : AppSchedule). str_eq o.id id) (ran_at now) s.schedules;
      },
    )
  ]

  abbrev on_world : Handler World (Unit {0}) → Handler Host (Unit {0})
  on_world m s = let (r, w) = m s.world in (r, record s { world = w })

  abbrev on_schedules : Handler Schedules (Unit {0}) → Handler Host (Unit {0})
  on_schedules m s = let (r, t) = m s.schedules in (r, record s { schedules = t })

  abbrev run_job : ℕ → ScheduleJob → Handler Host (Unit {0})
  unfolding act note_run
  run_job now j = do on_world (act j.action j.app_name); on_schedules (note_run now j.schedule_id)

  unfoldable pub process : ℕ → String → ScheduleJob → Handler Host (Unit {0})
  unfolding run_job
  process now name j s = if str_eq name "run" then run_job now j s else (ok tt, s)
