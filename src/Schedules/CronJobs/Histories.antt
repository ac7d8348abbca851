-- ===== src/Schedules/CronJobs/Histories.antt =====
-- cron-jobs.service.ts: the requests and the runs of cron jobs in any order, with the crontabs of
-- managed servers over SSH.
use hamyar_ops.Base.{ℕ, ◌≡◌, String, none, str_eq, Bool-cases, Option-cases, inl, inr}
use hamyar_ops.Base.Chars.{Text}
use hamyar_ops.Prisma.{Database, find_first}
use hamyar_ops.Bull.{JobQueue}
use hamyar_ops.Http.{Result}
use hamyar_ops.Schedules.CronJobs.{
  CronJob, CreateCronJob, UpdateCronJob, CommandResult, CronJobs, create_job, update_job,
  delete_job, execute_job, finish_run,
}
use hamyar_ops.Schedules.CronJobs.Crontab.{crontabs}
use hamyar_ops.Schedules.CronJobs.Runs.{run_now}
use hamyar_ops.Schedules.CronJobs.KeyFiles.{
  NoKey, create_job-NoKey, update_job-NoKey, delete_job-NoKey, run_now-NoKey,
}

module _ ⦃db : Database⦄ ⦃bull : JobQueue⦄ (World : Type 0)
    (exec : Text → World → Result Text × World) (key_file : Text)
    (run : Text → World → CommandResult × World) where
  abbrev Service : Type 0
  Service = CronJobs (crontabs World exec key_file)

  -- A job of the queue keeps what the end of a run keeps.
  executed_keeps :
      (I : Service → Type 0) (now : ℕ) (answer : String → CommandResult) (id : String) (s : Service)
      → ((r : CommandResult) → I (finish_run (crontabs World exec key_file) now r id s))
      → I s
      → I (execute_job (crontabs World exec key_file) now answer id s)
  unfolding execute_job
  executed_keeps I now answer id s k h =
      elim (Option-cases (find_first (λ (j : CronJob). str_eq j.id id) s.jobs)) [
        | inl absent ↦ rw (absent, execute_job) h
        | inr (j, found) ↦ elim (Bool-cases j.enabled) [
          | inl on ↦ rw (found, execute_job, on) (k (answer j.command))
          | inr off ↦ rw (found, execute_job, off) h
        ]
      ]

  -- A request that is answered or refused, or a run. A new job has an id that no job has.
  pub data Change (s : Service) : Service → Type 0 where
    created :
        (id : String) (dto : CreateCronJob)
        → find_first (λ (j : CronJob). str_eq j.id id) s.jobs ≡ none
        → Change s (create_job (crontabs World exec key_file) id dto s).1
    updated :
        (id : String) (dto : UpdateCronJob)
        → Change s (update_job (crontabs World exec key_file) id dto s).1
    deleted : (id : String) → Change s (delete_job (crontabs World exec key_file) id s).1
    executed :
        (now : ℕ) (answer : String → CommandResult) (id : String)
        → Change s (execute_job (crontabs World exec key_file) now answer id s)
    ran : (now : ℕ) (id : String) → Change s (run_now World exec key_file run now id s).1

  pub data History : Service → Service → Type 0 where
    unchanged : (s : Service) → History s s
    changed : (s t u : Service) → Change s t → History t u → History s u

  Change-NoKey :
      (p : Text) (s t : Service)
      → Change s t
      → NoKey World exec key_file p s
      → NoKey World exec key_file p t
  unfolding finish_run
  Change-NoKey p s _ (created id dto fresh) h = create_job-NoKey World exec key_file p id dto s h
  Change-NoKey p s _ (updated id dto) h = update_job-NoKey World exec key_file p id dto s h
  Change-NoKey p s _ (deleted id) h = delete_job-NoKey World exec key_file p id s h
  Change-NoKey p s _ (executed now answer id) h =
      executed_keeps (NoKey World exec key_file p) now answer id s (λ r. h) h
  Change-NoKey p s _ (ran now id) h = run_now-NoKey World exec key_file p run now id s h

  -- Whatever cron jobs are created, changed, deleted and run, in any order, no path that was free
  -- holds a private key afterwards, also where a server cannot be reached: the key files that were
  -- written for the crontabs and the commands are gone.
  pub History-NoKey :
      (p : Text) (s t : Service)
      → History s t
      → NoKey World exec key_file p s
      → NoKey World exec key_file p t
  History-NoKey p s _ (unchanged _) h = h
  History-NoKey p s _ (changed _ t u one more) h =
      History-NoKey p t u more (Change-NoKey p s t one h)
