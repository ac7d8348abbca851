-- ===== src/Schedules/CronJobs/Runs.antt =====
-- `runNow` of cron-jobs.service.ts: a job that is run at once, here or over SSH. The duration is left
-- out.
use hamyar_ops.Base.{ℕ, String, Option, none, some, if◌then◌else◌, or_else, truthy, codes}
use hamyar_ops.Base.Chars.{Text}
use hamyar_ops.Prisma.{Database}
use hamyar_ops.Bull.{JobQueue}
use hamyar_ops.Http.{not_found, Result, ok, Handler, pure, throw, modify, ◌>>=◌, ◌>>◌}
use hamyar_ops.Supervisor.Commands.{Machine, ManagedServer, given, ssh_cmd, with_key, without_key}
use hamyar_ops.Schedules.CronJobs.{CronJob, CommandResult, CronJobs, find_job, finish_run}
use hamyar_ops.Schedules.CronJobs.Crontab.{crontabs, server_of}

module _ ⦃db : Database⦄ ⦃bull : JobQueue⦄ (World : Type 0)
    (exec : Text → World → Result Text × World) (key_file : Text)
    (run : Text → World → CommandResult × World) where
  abbrev pub Jobs : Type 0
  Jobs = CronJobs (crontabs World exec key_file)

  abbrev on_machine : {A : Type 0} → (Machine World exec → A × Machine World exec) → Handler Jobs A
  on_machine f s = let (a, m) = f s.crontabs in (ok a, record s { crontabs = m })

  -- `execFileAsync('bash', ['-c', command])` and the `catch` that makes an output of its error.
  abbrev bash : Text → Handler Jobs CommandResult
  bash command = on_machine λ m. let (r, w) = run command m.world in (r, record m { world = w })

  unfoldable pub there : ℕ → CronJob → ManagedServer → Handler Jobs CommandResult
  unfolding finish_run
  there now j server = do
    on_machine λ m. (tt, with_key World exec key_file (given server.ssh_key_id) m)
    r ← bash (ssh_cmd (codes "30") server key_file (codes j.command))
    modify (finish_run (crontabs World exec key_file) now r j.id)
    on_machine λ m. (tt, without_key World exec key_file (given server.ssh_key_id) m)
    pure r

  unfoldable pub here : ℕ → CronJob → Handler Jobs CommandResult
  unfolding finish_run
  here now j = do
    r ← bash (codes j.command)
    modify (finish_run (crontabs World exec key_file) now r j.id)
    pure r

  unfoldable pub on_found : ℕ → CronJob → Option ManagedServer → Handler Jobs CommandResult
  unfolding there
  on_found now j none = throw (not_found "Server not found")
  on_found now j (some server) = there now j server

  unfoldable pub run_found : ℕ → CronJob → Handler Jobs CommandResult
  unfolding here on_found
  run_found now j s =
      if truthy j.server_id
      then on_found now j (server_of World exec key_file (or_else j.server_id "") s.crontabs) s
      else here now j s

  unfoldable pub run_now : ℕ → String → Handler Jobs CommandResult
  unfolding find_job run_found
  run_now now id = do j ← find_job (crontabs World exec key_file) id; run_found now j
