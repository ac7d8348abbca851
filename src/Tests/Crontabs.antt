-- ===== src/Tests/Crontabs.antt =====
-- Examples of cron jobs over SSH.
use hamyar_ops.Base.{ℕ, ◌+◌, refl, none, some, [], ◌∷◌, false, codes}
use hamyar_ops.Base.Chars.{Text}
use hamyar_ops.Http.{Result, err, error}
use hamyar_ops.Supervisor.Commands.{Machine}
use hamyar_ops.Schedules.CronJobs.{
  CreateCronJob, UpdateCronJob, CommandResult, CronJobs, create_job, update_job,
}
use hamyar_ops.Schedules.CronJobs.Crontab.{crontabs}
use hamyar_ops.Schedules.CronJobs.Runs.{run_now}
use hamyar_ops.Schedules.CronJobs.KeyFiles.{NoKey}
use hamyar_ops.Schedules.CronJobs.Histories.{
  History, unchanged, changed, created, updated, ran, History-NoKey,
}
use hamyar_ops.Tests.Values.{list_database, list_queue}

-- A network on which no server answers; the world counts the attempts.
abbrev no_answer : Text → ℕ → Result Text × ℕ
no_answer command n = (err (error "timed out"), n + 1)

abbrev no_run : Text → ℕ → CommandResult × ℕ
no_run command n = (record { output = "timed out"; exit_ok = false }, n + 1)

abbrev key_path : Text
key_path = codes "/tmp/key"

abbrev one_remote : Machine ℕ no_answer
one_remote = record {
  servers =
      record {
        id = "s1";
        host = codes "10.0.0.1";
        port = codes "22";
        username = codes "root";
        ssh_key_id = some "k1";
      }
      ∷ [];
  ssh_keys = record { id = "k1"; private_key = codes "secret" } ∷ [];
  temp_files = λ p. none;
  world = 0;
}

abbrev no_crons : CronJobs (crontabs ℕ no_answer key_path)
no_crons = record { jobs = []; queue = ([], []); crontabs = one_remote; events = [] }

abbrev remote_sweep : CreateCronJob
remote_sweep = record {
  server_id = some "s1";
  title = "sweep";
  command = "rm -r /tmp/x";
  cron_expression = "0 5 * * *";
  enabled = none;
}

abbrev at_noon : UpdateCronJob
at_noon = record {
  title = none;
  command = none;
  cron_expression = some "0 12 * * *";
  enabled = none;
}

abbrev one_cron : CronJobs (crontabs ℕ no_answer key_path)
unfolding create_job
one_cron = (create_job (crontabs ℕ no_answer key_path) "j1" remote_sweep no_crons).1

abbrev changed_cron : CronJobs (crontabs ℕ no_answer key_path)
unfolding update_job
changed_cron = (update_job (crontabs ℕ no_answer key_path) "j1" at_noon one_cron).1

abbrev run_cron : CronJobs (crontabs ℕ no_answer key_path)
unfolding run_now
run_cron = (run_now ℕ no_answer key_path no_run 7 "j1" changed_cron).1

create_change_run : History ℕ no_answer key_path no_run no_crons run_cron
unfolding one_cron changed_cron run_cron
create_change_run = changed no_crons one_cron run_cron (created "j1" remote_sweep refl) (
    changed one_cron changed_cron run_cron (updated "j1" at_noon)
      (changed changed_cron run_cron run_cron (ran 7 "j1") (unchanged run_cron)))

History-NoKey_example : NoKey ℕ no_answer key_path key_path run_cron
History-NoKey_example =
    History-NoKey ℕ no_answer key_path no_run key_path no_crons run_cron create_change_run refl
