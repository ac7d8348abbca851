-- ===== src/Schedules/CronJobs/Crontab.antt =====
-- cron-jobs.service.ts: the entries in the crontab of a managed server, which a shell command adds
-- and removes over SSH, with a key file as in Supervisor/Commands. `bash` is a parameter.
use hamyar_ops.Base.{String, Option, none, some, ◌++◌, str_eq, codes}
use hamyar_ops.Base.Chars.{Text}
use hamyar_ops.Prisma.{Database, find_first}
use hamyar_ops.Http.{not_found, Result, ok, err}
use hamyar_ops.Supervisor.Commands.{Machine, ManagedServer, on_server}
use hamyar_ops.Schedules.CronJobs.{Remote}

unfoldable pub add_cmd : String → String → String → String → Text
add_cmd job_id title cron command =
    codes "(crontab -l 2>/dev/null; echo \"# hamyar:"
    ++ codes job_id
    ++ codes " "
    ++ codes title
    ++ codes "\"; echo \""
    ++ codes cron
    ++ codes " "
    ++ codes command
    ++ codes " # hamyar-id:"
    ++ codes job_id
    ++ codes "\") | crontab -"

unfoldable pub remove_cmd : String → Text
remove_cmd job_id =
    codes "(crontab -l 2>/dev/null | grep -v \"hamyar-id:"
    ++ codes job_id
    ++ codes "\" | grep -v \"hamyar:"
    ++ codes job_id
    ++ codes " \") | crontab -"

module _ ⦃db : Database⦄ (World : Type 0) (exec : Text → World → Result Text × World)
    (key_file : Text) where
  abbrev without_output : Result Text → Result (Unit {0})
  without_output (ok out) = ok tt
  without_output (err e) = err e

  abbrev pub server_of : String → Machine World exec → Option ManagedServer
  server_of id m = find_first (λ (s : ManagedServer). str_eq s.id id) m.servers

  abbrev run_there :
      Text → ManagedServer → Machine World exec → Result (Unit {0}) × Machine World exec
  run_there command s m =
      let (r, m') = on_server World exec (codes "30") key_file command s m in (without_output r, m')

  unfoldable pub add_entry :
      String
      → String
      → String
      → String
      → String
      → Machine World exec
      → Result (Unit {0}) × Machine World exec
  unfolding add_cmd
  add_entry server_id job_id title cron command m = elim (server_of server_id m) [
    | none ↦ (err (not_found "Server not found"), m)
    | some s ↦ run_there (add_cmd job_id title cron command) s m
  ]

  unfoldable pub remove_entry :
      String → String → Machine World exec → Result (Unit {0}) × Machine World exec
  unfolding remove_cmd
  remove_entry server_id job_id m = elim (server_of server_id m) [
    | none ↦ (ok tt, m)
    | some s ↦ run_there (remove_cmd job_id) s m
  ]

  abbrev pub crontabs : Remote
  crontabs = record {
    Crontabs = Machine World exec;
    add_entry = add_entry;
    remove_entry = remove_entry;
  }
