-- ===== src/Tests/Pipelines.antt =====
-- Examples of pipelines and their runs.
use hamyar_ops.Base.{◌≡◌, refl, String, true, false, none, some, List, [], ◌∷◌, if◌then◌else◌}
use hamyar_ops.Http.{ok}
use hamyar_ops.Bull.{Repeatable}
use hamyar_ops.Pipeline.State.{
  manual, schedule, rolling, ci, pending, success, failed, StepName, deploy, verify, Pipeline, Run,
  Step, JobData, of_pipeline, Pipelines,
}
use hamyar_ops.Pipeline.Steps.{
  answered, Commands, returned, status, execute_step, run_build, run_push, run_deploy, run_verify,
  run_rollback, deploy_by, strategy_text, health_result, blue_green_deploy,
}
use hamyar_ops.Pipeline.Run.{execute_run}
use hamyar_ops.Pipeline.Run.Statuses.{step_status, run_status}
use hamyar_ops.Pipeline.Run.Outcomes.{
  IsKnown, all_return, execute_run-run_status, execute_run_success, execute_run_failure,
}
use hamyar_ops.Pipeline.Service.{Request, find_pipeline, delete_pipeline}
use hamyar_ops.Pipeline.Service.Runs.{start_run, trigger_run}
use hamyar_ops.Pipeline.Service.Laws.{no_runs, delete_unschedules_all}
use hamyar_ops.Tests.Values.{list_database, list_queue, plain_text}

abbrev plain_commands : Commands
plain_commands = record {
  remote = λ server command. answered (record { success = true; output = "done"; failure = none });
  docker = λ args. returned "done";
  fetch = λ url. status 200;
  lines = λ text. text ∷ [];
  decimal = λ n. "200";
}

-- A pipeline on a schedule, which deploys to a server, and one that has no server.
abbrev nightly : Pipeline
nightly = record {
  id = "p1";
  name = "nightly";
  app_name = some "api";
  server_id = some "srv";
  trigger = schedule;
  webhook_token = none;
  cron = some "0 3 * * *";
  strategy = rolling;
  build_mode = ci;
  registry_id = none;
  image_tag = none;
  enabled = true;
  context_path = none;
  health_url = none;
}

abbrev nowhere : Pipeline
nowhere = record nightly {
  id = "p2";
  name = "nowhere";
  server_id = none;
  webhook_token = some "token";
  enabled = false;
}

abbrev run_of : String → String → Run
run_of id pipeline_id = record {
  id = id;
  pipeline_id = pipeline_id;
  status = pending;
  trigger = manual;
  commit_sha = none;
  branch = none;
  started_at = 0;
  finished_at = none;
}

abbrev step_of : String → String → StepName → Step
step_of id run_id name = record {
  id = id;
  run_id = run_id;
  name = name;
  status = pending;
  output = none;
  started_at = 0;
  finished_at = none;
}

abbrev nightly_job : Repeatable JobData
nightly_job = record {
  key = "j1";
  name = "run";
  id = none;
  pattern = "0 3 * * *";
  payload = of_pipeline "p1";
}

abbrev pipelines : Pipelines
pipelines = record {
  pipelines = nightly ∷ nowhere ∷ [];
  runs = run_of "r1" "p1" ∷ run_of "r2" "p2" ∷ [];
  steps =
      step_of "t1" "r1" deploy
      ∷ step_of "t2" "r1" verify
      ∷ step_of "t3" "r2" deploy
      ∷ step_of "t4" "r2" verify
      ∷ [];
  queue = (nightly_job ∷ record nightly_job { key = "j2" } ∷ [], []);
  events = [];
}

abbrev as_read : List Step → List Step
as_read ts = ts

nightly-IsKnown : IsKnown plain_commands 10 as_read "r1" (run_of "r1" "p1") nightly pipelines
nightly-IsKnown = record { run_found = refl; pipeline_found = refl }

nowhere-IsKnown : IsKnown plain_commands 10 as_read "r2" (run_of "r2" "p2") nowhere pipelines
nowhere-IsKnown = record { run_found = refl; pipeline_found = refl }

nightly_returns : all_return plain_commands 10 as_read "r1" nightly pipelines ≡ true
unfolding execute_step run_deploy run_verify run_build run_push run_rollback deploy_by strategy_text
    health_result blue_green_deploy
nightly_returns = refl

nowhere_throws : all_return plain_commands 10 as_read "r2" nowhere pipelines ≡ false
unfolding execute_step run_deploy run_verify run_build run_push run_rollback deploy_by strategy_text
    health_result blue_green_deploy
nowhere_throws = refl

execute_run-run_status_example :
    run_status "r1" (execute_run plain_commands 10 as_read "r1" pipelines)
    ≡ some (if all_return plain_commands 10 as_read "r1" nightly pipelines then success else failed)
execute_run-run_status_example =
    execute_run-run_status plain_commands 10 as_read "r1" (run_of "r1" "p1") nightly pipelines
      nightly-IsKnown

execute_run_success_example :
    step_status "t2" (execute_run plain_commands 10 as_read "r1" pipelines) ≡ some success
execute_run_success_example =
    execute_run_success plain_commands 10 as_read "r1" (run_of "r1" "p1") nightly pipelines "t2"
      pending nightly-IsKnown nightly_returns refl refl

execute_run_failure_example :
    step_status "t4" (execute_run plain_commands 10 as_read "r2" pipelines) ≡ some failed
execute_run_failure_example =
    execute_run_failure plain_commands 10 as_read "r2" (run_of "r2" "p2") nowhere pipelines "t4"
      pending nowhere-IsKnown nowhere_throws refl refl

abbrev request : Request
request = record { now = 10; new_id = "r3"; step_id = λ i. "t5"; token = "t" }

delete_unschedules_all_example : no_runs (delete_pipeline request "p1" pipelines).1.queue.0 ≡ true
delete_unschedules_all_example =
    delete_unschedules_all request "p1" nightly pipelines refl refl refl

triggered : trigger_run request "p1" manual none none pipelines ≡ (
  ok (record (run_of "r3" "p1") { started_at = 10 }),
  (trigger_run request "p1" manual none none pipelines).1,
)
unfolding trigger_run find_pipeline start_run
triggered = refl
