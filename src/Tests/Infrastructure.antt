-- ===== src/Tests/Infrastructure.antt =====
-- Examples of the runs of Terraform.
use hamyar_ops.Base.{◌≡◌, ◌↔◌, ◌⊎◌, refl, true, Option, none, some, List, [], ◌∷◌, ◌++◌, codes}
use hamyar_ops.Base.Chars.{Text, join}
use hamyar_ops.Base.Chars.Numbers.{parse_int}
use hamyar_ops.Infra.Processes.{Stream, Ended, Machine}
use hamyar_ops.Infra.Terraform.{
  RunStatus, PlanSummary, Workspace, TerraformRun, RunJob, run_done, Terraform, find_run, new_run,
}
use hamyar_ops.Infra.Terraform.Summary.{plan_line, parse_plan_summary, parse_plan_summary_found}
use hamyar_ops.Infra.Terraform.Runs.{attempt, line_texts, execute_run}
use hamyar_ops.Infra.Terraform.Runs.Settled.{LastEvent, execute_run_settles}
use hamyar_ops.Tests.Values.{list_database, list_queue}

abbrev some_plan : Text
some_plan = codes "Refreshing\n" ++ plan_line (codes "12") (codes "0") (codes "3") (codes ".")

parse_plan_summary_found_example :
    parse_plan_summary some_plan
    ≡ some (record {
      to_add = parse_int (codes "12");
      to_change = parse_int (codes "0");
      to_destroy = parse_int (codes "3");
    })
parse_plan_summary_found_example =
    parse_plan_summary_found (codes "Refreshing\n") (codes "12") (codes "0") (codes "3") (codes ".")
      refl (refl, refl) (refl, refl) (refl, refl)

-- A machine whose files can be written, and whose processes print a plan and succeed.
instance abbrev planning_machine : Machine
planning_machine = record {
  World = Unit {0};
  join_path = λ a b. a ++ codes "/" ++ b;
  write_file = λ p t w. (none, w);
  make_dir = λ p w. (none, w);
  exists = λ p w. true;
  remove_dir = λ p w. w;
  unlink = λ p w. w;
  spawn = λ program args w.
      (record { chunks = (some_plan, Stream.stdout) ∷ []; ended = Ended.closed 0 }, w);
}

abbrev home_workspace : Workspace
home_workspace = record {
  id = "w1";
  name = codes "dns";
  working_dir = codes "/tf/dns";
  state_backend = "local";
  s3_config_id = none;
  s3_key = none;
  variables = (codes "zone", codes "example.org") ∷ [];
}

abbrev with_runs :
    List TerraformRun
    → Terraform ⦃db = list_database⦄ ⦃bull = list_queue⦄ ⦃machine = planning_machine⦄
with_runs rs = record {
  workspaces = home_workspace ∷ [];
  runs = rs;
  s3_configs = [];
  queue = ([], []);
  bus = [];
  world = tt;
}

abbrev waiting_run : TerraformRun
waiting_run = new_run "r1" "w1" (codes "plan")

execute_run_settles_example :
    (done : TerraformRun) × (find_run "r1" (execute_run 9 "r1" (with_runs (waiting_run ∷ [])))
      ≡ some done)
    × ((done.status ≡ RunStatus.success) ⊎ (done.status ≡ RunStatus.failed))
    × ((done.status ≡ RunStatus.success)
        ↔ ((attempt (with_runs (waiting_run ∷ [])) home_workspace waiting_run).failure ≡ none))
    × (done.finished_at ≡ some 9)
    × ((output : Text) × (done.output ≡ some output)
        × ((((attempt (with_runs (waiting_run ∷ [])) home_workspace waiting_run).failure ≡ none)
              × (output
                  ≡ join b'\n' (
                      line_texts
                        (attempt (with_runs (waiting_run ∷ [])) home_workspace waiting_run).lines)))
            ⊎ ((message : Text) × ((attempt
                    (with_runs (waiting_run ∷ []))
                    home_workspace
                    waiting_run).failure
                  ≡ some message)
                × (output
                    ≡ join b'\n' (
                        line_texts
                          (attempt (with_runs (waiting_run ∷ [])) home_workspace waiting_run).lines)
                      ++ codes "\n✗ "
                      ++ message))))
    × ((summary : Option PlanSummary) × LastEvent
          (run_done "r1" "w1" done.status summary)
          (execute_run 9 "r1" (with_runs (waiting_run ∷ []))).bus)
execute_run_settles_example =
    execute_run_settles 9 "r1" waiting_run home_workspace (with_runs (waiting_run ∷ [])) refl refl

abbrev job_of_run : RunJob
job_of_run = record { run_id = "r1"; workspace_id = "w1"; command = codes "plan" }
