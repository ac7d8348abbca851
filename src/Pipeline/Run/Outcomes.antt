-- ===== src/Pipeline/Run/Outcomes.antt =====
-- What `executeRun` of pipeline.service.ts leaves in the rows of the run and of the steps.
use hamyar_ops.Base.{
  ℕ, ◌≡◌, ◌∙◌, refl, ap, String, Bool, true, false, some, List, [], ◌∷◌, arith, if◌then◌else◌,
  str_eq, every, first,
}
use hamyar_ops.Prisma.{Database, find_first}
use hamyar_ops.Bull.{JobQueue}
use hamyar_ops.Pipeline.State.{Status, running, success, failed, Pipeline, Run, Step, Pipelines}
use hamyar_ops.Pipeline.Steps.{Commands}
use hamyar_ops.Pipeline.Run.{update_run, run_steps, steps_of, execute_run}
use hamyar_ops.Pipeline.Run.Statuses.{
  becomes, run_status_in, run_status_in-amend, step_status, run_status, returns, has_id,
  has_pending,
}
use hamyar_ops.Pipeline.Run.Statuses.Loop.{
  run_steps-run_status, run_steps_success, run_steps_failure, run_steps_other,
}

run_status_of_first :
    (k : String) (rs : List Run) (r : Run)
    → first (λ r. str_eq r.id k) rs ≡ some r
    → run_status_in k rs ≡ some r.status
run_status_of_first k [] r h = cc
run_status_of_first k (x ∷ xs) r h = ground (arith, run_status_of_first k xs r)

module _ ⦃db : Database⦄ ⦃bull : JobQueue⦄ (cmd : Commands) (now : ℕ)
    (ordered : List Step → List Step) where
  open db use {rows}

  -- The run and its pipeline are in the tables.
  pub record IsKnown (run_id : String) (run : Run) (p : Pipeline) (s : Pipelines) : Type 0 where
    pub run_found : find_first (λ (r : Run). str_eq r.id run_id) s.runs ≡ some run
    pub pipeline_found :
        find_first (λ (p : Pipeline). str_eq p.id run.pipeline_id) s.pipelines ≡ some p

  -- All steps of the run, in the order of the query, are carried out without an error.
  abbrev pub all_return : String → Pipeline → Pipelines → Bool
  all_return run_id p s = every (returns cmd now p) (steps_of cmd now ordered run_id s)

  execute_run_known :
      (run_id : String) (run : Run) (p : Pipeline) (s : Pipelines)
      → IsKnown run_id run p s
      → execute_run cmd now ordered run_id s
        ≡ run_steps cmd now run_id p
            (steps_of cmd now ordered run_id s)
            (steps_of cmd now ordered run_id s)
            (update_run run_id (λ r. record r { status = running }) s)
  unfolding execute_run
  execute_run_known run_id run p s k =
      rw (k.run_found, execute_run) (rw (k.pipeline_found, execute_run))

  -- The run ends SUCCESS if all its steps are carried out without an error, and FAILED otherwise.
  pub execute_run-run_status :
      (run_id : String) (run : Run) (p : Pipeline) (s : Pipelines)
      → IsKnown run_id run p s
      → run_status run_id (execute_run cmd now ordered run_id s)
        ≡ some (if all_return run_id p s then success else failed)
  execute_run-run_status run_id run p s k = rw (execute_run_known run_id run p s k) (
      run_steps-run_status cmd now run_id p (steps_of cmd now ordered run_id s)
        (steps_of cmd now ordered run_id s) _
      ∙ rw
          (
            db.rows-update_many,
            run_status_in-amend run_id (λ r. record r { status = running }) running (rows s.runs)
                (λ r. refl) (λ r. refl),
          )
          (ap (λ o. becomes (if all_return run_id p s then success else failed) (becomes running o))
            (run_status_of_first run_id (rows s.runs) run k.run_found)))

  -- If every step of the run is carried out without an error, each of them ends SUCCESS.
  pub execute_run_success :
      (run_id : String) (run : Run) (p : Pipeline) (s : Pipelines) (id : String) (v : Status)
      → IsKnown run_id run p s
      → all_return run_id p s ≡ true
      → has_id cmd now id (steps_of cmd now ordered run_id s) ≡ true
      → step_status id s ≡ some v
      → step_status id (execute_run cmd now ordered run_id s) ≡ some success
  execute_run_success run_id run p s id v k good listed row =
      rw (execute_run_known run_id run p s k) (
        run_steps_success cmd now run_id p _ (steps_of cmd now ordered run_id s) _ id good
        ∙ ground arith)

  -- If some step of the run fails, every step that was pending when the run began ends FAILED: those
  -- after the failed one, and also those before it, which were carried out without an error.
  pub execute_run_failure :
      (run_id : String) (run : Run) (p : Pipeline) (s : Pipelines) (id : String) (v : Status)
      → IsKnown run_id run p s
      → all_return run_id p s ≡ false
      → has_pending cmd now id (steps_of cmd now ordered run_id s) ≡ true
      → step_status id s ≡ some v
      → step_status id (execute_run cmd now ordered run_id s) ≡ some failed
  execute_run_failure run_id run p s id v k bad listed row =
      rw (execute_run_known run_id run p s k) (
        run_steps_failure cmd now run_id p _ (steps_of cmd now ordered run_id s) _ id bad listed
        ∙ ap (becomes failed) row)

  -- Whatever the steps do, the rows of steps that the query did not return keep their status.
  pub execute_run_other :
      (run_id : String) (run : Run) (p : Pipeline) (s : Pipelines) (id : String)
      → IsKnown run_id run p s
      → has_id cmd now id (steps_of cmd now ordered run_id s) ≡ false
      → step_status id (execute_run cmd now ordered run_id s) ≡ step_status id s
  execute_run_other run_id run p s id k out = rw (execute_run_known run_id run p s k) (
      run_steps_other cmd now run_id p (steps_of cmd now ordered run_id s)
        (steps_of cmd now ordered run_id s) _ id out out)
