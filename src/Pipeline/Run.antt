-- ===== src/Pipeline/Run.antt =====
-- `executeRun` of pipeline.service.ts. The order in which the database returns the steps of a run is
-- an argument, since the code asks for the order of `startedAt`, which steps can share.
pub mod Statuses
pub mod Outcomes
use hamyar_ops.Base.{
  ℕ, String, Bool, true, false, ◌&&◌, not, Option, none, some, List, [], ◌∷◌, ◌++◌, map,
  if◌then◌else◌, str_eq, keep, any,
}
use hamyar_ops.Prisma.{Database, find_first}
use hamyar_ops.Bull.{JobQueue}
use hamyar_ops.Pipeline.State.{
  Status, pending, running, success, failed, StepName, Pipeline, Run, Step, Event, step_event,
  log_event, done_event, is_pending, Pipelines,
}
use hamyar_ops.Pipeline.Steps.{Commands, Outcome, returned, thrown, Logged, execute_step}

module _ ⦃db : Database⦄ ⦃bull : JobQueue⦄ where
  open db use {rows, update_many}

  abbrev pub emit : Event → Pipelines → Pipelines
  emit e s = record s { events = s.events ++ e ∷ [] }

  abbrev pub emit_all : List Event → Pipelines → Pipelines
  emit_all es s = record s { events = s.events ++ es }

  abbrev pub update_step : String → (Step → Step) → Pipelines → Pipelines
  update_step id f s = record s { steps = update_many (λ t. str_eq t.id id) f s.steps }

  abbrev pub update_run : String → (Run → Run) → Pipelines → Pipelines
  update_run id f s = record s { runs = update_many (λ r. str_eq r.id id) f s.runs }

module _ ⦃db : Database⦄ ⦃bull : JobQueue⦄ (cmd : Commands) (now : ℕ) where
  open db use {rows, update_many}

  abbrev pub output_of : Outcome → String
  output_of (returned text) = text
  output_of (thrown message) = message

  abbrev pub has_returned : Outcome → Bool
  has_returned (returned text) = true
  has_returned (thrown message) = false

  abbrev pub status_of : Outcome → Status
  status_of o = if has_returned o then success else failed

  -- The first part of the loop's body: the step is marked RUNNING.
  unfoldable pub start_step : String → Pipeline → Step → Pipelines → Pipelines
  start_step run_id p step s =
      emit (step_event run_id p.id step.id step.name running)
        (update_step step.id (λ t. record t { status = running; started_at = now }) s)

  -- The second part: the logged lines, and the status with which the step ends.
  unfoldable pub finish_step : String → Pipeline → Step → Logged → Pipelines → Pipelines
  finish_step run_id p step (lines, result) s =
      emit (step_event run_id p.id step.id step.name (status_of result)) (
        update_step step.id
          (λ t. record t {
            status = status_of result;
            output = some (output_of result);
            finished_at = some now;
          })
          (emit_all (map (λ line. log_event run_id p.id step.id step.name line) lines) s))

  -- `run.steps.filter(s => s.id !== step.id && s.status === 'PENDING')`, on the steps as they were
  -- read before the loop.
  abbrev pub remaining_steps : Step → List Step → List Step
  remaining_steps step all = keep (λ t. not (str_eq t.id step.id) && is_pending t.status) all

  abbrev pub is_listed : List Step → Step → Bool
  is_listed remaining t = any (λ r. str_eq r.id t.id) remaining

  -- What follows a failed step.
  unfoldable pub fail_run : String → Pipeline → Step → List Step → Pipelines → Pipelines
  fail_run run_id p step all s =
      let ended = record s {
        steps =
            update_many (is_listed (remaining_steps step all))
              (λ t. record t { status = failed; finished_at = some now }) s.steps;
      } in
      emit (done_event run_id p.id failed)
        (update_run run_id (λ r. record r { status = failed; finished_at = some now }) ended)

  unfoldable pub succeed_run : String → Pipeline → Pipelines → Pipelines
  succeed_run run_id p s =
      emit (done_event run_id p.id success)
        (update_run run_id (λ r. record r { status = success; finished_at = some now }) s)

  -- The loop over the steps that are left, with all the steps of the run.
  unfoldable pub run_steps : String → Pipeline → List Step → List Step → Pipelines → Pipelines
  unfolding start_step finish_step fail_run succeed_run
  run_steps run_id p all [] s = succeed_run run_id p s
  run_steps run_id p all (step ∷ rest) s =
      let logged = execute_step cmd step.name p in
      let s' = finish_step run_id p step logged (start_step run_id p step s) in
      let next = run_steps run_id p all rest s' in
      if has_returned logged.1 then next else fail_run run_id p step all s'

  -- The steps of a run, as the query returns them.
  abbrev pub steps_of : (List Step → List Step) → String → Pipelines → List Step
  steps_of ordered run_id s = ordered (keep (λ t. str_eq t.run_id run_id) (rows s.steps))

  unfoldable pub execute_run : (List Step → List Step) → String → Pipelines → Pipelines
  unfolding run_steps
  execute_run ordered run_id s = elim (find_first (λ (r : Run). str_eq r.id run_id) s.runs) [
    | none ↦ s
    | some run ↦ elim (find_first (λ (p : Pipeline). str_eq p.id run.pipeline_id) s.pipelines) [
      | none ↦ s
      | some p ↦
          let all = steps_of ordered run_id s in
          run_steps run_id p all all (update_run run_id (λ r. record r { status = running }) s)
    ]
  ]
