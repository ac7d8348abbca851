-- ===== src/Pipeline/Service/Runs.antt =====
-- Starting runs of a pipeline, by hand, by a webhook or as a rollback: pipeline.service.ts.
use hamyar_ops.Base.{
  ℕ, suc, String, ◌&&◌, not, Option, none, some, List, [], ◌∷◌, if◌then◌else◌, str_eq, is_text, ltb,
  keep, JsText,
}
use hamyar_ops.Prisma.{Database, find_first}
use hamyar_ops.Http.{bad_request, not_found, ok, Handler, throw, ◌>>=◌}
use hamyar_ops.Bull.{JobQueue}
use hamyar_ops.Pipeline.State.{
  Trigger, webhook, rollback, BuildMode, ci, locally, remotely, pending, StepName, build, push,
  deploy, verify, roll_back, Pipeline, Run, Step, of_run, is_success, Pipelines,
}
use hamyar_ops.Pipeline.Service.{Request, find_pipeline}

unfoldable pub to_step_names : BuildMode → List StepName
to_step_names ci = deploy ∷ verify ∷ []
to_step_names locally = build ∷ push ∷ deploy ∷ verify ∷ []
to_step_names remotely = build ∷ push ∷ deploy ∷ verify ∷ []

-- The most recently started of the runs, the first one among equals.
unfoldable pub latest : List Run → Option Run
latest [] = none
latest (r ∷ rs) = elim (latest rs) [
  | none ↦ some r
  | some t ↦ if ltb r.started_at t.started_at then some t else some r
]

module _ ⦃db : Database⦄ ⦃bull : JobQueue⦄ ⦃js : JsText⦄ (req : Request) where
  open db use {rows, create}
  open bull use {add}

  -- The steps of a new run, in the order of their names.
  abbrev pub new_steps : ℕ → List StepName → List Step
  new_steps i [] = []
  new_steps i (n ∷ ns) =
      record {
        id = req.step_id i;
        run_id = req.new_id;
        name = n;
        status = pending;
        output = none;
        started_at = req.now;
        finished_at = none;
      }
      ∷ new_steps (suc i) ns

  abbrev pub create_all : List Step → db.Table Step → db.Table Step
  create_all [] t = t
  create_all (x ∷ xs) t = create_all xs (create x t)

  -- A new run with its steps, and the job that executes it.
  unfoldable pub start_run :
      String → Trigger → Option String → Option String → List StepName → Handler Pipelines Run
  start_run pipeline_id trigger commit_sha branch names s =
      let run : Run = record {
        id = req.new_id;
        pipeline_id = pipeline_id;
        status = pending;
        trigger = trigger;
        commit_sha = commit_sha;
        branch = branch;
        started_at = req.now;
        finished_at = none;
      } in
      (
        ok run,
        record s {
          runs = create run s.runs;
          steps = create_all (new_steps 0 names) s.steps;
          queue = add "run" (of_run run.id) s.queue;
        },
      )

  unfoldable pub trigger_run :
      String → Trigger → Option String → Option String → Handler Pipelines Run
  unfolding find_pipeline start_run to_step_names
  trigger_run pipeline_id trigger commit_sha branch = do
    p ← find_pipeline req pipeline_id
    start_run pipeline_id trigger commit_sha branch (to_step_names p.build_mode)

  -- `payload.branch ?? (payload.ref ? payload.ref.replace('refs/heads/', '') : undefined)`
  abbrev branch_of : Option String → Option String → Option String
  branch_of (some branch) ref = some branch
  branch_of none none = none
  branch_of none (some ref) = if str_eq ref "" then none else some (js.replace ref "refs/heads/" "")

  unfoldable pub handle_webhook :
      String → Option String → Option String → Option String → Handler Pipelines Run
  unfolding trigger_run
  handle_webhook token ref sha branch s =
      elim (find_first (λ (p : Pipeline). is_text p.webhook_token token) s.pipelines) [
        | none ↦ throw (not_found "Pipeline not found") s
        | some p ↦
            if not p.enabled
            then throw (bad_request "Pipeline is disabled") s
            else trigger_run p.id webhook sha (branch_of branch ref) s
      ]

  abbrev commit_of : Option Run → Option String
  commit_of none = none
  commit_of (some r) = r.commit_sha

  abbrev branch_of_run : Option Run → Option String
  branch_of_run none = none
  branch_of_run (some r) = r.branch

  unfoldable pub rollback_run : String → Handler Pipelines Run
  unfolding start_run latest
  rollback_run run_id s = elim (find_first (λ (r : Run). str_eq r.id run_id) s.runs) [
    | none ↦ throw (not_found "Run not found") s
    | some failed_run ↦
        let prev = latest (
          keep (λ r. str_eq r.pipeline_id failed_run.pipeline_id && is_success r.status)
            (rows s.runs)) in
        start_run failed_run.pipeline_id rollback (commit_of prev) (branch_of_run prev)
          (roll_back ∷ []) s
  ]
