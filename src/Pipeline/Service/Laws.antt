-- ===== src/Pipeline/Service/Laws.antt =====
-- What the operations on pipelines do to the schedule and to the runs.
use hamyar_ops.Base.{
  ◌≡◌, ◌∙◌, refl, ap, String, Bool, true, false, ◌&&◌, ◌||◌, not, Option, none, some, List, [], ◌∷◌,
  ◌++◌, arith, str_eq, is_text, truthy, every, any, keep, eq_iff, JsText, Bool-cases, sym, inl, inr,
  append_assoc, append-nil,
}
use hamyar_ops.Prisma.{Database, find_first}
use hamyar_ops.Http.{bad_request, not_found, ok, err}
use hamyar_ops.Bull.{JobQueue, Repeatable}
use hamyar_ops.Pipeline.State.{
  Trigger, pending, Pipeline, Run, Step, JobData, of_run, is_schedule, Pipelines,
}
use hamyar_ops.Pipeline.Service.{
  Request, UpdatePipeline, remove_runs, unschedule, find_pipeline, delete_pipeline, update_pipeline,
}
use hamyar_ops.Pipeline.Service.Runs.{
  to_step_names, trigger_run, new_steps, create_all, handle_webhook,
}

-- No entry is named "run".
abbrev pub no_runs : List (Repeatable JobData) → Bool
no_runs = every (λ e. not (str_eq e.name "run"))

-- Removing the entries of a key, as one pass over the list.
abbrev without_key : String → List (Repeatable JobData) → List (Repeatable JobData)
without_key k = keep (λ e. not (str_eq e.key k))

-- Every entry named "run" has a key among those of the entries to come.
abbrev covered : List (Repeatable JobData) → List (Repeatable JobData) → Bool
covered es =
    every
      (λ e. not (str_eq e.name "run") || any (λ t. str_eq t.key e.key && str_eq t.name "run") es)

covered_drop :
    (e : Repeatable JobData) (es xs : List (Repeatable JobData))
    → covered (e ∷ es) xs ≡ true
    → covered es (without_key e.key xs) ≡ true
covered_drop e es [] h = refl
covered_drop e es (x ∷ xs) h =
    ground (arith, eq_iff e.key x.key, eq_iff x.key e.key, covered_drop e es xs)

covered_same :
    (e : Repeatable JobData) (es xs : List (Repeatable JobData))
    → str_eq e.name "run" ≡ false
    → covered (e ∷ es) xs ≡ true
    → covered es xs ≡ true
covered_same e es [] n h = refl
covered_same e es (x ∷ xs) n h = ground (arith, covered_same e es xs n)

covered_more :
    (e : Repeatable JobData) (es xs : List (Repeatable JobData))
    → covered es xs ≡ true
    → covered (e ∷ es) xs ≡ true
covered_more e es [] h = refl
covered_more e es (x ∷ xs) h = ground (arith, covered_more e es xs)

covered_self : (xs : List (Repeatable JobData)) → covered xs xs ≡ true
covered_self [] = refl
covered_self (x ∷ xs) = ground (arith, eq_iff x.key x.key, covered_more x xs xs (covered_self xs))

no_runs_of_covered : (xs : List (Repeatable JobData)) → covered [] xs ≡ true → no_runs xs ≡ true
no_runs_of_covered [] h = refl
no_runs_of_covered (x ∷ xs) h = ground (arith, no_runs_of_covered xs)

module _ ⦃db : Database⦄ ⦃bull : JobQueue⦄ ⦃js : JsText⦄ (req : Request) where
  open db use {rows}
  open bull use {Queue, repeatable, remove_repeatable, waiting}

  remove_runs_all :
      (es : List (Repeatable JobData)) (q : Queue JobData)
      → covered es (repeatable q) ≡ true
      → no_runs (repeatable (remove_runs req es q)) ≡ true
  unfolding remove_runs
  remove_runs_all [] q h = no_runs_of_covered (repeatable q) h
  remove_runs_all (e ∷ es) q h = elim (Bool-cases (str_eq e.name "run")) [
    | inl run ↦ rw run (
        remove_runs_all es (remove_repeatable e.key q)
          (rw bull.repeatable-remove (covered_drop e es (repeatable q) h)))
    | inr other ↦ rw other (remove_runs_all es q (covered_same e es (repeatable q) other h))
  ]

  unschedule_all :
      (p : Pipeline) (q : Queue JobData)
      → is_schedule p.trigger ≡ true
      → truthy p.cron ≡ true
      → no_runs (repeatable (unschedule req p q)) ≡ true
  unfolding unschedule
  unschedule_all p q scheduled timed =
      rw (scheduled, timed) (remove_runs_all (repeatable q) q (covered_self (repeatable q)))

  delete_pipeline-queue :
      (id : String) (p : Pipeline) (s : Pipelines)
      → find_first (λ (p : Pipeline). str_eq p.id id) s.pipelines ≡ some p
      → (delete_pipeline req id s).1.queue ≡ unschedule req p s.queue
  unfolding delete_pipeline
  delete_pipeline-queue id p s found = rw (found, find_pipeline)

  -- Deleting one pipeline that has a schedule leaves no repeatable job that runs a pipeline: the
  -- schedules of all the other pipelines are removed with it.
  pub delete_unschedules_all :
      (id : String) (p : Pipeline) (s : Pipelines)
      → find_first (λ (p : Pipeline). str_eq p.id id) s.pipelines ≡ some p
      → is_schedule p.trigger ≡ true
      → truthy p.cron ≡ true
      → no_runs (repeatable (delete_pipeline req id s).1.queue) ≡ true
  delete_unschedules_all id p s found scheduled timed =
      rw (delete_pipeline-queue id p s found) (unschedule_all p s.queue scheduled timed)

  -- A change of a pipeline, whatever it changes, leaves the queue: a new cron expression, or a
  -- pipeline that is no longer on a schedule, does not reach the repeatable jobs.
  pub queue-update_pipeline :
      (id : String) (dto : UpdatePipeline) (s : Pipelines)
      → (update_pipeline req id dto s).1.queue ≡ s.queue
  unfolding update_pipeline
  queue-update_pipeline id dto s = ground arith

  -- A webhook whose token no pipeline has, or whose pipeline is disabled, is refused, and nothing
  -- changes.
  pub handle_webhook_refused :
      (token : String) (ref sha branch : Option String) (s : Pipelines)
      → (find_first (λ (p : Pipeline). is_text p.webhook_token token) s.pipelines ≡ none
          → handle_webhook req token ref sha branch s ≡ (err (not_found "Pipeline not found"), s))
        × ((p : Pipeline)
            → find_first (λ (p : Pipeline). is_text p.webhook_token token) s.pipelines ≡ some p
            → p.enabled ≡ false
            → handle_webhook req token ref sha branch s
              ≡ (err (bad_request "Pipeline is disabled"), s))
  unfolding handle_webhook
  handle_webhook_refused token ref sha branch s = (λ h. ground arith, λ p h off. ground arith)

  rows-create_all : (xs : List Step) (t : db.Table Step) → rows (create_all req xs t) ≡ rows t ++ xs
  rows-create_all [] t = sym (append-nil (rows t))
  rows-create_all (x ∷ xs) t =
      rows-create_all xs (db.create x t)
      ∙ (ap (λ l. l ++ xs) (db.rows-create x t) ∙ append_assoc (rows t) (x ∷ []) xs)

  -- Triggering a known pipeline adds one pending run of it, its pending steps in the order of the
  -- build mode, and one job that executes the run; the pipelines and the repeatable jobs stay.
  pub trigger_run_lem :
      (id : String) (trigger : Trigger) (sha branch : Option String) (p : Pipeline)
      (s s' : Pipelines) (run : Run)
      → find_first (λ (p : Pipeline). str_eq p.id id) s.pipelines ≡ some p
      → trigger_run req id trigger sha branch s ≡ (ok run, s')
      → (rows s'.runs ≡ rows s.runs ++ run ∷ [])
        × (run.id ≡ req.new_id)
        × (run.pipeline_id ≡ id)
        × (run.status ≡ pending)
        × (rows s'.steps ≡ rows s.steps ++ new_steps req 0 (to_step_names p.build_mode))
        × (waiting s'.queue ≡ waiting s.queue ++ ("run", of_run run.id) ∷ [])
        × (repeatable s'.queue ≡ repeatable s.queue)
        × (s'.pipelines ≡ s.pipelines)
  unfolding trigger_run
  trigger_run_lem id trigger sha branch p s s' run found h = ground (
    arith,
    db.rows-create run s.runs,
    rows-create_all (new_steps req 0 (to_step_names p.build_mode)) s.steps,
    bull.waiting-add "run" (of_run req.new_id) s.queue,
    bull.repeatable-add "run" (of_run req.new_id) s.queue,
  )
