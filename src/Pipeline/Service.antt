-- ===== src/Pipeline/Service.antt =====
-- Creation, change, deletion and triggering of pipelines: pipeline.service.ts. The tokens that are
-- drawn and the ids of created rows are arguments; the results are the rows.
pub mod Laws
pub mod Runs
use hamyar_ops.Base.{
  ℕ, zero, suc, ◌≤◌, String, Bool, true, false, ◌&&◌, not, Option, none, some, List, [], ◌∷◌, ◌++◌,
  if◌then◌else◌, str_eq, is_text, truthy, any, or_else, is_some, ltb, keep, JsText,
}
use hamyar_ops.Prisma.{Database, find_first}
use hamyar_ops.Http.{
  Exception, bad_request, not_found, unique_violation, record_missing, ok, err, Handler, pure,
  throw, modify, ◌>>=◌, ◌>>◌,
}
use hamyar_ops.Bull.{JobQueue, Repeatable}
use hamyar_ops.Pipeline.State.{
  Trigger, manual, webhook, rollback, Strategy, rolling, BuildMode, ci, locally, remotely, Status,
  pending, success, StepName, build, push, deploy, verify, roll_back, Pipeline, Run, Step, JobData,
  of_run, of_pipeline, is_schedule, is_webhook, is_success, Pipelines,
}

pub record CreatePipeline : Type 0 where
  pub name : String
  pub app_name : Option String
  pub server_id : Option String
  pub trigger : Option Trigger
  pub cron : Option String
  pub strategy : Option Strategy
  pub build_mode : Option BuildMode
  pub registry_id : Option String
  pub image_tag : Option String
  pub enabled : Option Bool

-- The partial request of an update: a field left out is `none`.
pub record UpdatePipeline : Type 0 where
  pub name : Option String
  pub app_name : Option (Option String)
  pub server_id : Option (Option String)
  pub trigger : Option Trigger
  pub cron : Option (Option String)
  pub strategy : Option Strategy
  pub build_mode : Option BuildMode
  pub registry_id : Option (Option String)
  pub image_tag : Option (Option String)
  pub enabled : Option Bool

pub record Request : Type 0 where
  pub now : ℕ
  pub new_id : String
  pub step_id : ℕ → String
  pub token : String

abbrev is_webhook_dto : Option Trigger → Bool
is_webhook_dto none = false
is_webhook_dto (some t) = is_webhook t

module _ ⦃db : Database⦄ ⦃bull : JobQueue⦄ ⦃js : JsText⦄ (req : Request) where
  open db use {rows, create, update_many, delete_many}
  open bull use {Queue, repeatable, add, add_repeat, remove_repeatable}

  -- `trigger === 'schedule' && cron && enabled`, and the job that is added then.
  unfoldable pub schedule_job : Pipeline → Handler (Queue JobData) (Unit {0})
  schedule_job p =
      if is_schedule p.trigger && truthy p.cron
      then add_repeat "run" (of_pipeline p.id) (or_else p.cron "") none
      else pure tt

  -- A call of the queue, which may throw.
  abbrev pub on_queue : Handler (Queue JobData) (Unit {0}) → Handler Pipelines (Unit {0})
  on_queue m s = let r = m s.queue in (r.0, record s { queue = r.1 })

  -- The loop that removes the repeatable jobs named "run".
  unfoldable pub remove_runs : List (Repeatable JobData) → Queue JobData → Queue JobData
  remove_runs [] q = q
  remove_runs (e ∷ es) q =
      remove_runs es (if str_eq e.name "run" then remove_repeatable e.key q else q)

  unfoldable pub unschedule : Pipeline → Queue JobData → Queue JobData
  unfolding remove_runs
  unschedule p q =
      if is_schedule p.trigger && truthy p.cron then remove_runs (repeatable q) q else q

  -- `onModuleInit`: the enabled pipelines on a schedule, with a cron expression.
  abbrev register_all : List Pipeline → Handler (Queue JobData) (Unit {0})
  register_all [] = pure tt
  register_all (p ∷ ps) = do (if p.enabled then schedule_job p else pure tt); register_all ps

  unfoldable pub on_module_init : Handler Pipelines (Unit {0})
  unfolding schedule_job
  on_module_init s = on_queue (register_all (rows s.pipelines)) s

  unfoldable pub find_pipeline : String → Handler Pipelines Pipeline
  find_pipeline id s = elim (find_first (λ (p : Pipeline). str_eq p.id id) s.pipelines) [
    | none ↦ throw (not_found "Pipeline not found") s
    | some p ↦ pure p s
  ]

  abbrev new_pipeline : CreatePipeline → Pipeline
  new_pipeline dto = record {
    id = req.new_id;
    name = dto.name;
    app_name = dto.app_name;
    server_id = dto.server_id;
    trigger = or_else dto.trigger manual;
    webhook_token = if is_webhook_dto dto.trigger then some req.token else none;
    cron = dto.cron;
    strategy = or_else dto.strategy rolling;
    build_mode = or_else dto.build_mode ci;
    registry_id = dto.registry_id;
    image_tag = dto.image_tag;
    enabled = or_else dto.enabled true;
    context_path = none;
    health_url = none;
  }

  -- The schema makes the name unique.
  unfoldable pub create_pipeline : CreatePipeline → Handler Pipelines Pipeline
  unfolding schedule_job
  create_pipeline dto s =
      let p = new_pipeline dto in
      if any (λ (o : Pipeline). str_eq o.name dto.name) (rows s.pipelines)
      then (err unique_violation, s)
      else (do on_queue (if p.enabled then schedule_job p else pure tt); pure p)
          (record s { pipelines = create p s.pipelines })

  abbrev apply_update : UpdatePipeline → Pipeline → Pipeline → Pipeline
  apply_update dto existing p = record p {
    name = or_else dto.name p.name;
    app_name = or_else dto.app_name p.app_name;
    server_id = or_else dto.server_id p.server_id;
    trigger = or_else dto.trigger p.trigger;
    webhook_token =
        if is_webhook_dto dto.trigger && not (truthy existing.webhook_token)
        then some req.token
        else p.webhook_token;
    cron = or_else dto.cron p.cron;
    strategy = or_else dto.strategy p.strategy;
    build_mode = or_else dto.build_mode p.build_mode;
    registry_id = or_else dto.registry_id p.registry_id;
    image_tag = or_else dto.image_tag p.image_tag;
    enabled = or_else dto.enabled p.enabled;
  }

  unfoldable pub save_pipeline : String → UpdatePipeline → Pipeline → Handler Pipelines (Unit {0})
  save_pipeline id dto existing s =
      if is_some dto.name
        && any (λ (o : Pipeline). not (str_eq o.id id) && is_text dto.name o.name)
            (rows s.pipelines)
      then (err unique_violation, s)
      else (
        ok tt,
        record s {
          pipelines =
              update_many (λ (p : Pipeline). str_eq p.id id) (apply_update dto existing)
                s.pipelines;
        },
      )

  unfoldable pub update_pipeline : String → UpdatePipeline → Handler Pipelines (Unit {0})
  unfolding find_pipeline save_pipeline
  update_pipeline id dto = do existing ← find_pipeline id; save_pipeline id dto existing

  -- The schema deletes the runs and their steps with the pipeline.
  unfoldable pub delete_pipeline : String → Handler Pipelines (Unit {0})
  unfolding find_pipeline unschedule
  delete_pipeline id = do
    p ← find_pipeline id
    modify λ s. record s {
      queue = unschedule p s.queue;
      pipelines = delete_many (λ (o : Pipeline). str_eq o.id id) s.pipelines;
      steps =
          delete_many
            (λ (t : Step).
              any (λ (r : Run). str_eq r.pipeline_id id && str_eq r.id t.run_id) (rows s.runs))
            s.steps;
      runs = delete_many (λ (r : Run). str_eq r.pipeline_id id) s.runs;
    }

  -- `prisma.pipeline.update` throws if there is no row.
  unfoldable pub enable_pipeline : String → Bool → Handler Pipelines (Unit {0})
  unfolding schedule_job unschedule
  enable_pipeline id enabled s = elim (find_first (λ (p : Pipeline). str_eq p.id id) s.pipelines) [
    | none ↦ (err record_missing, s)
    | some p ↦ on_queue (if enabled then schedule_job p else modify (unschedule p)) (record s {
      pipelines =
          update_many (λ (o : Pipeline). str_eq o.id id) (λ o. record o { enabled = enabled })
            s.pipelines;
    })
  ]
