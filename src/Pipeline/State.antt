-- ===== src/Pipeline/State.antt =====
-- The rows of pipelines, runs and steps, the jobs and the events of pipeline.service.ts, after
-- packages/shared/src/dto/pipeline.dto.ts and the schema.
use hamyar_ops.Base.{ℕ, String, Bool, true, false, Option, List}
use hamyar_ops.Prisma.{Database}
use hamyar_ops.Bull.{JobQueue}

pub data Trigger : Type 0 where
  manual webhook schedule rollback : Trigger

-- `other` is a text of the column that is none of the three strategies.
pub data Strategy : Type 0 where
  rolling blue_green restart : Strategy
  other : String → Strategy

pub data BuildMode : Type 0 where
  ci locally remotely : BuildMode

pub data Status : Type 0 where
  pending running success failed rolled_back : Status

pub data StepName : Type 0 where
  build push deploy verify roll_back : StepName

-- `context_path` and `health_url` are read by the code, and are no columns of the schema.
pub record Pipeline : Type 0 where
  pub id : String
  pub name : String
  pub app_name : Option String
  pub server_id : Option String
  pub trigger : Trigger
  pub webhook_token : Option String
  pub cron : Option String
  pub strategy : Strategy
  pub build_mode : BuildMode
  pub registry_id : Option String
  pub image_tag : Option String
  pub enabled : Bool
  pub context_path : Option String
  pub health_url : Option String

pub record Run : Type 0 where
  pub id : String
  pub pipeline_id : String
  pub status : Status
  pub trigger : Trigger
  pub commit_sha : Option String
  pub branch : Option String
  pub started_at : ℕ
  pub finished_at : Option ℕ

pub record Step : Type 0 where
  pub id : String
  pub run_id : String
  pub name : StepName
  pub status : Status
  pub output : Option String
  pub started_at : ℕ
  pub finished_at : Option ℕ

-- The data of a job: a run to execute, or a pipeline to trigger on its schedule.
pub data JobData : Type 0 where
  of_run : String → JobData
  of_pipeline : String → JobData

-- PIPELINE_STEP, PIPELINE_LOG and PIPELINE_DONE.
pub data Event : Type 0 where
  step_event : (run_id pipeline_id step_id : String) → StepName → Status → Event
  log_event : (run_id pipeline_id step_id : String) → StepName → (line : String) → Event
  done_event : (run_id pipeline_id : String) → Status → Event

abbrev pub is_schedule : Trigger → Bool
is_schedule schedule = true
is_schedule _ = false

abbrev pub is_webhook : Trigger → Bool
is_webhook webhook = true
is_webhook _ = false

abbrev pub is_pending : Status → Bool
is_pending pending = true
is_pending _ = false

abbrev pub is_success : Status → Bool
is_success success = true
is_success _ = false

module _ ⦃db : Database⦄ ⦃bull : JobQueue⦄ where
  open db use {Table}
  open bull use {Queue}

  pub record Pipelines : Type 0 where
    pub pipelines : Table Pipeline
    pub runs : Table Run
    pub steps : Table Step
    pub queue : Queue JobData
    pub events : List Event
