-- ===== src/Pipeline/Processor.antt =====
-- apps/ops-api/src/modules/pipeline/pipeline.processor.ts: the jobs of the queue.
use hamyar_ops.Base.{String, List, none, if◌then◌else◌, str_eq, not, JsText}
use hamyar_ops.Prisma.{Database}
use hamyar_ops.Bull.{JobQueue}
use hamyar_ops.Pipeline.State.{schedule, Step, JobData, of_run, of_pipeline, Pipelines}
use hamyar_ops.Pipeline.Steps.{Commands}
use hamyar_ops.Pipeline.Service.{Request}
use hamyar_ops.Pipeline.Service.Runs.{trigger_run}
use hamyar_ops.Pipeline.Run.{execute_run}

module _ ⦃db : Database⦄ ⦃bull : JobQueue⦄ ⦃js : JsText⦄ (cmd : Commands) (req : Request)
    (ordered : List Step → List Step) where
  -- A scheduled job names a pipeline, any other job names a run.
  unfoldable pub process_data : JobData → Pipelines → Pipelines
  process_data (of_pipeline id) s = (trigger_run req id schedule none none s).1
  process_data (of_run id) s = execute_run cmd req.now ordered id s

  unfoldable pub process : String → JobData → Pipelines → Pipelines
  unfolding process_data
  process name job s = if not (str_eq name "run") then s else process_data job s
