-- ===== src/Infra/Terraform/Runs.antt =====
-- `executeRun` of terraform.service.ts: the files of a run, its process, and what is kept of it.
pub mod Settled
use hamyar_ops.Base.{
  ℕ, zero, suc, String, Bool, true, false, not, Option, none, some, List, [], ◌∷◌, ◌++◌,
  if◌then◌else◌, codes, map, or_else, str_eq,
}
use hamyar_ops.Base.Chars.{Text, is_empty, join, replace_all, text_eq}
use hamyar_ops.Prisma.{Database, find_first}
use hamyar_ops.Bull.{JobQueue}
use hamyar_ops.Infra.Processes.{Stream, stdout, Ended, Spawned, Machine, lines_read, failure_of}
use hamyar_ops.Infra.Terraform.{
  RunStatus, PlanSummary, Workspace, TerraformRun, S3Config, RunJob, BusEvent, log_line, run_done,
  Terraform, find_run, find_workspace,
}
use hamyar_ops.Infra.Terraform.Summary.{parse_plan_summary}

abbrev pub log_all : String → String → List (Text × Stream) → List BusEvent
log_all run workspace [] = []
log_all run workspace (l ∷ ls) = log_line run workspace l ∷ log_all run workspace ls

abbrev pub line_texts : List (Text × Stream) → List Text
line_texts [] = []
line_texts ((l, st) ∷ ls) = l ∷ line_texts ls

-- `-auto-approve` for apply and destroy.
abbrev pub run_args : Text → Text → List Text
run_args dir command =
    (codes "-chdir=" ++ dir)
    ∷ command
    ∷ codes "-no-color"
    ∷ (if text_eq command (codes "apply")
        then codes "-auto-approve" ∷ []
        else if text_eq command (codes "destroy")
        then codes "-auto-approve" ∷ []
        else [])

abbrev pub tfvars_lines : List (Text × Text) → List Text
tfvars_lines [] = []
tfvars_lines ((k, v) ∷ vs) =
    (k ++ codes " = \"" ++ replace_all b'"' (codes "\\\"") v ++ codes "\"") ∷ tfvars_lines vs

abbrev field_line : String → Text → Text
field_line before value = codes before ++ value ++ codes "\"\n"

-- The content of backend.tf.
unfoldable pub backend_tf : S3Config → Text → Text
backend_tf cfg key =
    codes "terraform {\n  backend \"s3\" {\n"
    ++ field_line "    endpoint = \"" cfg.endpoint
    ++ field_line "    bucket   = \"" cfg.bucket
    ++ field_line "    key      = \"" key
    ++ field_line "    region   = \"" (if is_empty cfg.region then codes "default" else cfg.region)
    ++ field_line "    access_key = \"" cfg.access_key_id
    ++ field_line "    secret_key = \"" cfg.secret_access_key
    ++ codes "    skip_credentials_validation = true\n    skip_metadata_api_check     = true\n"
    ++ codes
        "    skip_region_validation      = true\n    force_path_style            = true\n  }\n}\n"

abbrev pub state_key : Workspace → Text
state_key w = or_else w.s3_key (codes "terraform/" ++ w.name ++ codes "/terraform.tfstate")

-- The first step that throws ends the sequence.
abbrev pub if_ok : {W : Type 0} → Option Text × W → (W → Option Text × W) → Option Text × W
if_ok (none, w) next = next w
if_ok (some message, w) next = (some message, w)

module _ ⦃db : Database⦄ ⦃bull : JobQueue⦄ ⦃machine : Machine⦄ where
  open db use {update_many}
  open machine use {World, join_path, write_file, spawn}

  abbrev with_config : Workspace → Option S3Config → World → Option Text × World
  unfolding backend_tf
  with_config w none world = (none, world)
  with_config w (some cfg) world =
      write_file (join_path w.working_dir (codes "backend.tf")) (backend_tf cfg (state_key w)) world

  abbrev pub write_backend_tf : Terraform → Workspace → Option String → World → Option Text × World
  unfolding with_config
  write_backend_tf s w none world = (none, world)
  write_backend_tf s w (some config) world =
      with_config w (find_first (λ (c : S3Config). str_eq c.id config) s.s3_configs) world

  abbrev pub write_tfvars : Workspace → List (Text × Text) → World → Option Text × World
  write_tfvars w [] world = (none, world)
  write_tfvars w (v ∷ vs) world =
      write_file (join_path w.working_dir (codes "terraform.tfvars"))
        (join b'\n' (tfvars_lines (v ∷ vs))) world

  -- The files that a run needs.
  unfoldable pub prepare : Terraform → Workspace → World → Option Text × World
  unfolding write_backend_tf
  prepare s w world =
      if_ok
        (if str_eq w.state_backend "s3"
          then write_backend_tf s w w.s3_config_id world
          else (none, world))
        (write_tfvars w w.variables)

  -- What a run has read and whether it threw.
  pub record Attempt : Type 0 where
    pub lines : List (Text × Stream)
    pub failure : Option Text
    pub world : World

  abbrev pub spawned : Text → Spawned × World → Attempt
  unfolding lines_read failure_of
  spawned command (p, world) = record {
    lines = lines_read p.chunks;
    failure = failure_of (codes "terraform " ++ command) p.ended;
    world = world;
  }

  abbrev pub prepared : Workspace → Text → Option Text × World → Attempt
  unfolding spawned
  prepared w command (some message, world) = record {
    lines = [];
    failure = some message;
    world = world;
  }
  prepared w command (none, world) =
      spawned command (spawn (codes "terraform") (run_args w.working_dir command) world)

  unfoldable pub attempt : Terraform → Workspace → TerraformRun → Attempt
  unfolding prepare prepared
  attempt s w r = prepared w r.command (prepare s w s.world)

  abbrev pub status_of : Option Text → RunStatus
  status_of none = RunStatus.success
  status_of (some message) = RunStatus.failed

  abbrev pub output_of : Option Text → List Text → Text
  output_of none ls = join b'\n' ls
  output_of (some message) ls = join b'\n' ls ++ codes "\n✗ " ++ message

  abbrev pub summary_of : Option Text → List Text → Option PlanSummary
  summary_of none ls = parse_plan_summary (join b'\n' ls)
  summary_of (some message) ls = none

  abbrev pub finish : ℕ → Attempt → TerraformRun → TerraformRun
  finish now a r = record r {
    status = status_of a.failure;
    output = some (output_of a.failure (line_texts a.lines));
    plan_summary = elim (summary_of a.failure (line_texts a.lines)) [
      | none ↦ r.plan_summary
      | some p ↦ some p
    ];
    finished_at = some now;
  }

  abbrev pub set_running : TerraformRun → TerraformRun
  set_running r = record r { status = RunStatus.running }

  abbrev pub by_id : String → TerraformRun → Bool
  by_id id r = str_eq r.id id

  abbrev pub announce : TerraformRun → Workspace → Attempt → List BusEvent
  announce r w a =
      log_line r.id w.id (codes "▶ terraform " ++ r.command ++ codes " starting…", stdout)
        ∷ log_all r.id w.id a.lines
      ++ run_done r.id w.id (status_of a.failure) (summary_of a.failure (line_texts a.lines)) ∷ []

  abbrev pub settle : ℕ → TerraformRun → Workspace → Attempt → Terraform → Terraform
  settle now r w a s = record s {
    runs = update_many (by_id r.id) (finish now a) (update_many (by_id r.id) set_running s.runs);
    bus = s.bus ++ announce r w a;
    world = a.world;
  }

  -- Every run has its workspace, by the foreign key; without it the query of the run throws.
  abbrev pub execute_in : ℕ → TerraformRun → Option Workspace → Terraform → Terraform
  unfolding attempt
  execute_in now r none s = s
  execute_in now r (some w) s = settle now r w (attempt s w r) s

  unfoldable pub execute_run : ℕ → String → Terraform → Terraform
  execute_run now run_id s = elim (find_run run_id s) [
    | none ↦ s
    | some r ↦ execute_in now r (find_workspace r.workspace_id s) s
  ]

  -- terraform.processor.ts
  unfoldable pub process : ℕ → RunJob → Terraform → Terraform
  unfolding execute_run
  process now job s = execute_run now job.run_id s
