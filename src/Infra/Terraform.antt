-- ===== src/Infra/Terraform.antt =====
-- terraform.service.ts and terraform.processor.ts: workspaces, their directories, and the runs of
-- Terraform that a worker executes. The texts of the templates are not modelled.
pub mod Summary
pub mod Runs
use hamyar_ops.Base.{
  ℕ, zero, suc, String, Bool, true, false, not, Option, none, some, List, [], ◌∷◌, ◌++◌,
  if◌then◌else◌, any, codes, map, or_else, str_eq,
}
use hamyar_ops.Base.Chars.{Text, is_empty, join, replace_all, text_eq}
use hamyar_ops.Prisma.{Database, find_first}
use hamyar_ops.Http.{error, unique_violation, not_found, Result, ok, err, Handler, throw}
use hamyar_ops.Bull.{JobQueue}
use hamyar_ops.Infra.Processes.{Stream, stdout, Ended, Spawned, Machine, lines_read, failure_of}

pub data RunStatus : Type 0 where
  pending : RunStatus
  running : RunStatus
  success : RunStatus
  failed : RunStatus

pub record PlanSummary : Type 0 where
  pub to_add : ℕ
  pub to_change : ℕ
  pub to_destroy : ℕ

pub record Workspace : Type 0 where
  pub id : String
  pub name : Text
  pub working_dir : Text
  pub state_backend : String
  pub s3_config_id : Option String
  pub s3_key : Option Text
  pub variables : List (Text × Text)

pub record CreateWorkspace : Type 0 where
  pub name : Text
  pub state_backend : Option String
  pub s3_config_id : Option String
  pub s3_key : Option Text
  pub variables : List (Text × Text)

pub record TerraformRun : Type 0 where
  pub id : String
  pub workspace_id : String
  pub command : Text
  pub status : RunStatus
  pub output : Option Text
  pub plan_summary : Option PlanSummary
  pub finished_at : Option ℕ

pub record S3Config : Type 0 where
  pub id : String
  pub endpoint : Text
  pub bucket : Text
  pub region : Text
  pub access_key_id : Text
  pub secret_access_key : Text

pub record RunJob : Type 0 where
  pub run_id : String
  pub workspace_id : String
  pub command : Text

pub data BusEvent : Type 0 where
  log_line : String → String → Text × Stream → BusEvent
  run_done : String → String → RunStatus → Option PlanSummary → BusEvent

abbrev pub new_run : String → String → Text → TerraformRun
new_run new_id workspace_id command = record {
  id = new_id;
  workspace_id = workspace_id;
  command = command;
  status = RunStatus.pending;
  output = none;
  plan_summary = none;
  finished_at = none;
}

module _ ⦃db : Database⦄ ⦃bull : JobQueue⦄ ⦃machine : Machine⦄ where
  open db use {Table, rows, create, update_many, delete_many}
  open bull use {Queue, add}
  open machine use {World, join_path, write_file, make_dir, exists, remove_dir, spawn}

  pub record Terraform : Type 0 where
    pub workspaces : Table Workspace
    pub runs : Table TerraformRun
    pub s3_configs : Table S3Config
    pub queue : Queue RunJob
    pub bus : List BusEvent
    pub world : World

  abbrev pub find_workspace : String → Terraform → Option Workspace
  find_workspace id s = find_first (λ (w : Workspace). str_eq w.id id) s.workspaces

  abbrev pub find_run : String → Terraform → Option TerraformRun
  find_run id s = find_first (λ (r : TerraformRun). str_eq r.id id) s.runs

  abbrev template_written : Workspace → Option Text → Option Text × World → Option Text × World
  template_written w content (some message, world) = (some message, world)
  template_written w none (none, world) = (none, world)
  template_written w (some content) (none, world) =
      write_file (join_path w.working_dir (codes "main.tf")) content world

  abbrev created : Workspace → Terraform → Option Text × World → Result Workspace × Terraform
  created w s (none, world) = (ok w, record s { world = world })
  created w s (some message, world) =
      (err (error "The file system refused"), record s { world = world })

  -- The row stays also where the directory cannot be made. `content` is that of the template.
  unfoldable pub create_workspace :
      Text → String → CreateWorkspace → Option Text → Handler Terraform Workspace
  create_workspace base_dir new_id dto content s =
      let w : Workspace = record {
        id = new_id;
        name = dto.name;
        working_dir = join_path base_dir dto.name;
        state_backend = or_else dto.state_backend "local";
        s3_config_id = dto.s3_config_id;
        s3_key = dto.s3_key;
        variables = dto.variables;
      } in
      let made =
        created w (record s { workspaces = create w s.workspaces })
          (template_written w content (make_dir w.working_dir s.world)) in
      if any (λ (o : Workspace). text_eq o.name dto.name) (rows s.workspaces)
      then throw unique_violation s
      else made

  -- The rows of the runs go with their workspace; the directory's removal may fail silently.
  unfoldable pub delete_workspace : String → Handler Terraform (Unit {0})
  delete_workspace id s = elim (find_workspace id s) [
    | none ↦ throw (not_found "Terraform workspace not found") s
    | some w ↦ (
      ok tt,
      record s {
        workspaces = delete_many (λ (o : Workspace). str_eq o.id id) s.workspaces;
        runs = delete_many (λ (r : TerraformRun). str_eq r.workspace_id id) s.runs;
        world = if exists w.working_dir s.world then remove_dir w.working_dir s.world else s.world;
      },
    )
  ]

  abbrev pub queue_run : TerraformRun → Terraform → Terraform
  queue_run r s = record s {
    runs = create r s.runs;
    queue =
        add "run" (record { run_id = r.id; workspace_id = r.workspace_id; command = r.command })
          s.queue;
  }

  unfoldable pub run_command : String → String → Text → Handler Terraform TerraformRun
  run_command new_id workspace_id command s = elim (find_workspace workspace_id s) [
    | none ↦ throw (not_found "Terraform workspace not found") s
    | some w ↦ let r = new_run new_id workspace_id command in (ok r, queue_run r s)
  ]
