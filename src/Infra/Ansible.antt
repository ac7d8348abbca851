-- ===== src/Infra/Ansible.antt =====
-- ansible.service.ts and ansible.processor.ts: playbooks, and the jobs that run them. The texts of
-- the built-in playbooks are not modelled.
pub mod Drift
pub mod Jobs
pub mod Seeding
use hamyar_ops.Base.{
  ℕ, String, Bool, true, false, ◌&&◌, not, Option, none, some, List, [], ◌∷◌, ◌++◌, if◌then◌else◌,
  or_else, str_eq, any, codes,
}
use hamyar_ops.Base.Chars.{Text, text_eq}
use hamyar_ops.Prisma.{Database, find_first}
use hamyar_ops.Http.{bad_request, not_found, unique_violation, Result, ok, err, Handler, throw}
use hamyar_ops.Bull.{JobQueue}
use hamyar_ops.Infra.Processes.{Stream, Machine}

pub data JobStatus : Type 0 where
  pending : JobStatus
  running : JobStatus
  success : JobStatus
  failed : JobStatus

pub record Playbook : Type 0 where
  pub id : String
  pub name : Text
  pub description : Option Text
  pub content : Text
  pub target_tags : List Text
  pub variables : List (Text × Text)
  pub built_in : Bool

pub record CreatePlaybook : Type 0 where
  pub name : Text
  pub description : Option Text
  pub content : Text
  pub target_tags : Option (List Text)
  pub variables : Option (List (Text × Text))

pub record UpdatePlaybook : Type 0 where
  pub name : Option Text
  pub description : Option Text
  pub content : Option Text
  pub target_tags : Option (List Text)
  pub variables : Option (List (Text × Text))

pub record DriftCheck : Type 0 where
  pub name : Text
  pub expected : Text
  pub actual : Text
  pub drift : Bool

pub record DriftReport : Type 0 where
  pub server_id : String
  pub server_name : Text
  pub checked_at : ℕ
  pub checks : List DriftCheck
  pub has_drift : Bool

pub record AnsibleJob : Type 0 where
  pub id : String
  pub playbook_id : String
  pub server_ids : List String
  pub status : JobStatus
  pub output : Option Text
  pub drift_report : Option (List DriftReport)
  pub triggered_by : Option String
  pub finished_at : Option ℕ

-- The row of a server with its key, if it has one.
pub record TargetServer : Type 0 where
  pub id : String
  pub name : Text
  pub host : Text
  pub port : Text
  pub username : Text
  pub private_key : Option Text

pub record QueuedJob : Type 0 where
  pub job_id : String
  pub variables : List (Text × Text)

pub data JobEvent : Type 0 where
  log_line : String → String → Text × Stream → JobEvent
  job_done : String → String → JobStatus → Option (List DriftReport) → JobEvent

abbrev pub apply_dto : UpdatePlaybook → Playbook → Playbook
apply_dto d p = record p {
  name = or_else d.name p.name;
  description = elim d.description [ none ↦ p.description | some t ↦ some t ];
  content = or_else d.content p.content;
  target_tags = or_else d.target_tags p.target_tags;
  variables = or_else d.variables p.variables;
}

abbrev pub new_job : String → String → List String → Option String → AnsibleJob
new_job id playbook_id server_ids user_id = record {
  id = id;
  playbook_id = playbook_id;
  server_ids = server_ids;
  status = JobStatus.pending;
  output = none;
  drift_report = none;
  triggered_by = user_id;
  finished_at = none;
}

module _ ⦃db : Database⦄ ⦃bull : JobQueue⦄ ⦃machine : Machine⦄ where
  open db use {Table, rows, create, update_many, delete_many}
  open bull use {Queue, add}
  open machine use {World}

  pub record Ansible : Type 0 where
    pub playbooks : Table Playbook
    pub jobs : Table AnsibleJob
    pub servers : Table TargetServer
    pub queue : Queue QueuedJob
    pub bus : List JobEvent
    pub world : World

  abbrev pub find_playbook : String → Ansible → Option Playbook
  find_playbook id s = find_first (λ (p : Playbook). str_eq p.id id) s.playbooks

  abbrev pub find_job : String → Ansible → Option AnsibleJob
  find_job id s = find_first (λ (j : AnsibleJob). str_eq j.id id) s.jobs

  -- The column `name` is unique.
  unfoldable pub create_playbook : String → CreatePlaybook → Handler Ansible Playbook
  create_playbook new_id d s =
      let p : Playbook = record {
        id = new_id;
        name = d.name;
        description = d.description;
        content = d.content;
        target_tags = or_else d.target_tags [];
        variables = or_else d.variables [];
        built_in = false;
      } in
      if any (λ (o : Playbook). text_eq o.name d.name) (rows s.playbooks)
      then throw unique_violation s
      else (ok p, record s { playbooks = create p s.playbooks })

  unfoldable pub update_playbook : String → UpdatePlaybook → Handler Ansible Playbook
  update_playbook id d s = elim (find_playbook id s) [
    | none ↦ throw (not_found "Playbook not found") s
    | some p ↦
        if any (λ (o : Playbook). text_eq o.name (or_else d.name p.name) && not (str_eq o.id id))
          (rows s.playbooks)
        then throw unique_violation s
        else (
          ok (apply_dto d p),
          record s {
            playbooks = update_many (λ (o : Playbook). str_eq o.id id) (apply_dto d) s.playbooks;
          },
        )
  ]

  -- The jobs of a playbook go with it.
  unfoldable pub delete_playbook : String → Handler Ansible (Unit {0})
  delete_playbook id s = elim (find_playbook id s) [
    | none ↦ throw (not_found "Playbook not found") s
    | some p ↦ if p.built_in then throw (bad_request "Cannot delete a built-in playbook") s else (
      ok tt,
      record s {
        playbooks = delete_many (λ (o : Playbook). str_eq o.id id) s.playbooks;
        jobs = delete_many (λ (j : AnsibleJob). str_eq j.playbook_id id) s.jobs;
      },
    )
  ]

  abbrev pub queue_job : AnsibleJob → List (Text × Text) → Ansible → Ansible
  queue_job j variables s = record s {
    jobs = create j s.jobs;
    queue = add "run" (record { job_id = j.id; variables = variables }) s.queue;
  }

  unfoldable pub run_playbook :
      String
      → String
      → List String
      → List (Text × Text)
      → Option String
      → Handler Ansible AnsibleJob
  run_playbook new_id playbook_id server_ids variables user_id s =
      elim (find_playbook playbook_id s) [
        | none ↦ throw (not_found "Playbook not found") s
        | some p ↦
            let j = new_job new_id playbook_id server_ids user_id in (ok j, queue_job j variables s)
      ]

  unfoldable pub get_drift_report : String → String → Handler Ansible AnsibleJob
  unfolding run_playbook
  get_drift_report new_id server_id s =
      elim (find_first (λ (p : Playbook). text_eq p.name (codes "drift-check") && p.built_in)
        s.playbooks) [
          | none ↦ throw (not_found "Built-in drift-check playbook not found") s
          | some p ↦ run_playbook new_id p.id (server_id ∷ []) [] none s
        ]
