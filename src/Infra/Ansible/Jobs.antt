-- ===== src/Infra/Ansible/Jobs.antt =====
-- `executeJob` of ansible.service.ts: the inventory and the files of a job, its process, and what is
-- kept of it. The directory for temporary files and JSON.stringify are parameters.
pub mod Settled
use hamyar_ops.Base.{
  ℕ, String, Bool, true, false, ◌&&◌, not, Option, none, some, List, [], ◌∷◌, ◌++◌, if◌then◌else◌,
  codes, map, keep, any, str_eq,
}
use hamyar_ops.Base.Chars.{Text, join, text_eq}
use hamyar_ops.Prisma.{Database, find_first}
use hamyar_ops.Http.{error, record_missing, Result, ok, err, Handler}
use hamyar_ops.Bull.{JobQueue}
use hamyar_ops.Infra.Processes.{Stream, Spawned, Machine, lines_read, failure_of}
use hamyar_ops.Infra.Ansible.{
  JobStatus, Playbook, AnsibleJob, TargetServer, QueuedJob, DriftCheck, DriftReport, JobEvent,
  log_line, job_done, Ansible, find_playbook, find_job,
}
use hamyar_ops.Infra.Ansible.Drift.{drift_checks}

abbrev pub inventory_line : TargetServer → Text → Text
inventory_line sv access =
    sv.name
    ++ codes " ansible_host="
    ++ sv.host
    ++ codes " ansible_port="
    ++ sv.port
    ++ codes " ansible_user="
    ++ sv.username
    ++ access
    ++ codes " ansible_ssh_common_args='-o StrictHostKeyChecking=no'"

abbrev pub texts : List (Text × Stream) → List Text
texts [] = []
texts ((l, st) ∷ ls) = l ∷ texts ls

abbrev pub report_for : ℕ → List DriftCheck → TargetServer → DriftReport
report_for now checks sv = record {
  server_id = sv.id;
  server_name = sv.name;
  checked_at = now;
  checks = checks;
  has_drift = any (λ (c : DriftCheck). c.drift) checks;
}

abbrev report_all : ℕ → List DriftCheck → List TargetServer → Option (List DriftReport)
report_all now [] svs = none
report_all now (c ∷ cs) svs = some (map (report_for now (c ∷ cs)) svs)

-- Every server is given all the checks that were read.
abbrev pub drift_report_of :
    ℕ → Playbook → List Text → List TargetServer → Option (List DriftReport)
drift_report_of now p ls svs =
    if text_eq p.name (codes "drift-check") then report_all now (drift_checks ls) svs else none

abbrev pub log_all : String → String → List (Text × Stream) → List JobEvent
log_all job playbook [] = []
log_all job playbook (l ∷ ls) = log_line job playbook l ∷ log_all job playbook ls

module _ ⦃db : Database⦄ ⦃bull : JobQueue⦄ ⦃machine : Machine⦄ (temp_dir : Text)
    (stringify : List (Text × Text) → Text) where
  open db use {rows, update_many}
  open machine use {World, join_path, write_file, exists, unlink, spawn}

  abbrev temp_path : Text → String → Text
  temp_path prefix job = join_path temp_dir (prefix ++ codes job)

  -- The files of a job so far, its inventory, and the error that ended the preparation.
  pub record Prepared : Type 0 where
    pub temp_files : List Text
    pub inventory : List Text
    pub thrown : Option Text
    pub world : World

  abbrev with_server : List Text → Text → Prepared → Prepared
  with_server files line p = record p {
    temp_files = files ++ p.temp_files;
    inventory = line ∷ p.inventory;
  }

  abbrev failed_with : Text → World → Prepared
  failed_with message w = record {
    temp_files = [];
    inventory = [];
    thrown = some message;
    world = w;
  }

  -- The loop over the servers: a key's file counts as temporary once it is written.
  abbrev pub write_keys : String → List TargetServer → World → Prepared
  write_keys job [] w = record { temp_files = []; inventory = []; thrown = none; world = w }
  write_keys job (sv ∷ svs) w = elim sv.private_key [
    | none ↦ with_server [] (inventory_line sv (codes " ansible_ssh_pass=")) (write_keys job svs w)
    | some k ↦
        let path =
          join_path temp_dir (codes "ansible-key-" ++ codes job ++ codes "-" ++ codes sv.id) in
        let (thrown, w') = write_file path k w in
        elim thrown [
          | some message ↦ failed_with message w'
          | none ↦
              with_server (path ∷ [])
                (inventory_line sv (codes " ansible_ssh_private_key_file=" ++ path))
                (write_keys job svs w')
        ]
  ]

  pub record Attempt : Type 0 where
    pub temp_files : List Text
    pub lines : List (Text × Stream)
    pub failure : Option Text
    pub world : World

  abbrev extra_vars : List (Text × Text) → List Text
  extra_vars [] = []
  extra_vars (v ∷ vs) = codes "--extra-vars" ∷ stringify (v ∷ vs) ∷ []

  abbrev ran : List Text → Spawned × World → Attempt
  ran files (p, w) = record {
    temp_files = files;
    lines = lines_read p.chunks;
    failure = failure_of (codes "ansible-playbook") p.ended;
    world = w;
  }

  abbrev broken : List Text → Text → World → Attempt
  broken files message w = record {
    temp_files = files;
    lines = [];
    failure = some message;
    world = w;
  }

  abbrev start : List Text → Text → Text → List (Text × Text) → Option Text × World → Attempt
  start files inv pb variables (some message, w) = broken files message w
  start files inv pb variables (none, w) =
      ran files
        (spawn (codes "ansible-playbook") ((codes "-i" ∷ inv ∷ pb ∷ []) ++ extra_vars variables) w)

  abbrev write_playbook : Text → Text → Option Text × World → Option Text × World
  write_playbook pb content (some message, w) = (some message, w)
  write_playbook pb content (none, w) = write_file pb content w

  abbrev pub run_prepared : String → Playbook → List (Text × Text) → Prepared → Attempt
  run_prepared job p variables prep = elim prep.thrown [
    | some message ↦ broken prep.temp_files message prep.world
    | none ↦
        let inv = temp_path (codes "ansible-inv-") job in
        let pb = join_path temp_dir (codes "ansible-pb-" ++ codes job ++ codes ".yml") in
        let text = join b'\n' (codes "[all]" ∷ prep.inventory) ++ b'\n' ∷ [] in
        start (prep.temp_files ++ inv ∷ pb ∷ []) inv pb variables
          (write_playbook pb p.content (write_file inv text prep.world))
  ]

  abbrev pub targets_of : AnsibleJob → Ansible → List TargetServer
  targets_of j s = keep (λ (sv : TargetServer). any (str_eq sv.id) j.server_ids) (rows s.servers)

  abbrev attempt_on :
      AnsibleJob → Playbook → List (Text × Text) → Ansible → List TargetServer → Attempt
  attempt_on j p variables s [] = broken [] (codes "No servers found for job") s.world
  attempt_on j p variables s (sv ∷ svs) =
      run_prepared j.id p variables (write_keys j.id (sv ∷ svs) s.world)

  -- The `try` block up to the end of the process.
  unfoldable pub attempt : AnsibleJob → Playbook → List (Text × Text) → Ansible → Attempt
  attempt j p variables s = attempt_on j p variables s (targets_of j s)

  -- The `finally` block.
  abbrev pub clean_up : List Text → World → World
  clean_up [] w = w
  clean_up (f ∷ fs) w = clean_up fs (if exists f w then unlink f w else w)

  abbrev pub status_of : Option Text → JobStatus
  status_of none = JobStatus.success
  status_of (some message) = JobStatus.failed

  abbrev pub report_of : ℕ → Playbook → Attempt → List TargetServer → Option (List DriftReport)
  report_of now p a svs = elim a.failure [
    | none ↦ drift_report_of now p (texts a.lines) svs
    | some message ↦ none
  ]

  abbrev pub finish : ℕ → Attempt → Option (List DriftReport) → AnsibleJob → AnsibleJob
  finish now a report j = record j {
    status = status_of a.failure;
    output = elim a.failure [ none ↦ some (join b'\n' (texts a.lines)) | some message ↦ j.output ];
    drift_report = elim report [ none ↦ j.drift_report | some r ↦ some r ];
    finished_at = some now;
  }

  abbrev pub set_running : AnsibleJob → AnsibleJob
  set_running j = record j { status = JobStatus.running }

  abbrev pub settle : ℕ → AnsibleJob → Playbook → Attempt → Ansible → Ansible
  settle now j p a s =
      let report = report_of now p a (targets_of j s) in
      record s {
        jobs =
            update_many (λ (o : AnsibleJob). str_eq o.id j.id) (finish now a report)
              (update_many (λ (o : AnsibleJob). str_eq o.id j.id) set_running s.jobs);
        bus =
            s.bus
            ++ (log_all j.id p.id a.lines ++ job_done j.id p.id (status_of a.failure) report ∷ []);
        world = clean_up a.temp_files a.world;
      }

  -- A failed job throws its error again, so that the queue has it as failed too.
  abbrev pub returned : Option Text → Result (Unit {0})
  returned none = ok tt
  returned (some message) = err (error "The job failed")

  abbrev pub execute_with :
      ℕ → List (Text × Text) → AnsibleJob → Option Playbook → Handler Ansible (Unit {0})
  execute_with now variables j none s = (err record_missing, s)
  execute_with now variables j (some p) s =
      let a = attempt j p variables s in (returned a.failure, settle now j p a s)

  unfoldable pub execute_job : ℕ → String → List (Text × Text) → Handler Ansible (Unit {0})
  execute_job now job_id variables s = elim (find_job job_id s) [
    | none ↦ (err record_missing, s)
    | some j ↦ execute_with now variables j (find_playbook j.playbook_id s) s
  ]

  -- ansible.processor.ts
  unfoldable pub process : ℕ → QueuedJob → Handler Ansible (Unit {0})
  unfolding execute_job
  process now q = execute_job now q.job_id q.variables
