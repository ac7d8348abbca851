-- ===== src/Tests/Playbooks.antt =====
-- Examples of the jobs of Ansible.
use hamyar_ops.Base.{
  ◌≡◌, ◌↔◌, ◌⊎◌, refl, Bool, false, ◌&&◌, ◌||◌, not, Option, none, some, List, [], ◌∷◌, ◌++◌, All,
  codes, arith,
}
use hamyar_ops.Base.Chars.{Text, text_eq}
use hamyar_ops.Base.Chars.Lines.{text_eq_self}
use hamyar_ops.Http.{ok}
use hamyar_ops.Infra.Processes.{Stream, Ended, Machine}
use hamyar_ops.Infra.Ansible.{
  JobStatus, Playbook, AnsibleJob, TargetServer, DriftReport, JobEvent, job_done, Ansible, new_job,
  find_job,
}
use hamyar_ops.Infra.Ansible.Jobs.{attempt, execute_job}
use hamyar_ops.Infra.Ansible.Jobs.Settled.{
  RemovesFiles, job_paths, execute_job_settles, execute_job_cleans_up,
}
use hamyar_ops.Infra.Ansible.Seeding.{BuiltIn}
use hamyar_ops.Tests.Values.{list_database, list_queue}

-- A machine that knows which files there are; its processes fail.
instance abbrev file_machine : Machine
file_machine = record {
  World = Text → Bool;
  join_path = λ a b. a ++ codes "/" ++ b;
  write_file = λ p t w. (none, λ q. text_eq q p || w q);
  make_dir = λ p w. (none, w);
  exists = λ p w. w p;
  remove_dir = λ p w. w;
  unlink = λ p w q. not (text_eq q p) && w q;
  spawn = λ program args w.
      (record { chunks = (codes "unreachable\n", Stream.stdout) ∷ []; ended = Ended.closed 4 }, w);
}

abbrev lines_of_vars : List (Text × Text) → Text
lines_of_vars [] = []
lines_of_vars ((k, v) ∷ vs) = k ++ codes "=" ++ v ++ lines_of_vars vs

abbrev ping_playbook : Playbook
ping_playbook = record {
  id = "p1";
  name = codes "ping";
  description = none;
  content = codes "- hosts: all";
  target_tags = [];
  variables = [];
  built_in = false;
}

abbrev ping_job : AnsibleJob
ping_job = new_job "j1" "p1" ("s1" ∷ []) none

abbrev web_server : TargetServer
web_server = record {
  id = "s1";
  name = codes "web";
  host = codes "10.0.0.2";
  port = codes "22";
  username = codes "root";
  private_key = some (codes "secret");
}

abbrev one_server : Ansible ⦃db = list_database⦄ ⦃bull = list_queue⦄ ⦃machine = file_machine⦄
one_server = record {
  playbooks = ping_playbook ∷ [];
  jobs = ping_job ∷ [];
  servers = web_server ∷ [];
  queue = ([], []);
  bus = [];
  world = λ p. false;
}

file_machine-RemovesFiles :
    RemovesFiles ⦃db = list_database⦄ ⦃bull = list_queue⦄ ⦃machine = file_machine⦄
      (codes "/tmp")
      lines_of_vars
file_machine-RemovesFiles = record {
  gone = λ f w. ground (arith, text_eq_self f);
  still_gone = λ f g w h. ground (arith, h);
}

execute_job_settles_example :
    (done : AnsibleJob) × (find_job "j1"
        (execute_job (codes "/tmp") lines_of_vars 5 "j1" [] one_server).1
      ≡ some done)
    × (done.finished_at ≡ some 5)
    × ((done.status ≡ JobStatus.success) ⊎ (done.status ≡ JobStatus.failed))
    × (((execute_job (codes "/tmp") lines_of_vars 5 "j1" [] one_server).0 ≡ ok tt)
        ↔ (done.status ≡ JobStatus.success))
    × (((attempt (codes "/tmp") lines_of_vars ping_job ping_playbook [] one_server).failure ≡ none)
        ↔ (done.status ≡ JobStatus.success))
    × ((before : List JobEvent) × (report : Option (List DriftReport)) × ((execute_job
            (codes "/tmp")
            lines_of_vars
            5
            "j1"
            []
            one_server).1.bus
          ≡ before ++ job_done "j1" "p1" done.status report ∷ []))
execute_job_settles_example =
    execute_job_settles (codes "/tmp") lines_of_vars 5 "j1" [] ping_job ping_playbook one_server
      refl refl

execute_job_cleans_up_example :
    All
      (λ f. (execute_job (codes "/tmp") lines_of_vars 5 "j1" [] one_server).1.world f ≡ false)
      (job_paths ⦃db = list_database⦄ ⦃bull = list_queue⦄ ⦃machine = file_machine⦄
        (codes "/tmp")
        lines_of_vars
        "j1"
        (web_server ∷ []))
execute_job_cleans_up_example =
    execute_job_cleans_up (codes "/tmp") lines_of_vars 5 "j1" [] ping_job ping_playbook one_server
      web_server [] file_machine-RemovesFiles (λ path content w. refl) refl refl refl

abbrev built_ins : List BuiltIn
built_ins =
    record { name = codes "ping"; description = codes "Ping"; content = codes "-" }
    ∷ record { name = codes "drift-check"; description = codes "Drift"; content = codes "-" }
    ∷ []
