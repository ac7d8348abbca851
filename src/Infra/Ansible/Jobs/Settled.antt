-- ===== src/Infra/Ansible/Jobs/Settled.antt =====
-- A job that a worker takes ends, with one closing event, and the queue learns of a failure.
use hamyar_ops.Base.{
  ℕ, String, ◌≡◌, ◌⊎◌, ◌↔◌, inl, inr, refl, ap, sym, subst, ◌∙◌, Option, none, some, List, [], ◌∷◌,
  ◌++◌, arith, append_assoc, All, false, if◌then◌else◌, Option-cases, codes,
}
use hamyar_ops.Base.Chars.{Text}
use hamyar_ops.Prisma.{Database}
use hamyar_ops.Prisma.Updates.{found_id, find_first-update_twice}
use hamyar_ops.Http.{Result, ok}
use hamyar_ops.Bull.{JobQueue}
use hamyar_ops.Infra.Processes.{Machine}
use hamyar_ops.Infra.Ansible.{
  JobStatus, Playbook, AnsibleJob, TargetServer, DriftReport, JobEvent, job_done, Ansible, find_job,
  find_playbook,
}
use hamyar_ops.Infra.Ansible.Jobs.{
  attempt, targets_of, status_of, report_of, finish, set_running, settle, returned, execute_job,
  log_all, clean_up, write_keys, run_prepared, start, Prepared,
}

module _ ⦃db : Database⦄ ⦃bull : JobQueue⦄ ⦃machine : Machine⦄ (temp_dir : Text)
    (stringify : List (Text × Text) → Text) where
  open machine use {World, join_path, write_file, exists, unlink}

  execute_job_found :
      (now : ℕ) (id : String) (variables : List (Text × Text)) (j : AnsibleJob) (p : Playbook)
      (s : Ansible)
      → find_job id s ≡ some j
      → find_playbook j.playbook_id s ≡ some p
      → execute_job temp_dir stringify now id variables s ≡ (
        returned temp_dir stringify (attempt temp_dir stringify j p variables s).failure,
        settle temp_dir stringify now j p (attempt temp_dir stringify j p variables s) s,
      )
  unfolding execute_job
  execute_job_found now id variables j p s found book = rw (found, execute_job, book)

  -- How the parts of an outcome agree.
  outcome :
      (o : Option Text)
      → ((status_of temp_dir stringify o ≡ JobStatus.success)
          ⊎ (status_of temp_dir stringify o ≡ JobStatus.failed))
        × ((returned temp_dir stringify o ≡ ok tt)
            ↔ (status_of temp_dir stringify o ≡ JobStatus.success))
        × ((o ≡ none) ↔ (status_of temp_dir stringify o ≡ JobStatus.success))
  outcome none = (inl refl, (λ e. refl, λ e. refl), (λ e. refl, λ e. refl))
  outcome (some m) = (
    inr refl,
    (λ e. ground (arith, e), λ e. ground (arith, e)),
    (λ e. ground (arith, e), λ e. ground (arith, e)),
  )

  -- A job in the table whose playbook exists ends as SUCCESS or FAILED, at the time of its
  -- execution: as SUCCESS exactly if nothing was thrown, from the search for its servers to the end
  -- of its process, and then the handler returns; otherwise it throws, for the queue. The last event
  -- on the bus says the same of the same job.
  pub execute_job_settles :
      (now : ℕ) (id : String) (variables : List (Text × Text)) (j : AnsibleJob) (p : Playbook)
      (s : Ansible)
      → find_job id s ≡ some j
      → find_playbook j.playbook_id s ≡ some p
      → let after = execute_job temp_dir stringify now id variables s in
        (done : AnsibleJob) × (find_job id after.1 ≡ some done)
        × (done.finished_at ≡ some now)
        × ((done.status ≡ JobStatus.success) ⊎ (done.status ≡ JobStatus.failed))
        × ((after.0 ≡ ok tt) ↔ (done.status ≡ JobStatus.success))
        × (((attempt temp_dir stringify j p variables s).failure ≡ none)
            ↔ (done.status ≡ JobStatus.success))
        × ((before : List JobEvent) × (report : Option (List DriftReport)) × (after.1.bus
              ≡ before ++ job_done id p.id done.status report ∷ []))
  execute_job_settles now id variables j p s found book =
      let a = attempt temp_dir stringify j p variables s in
      let report = report_of temp_dir stringify now p a (targets_of temp_dir stringify j s) in
      let status = status_of temp_dir stringify a.failure in
      let logs = log_all j.id p.id a.lines in
      let ran = execute_job_found now id variables j p s found book in
      let (ended, back, thrown) = outcome a.failure in
      (
        finish temp_dir stringify now a report (set_running temp_dir stringify j),
        ap (λ (x : Result (Unit {0}) × Ansible). find_job id x.1) ran
            ∙ find_first-update_twice (λ (o : AnsibleJob). o.id) id j
                (set_running temp_dir stringify) (finish temp_dir stringify now a report) s.jobs
                found (λ x. refl) (λ x. refl),
        refl,
        ended,
        subst (λ (r : Result (Unit {0})). (r ≡ ok tt) ↔ (status ≡ JobStatus.success))
            (ap (λ (x : Result (Unit {0}) × Ansible). x.0) (sym ran)) back,
        thrown,
        (
          s.bus ++ logs,
          report,
          ap (λ (x : Result (Unit {0}) × Ansible). x.1.bus) ran
              ∙ sym (append_assoc s.bus logs (job_done j.id p.id status report ∷ []))
              ∙ ap (λ i. (s.bus ++ logs) ++ job_done i p.id status report ∷ [])
                  (found_id (λ (o : AnsibleJob). o.id) id j s.jobs found),
        ),
      )

  -- What a machine does that removes files: a removed file is gone, and no removal brings one back.
  pub record RemovesFiles : Type 0 where
    pub gone : (f : Text) (w : World) → exists f (unlink f w) ≡ false
    pub still_gone : (f g : Text) (w : World) → exists f w ≡ false → exists f (unlink g w) ≡ false

  clean_up_keeps :
      (fs : List Text) (f : Text) (w : World)
      → RemovesFiles
      → exists f w ≡ false
      → exists f (clean_up temp_dir stringify fs w) ≡ false
  clean_up_keeps [] f w laws h = h
  clean_up_keeps (g ∷ fs) f w laws h =
      clean_up_keeps fs f (if exists g w then unlink g w else w) laws
        (ground (arith, laws.still_gone f g w h))

  clean_up_every :
      (fs : List Text) (w : World)
      → RemovesFiles
      → All (λ f. exists f (clean_up temp_dir stringify fs w) ≡ false) fs
  clean_up_every [] w laws = tt
  clean_up_every (f ∷ fs) w laws =
      let next = if exists f w then unlink f w else w in
      (clean_up_keeps fs f next laws (ground (arith, laws.gone f w)), clean_up_every fs next laws)

  -- The path of the key of a server, for a job.
  abbrev key_path : String → TargetServer → Text
  key_path job sv =
      join_path temp_dir (codes "ansible-key-" ++ codes job ++ codes "-" ++ codes sv.id)

  -- The paths of a job: the keys of its servers that have one, the inventory and the playbook.
  abbrev pub job_paths : String → List TargetServer → List Text
  job_paths job [] =
      join_path temp_dir (codes "ansible-inv-" ++ codes job)
      ∷ join_path temp_dir (codes "ansible-pb-" ++ codes job ++ codes ".yml")
      ∷ []
  job_paths job (sv ∷ svs) = elim sv.private_key [
    | none ↦ job_paths job svs
    | some k ↦ key_path job sv ∷ job_paths job svs
  ]

  -- Every file can be written.
  abbrev pub CanWrite : Type 0
  CanWrite = (path content : Text) (w : World) → (write_file path content w).0 ≡ none

  write_keys_lem :
      (job : String) (svs : List TargetServer) (w : World)
      → CanWrite
      → let prep = write_keys temp_dir stringify job svs w in
        (prep.thrown ≡ none) × (prep.temp_files ++ job_paths job [] ≡ job_paths job svs)
  write_keys_lem job [] w can = (refl, refl)
  write_keys_lem job (sv ∷ svs) w can = elim (Option-cases sv.private_key) [
    | inl without ↦ rw without (write_keys_lem job svs w can)
    | inr (k, given) ↦
        let later = write_keys_lem job svs (write_file (key_path job sv) k w).1 can in
        rw (given, write_keys, can (key_path job sv) k w)
          (later.0, ap (◌∷◌ (key_path job sv)) later.1)
  ]

  start_files :
      (files : List Text) (inv pb : Text) (variables : List (Text × Text)) (x : Option Text × World)
      → (start temp_dir stringify files inv pb variables x).temp_files ≡ files
  start_files files inv pb variables (none, w) = refl
  start_files files inv pb variables (some message, w) = refl

  run_prepared_files :
      (job : String) (p : Playbook) (variables : List (Text × Text))
      (prep : Prepared temp_dir stringify)
      → prep.thrown ≡ none
      → (run_prepared temp_dir stringify job p variables prep).temp_files
        ≡ prep.temp_files ++ job_paths job []
  run_prepared_files job p variables prep h = rw h (start_files _ _ _ variables _)

  attempt_files :
      (j : AnsibleJob) (p : Playbook) (variables : List (Text × Text)) (s : Ansible)
      (sv : TargetServer) (svs : List TargetServer)
      → targets_of temp_dir stringify j s ≡ sv ∷ svs
      → CanWrite
      → (attempt temp_dir stringify j p variables s).temp_files ≡ job_paths j.id (sv ∷ svs)
  unfolding attempt
  attempt_files j p variables s sv svs targets can =
      let (ready, listed) = write_keys_lem j.id (sv ∷ svs) s.world can in
      rw (targets, attempt)
        (run_prepared_files j.id p variables (write_keys temp_dir stringify j.id (sv ∷ svs) s.world)
            ready
          ∙ listed)

  -- If every file can be written, and a removed file is gone and no removal brings one back, then
  -- after a job in the table that has its playbook and finds servers no file is left at the paths of
  -- the keys of those servers that have one, of its inventory and of its playbook, whatever its
  -- process does.
  pub execute_job_cleans_up :
      (now : ℕ) (id : String) (variables : List (Text × Text)) (j : AnsibleJob) (p : Playbook)
      (s : Ansible) (sv : TargetServer) (svs : List TargetServer)
      → RemovesFiles
      → CanWrite
      → find_job id s ≡ some j
      → find_playbook j.playbook_id s ≡ some p
      → targets_of temp_dir stringify j s ≡ sv ∷ svs
      → All
          (λ f. exists f (execute_job temp_dir stringify now id variables s).1.world ≡ false)
          (job_paths j.id (sv ∷ svs))
  execute_job_cleans_up now id variables j p s sv svs laws can found book targets =
      let a = attempt temp_dir stringify j p variables s in
      subst
        (λ fs.
          All (λ f. exists f (execute_job temp_dir stringify now id variables s).1.world ≡ false)
            fs)
        (attempt_files j p variables s sv svs targets can)
        (subst (λ w. All (λ f. exists f w ≡ false) a.temp_files)
          (ap (λ (x : Result (Unit {0}) × Ansible). x.1.world)
            (sym (execute_job_found now id variables j p s found book)))
          (clean_up_every a.temp_files a.world laws))
