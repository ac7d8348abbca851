-- ===== src/Schedules/CronJobs/KeyFiles.antt =====
-- What the requests and the runs of cron jobs leave of the key files.
use hamyar_ops.Base.{
  ℕ, ◌≡◌, String, Bool, true, false, Option, none, some, str_eq, truthy, or_else, if◌then◌else◌,
  Bool-cases, Option-cases, inl, inr, codes, ◌&&◌,
}
use hamyar_ops.Base.Chars.{Text}
use hamyar_ops.Prisma.{Database, find_first}
use hamyar_ops.Bull.{JobQueue}
use hamyar_ops.Http.{Result, Handler, pure, modify, ◌>>◌}
use hamyar_ops.Http.Invariants.{Keeps, bind}
use hamyar_ops.Supervisor.Commands.{Machine, ManagedServer, given, ssh_cmd, with_key}
use hamyar_ops.Supervisor.Commands.KeyFiles.{keyed-none, on_server-none}
use hamyar_ops.Schedules.Registration.{unregister}
use hamyar_ops.Schedules.CronJobs.{
  CronJob, CreateCronJob, UpdateCronJob, CommandResult, CronJobs, at_remote, on_queue, emit,
  new_job, queue_if_enabled, place_job, create_job, find_job, job_key, update_remote, update_queue,
  update_job, withdraw_job, delete_job, finish_run, replace_entry, definition_changed, flag_changed,
  cron_created, cron_deleted, apply_dto,
}
use hamyar_ops.Schedules.CronJobs.Crontab.{
  crontabs, server_of, add_cmd, remove_cmd, add_entry, remove_entry,
}
use hamyar_ops.Schedules.CronJobs.Runs.{run_now, run_found, on_found, there, here}

module _ ⦃db : Database⦄ ⦃bull : JobQueue⦄ (World : Type 0)
    (exec : Text → World → Result Text × World) (key_file p : Text) where
  abbrev Service : Type 0
  Service = CronJobs (crontabs World exec key_file)

  -- No private key stands at the path.
  abbrev pub NoKey : Service → Type 0
  NoKey s = s.crontabs.temp_files p ≡ none

  add_entry-none :
      (server id title cron command : String) (m : Machine World exec)
      → m.temp_files p ≡ none
      → (add_entry World exec key_file server id title cron command m).1.temp_files p ≡ none
  unfolding add_entry
  add_entry-none server id title cron command m h =
      elim (Option-cases (server_of World exec key_file server m)) [
        | inl absent ↦ rw (absent, add_entry) h
        | inr (s, found) ↦
            rw (found, add_entry)
              (on_server-none World exec (codes "30") key_file p (add_cmd id title cron command) s m
                h)
      ]

  remove_entry-none :
      (server id : String) (m : Machine World exec)
      → m.temp_files p ≡ none
      → (remove_entry World exec key_file server id m).1.temp_files p ≡ none
  unfolding remove_entry
  remove_entry-none server id m h = elim (Option-cases (server_of World exec key_file server m)) [
    | inl absent ↦ rw (absent, remove_entry) h
    | inr (s, found) ↦
        rw (found, remove_entry)
          (on_server-none World exec (codes "30") key_file p (remove_cmd id) s m h)
  ]

  added :
      (server id title cron command : String)
      → Keeps NoKey (
          at_remote
            (crontabs World exec key_file)
            (add_entry World exec key_file server id title cron command))
  added server id title cron command s h = add_entry-none server id title cron command s.crontabs h

  removed :
      (server id : String)
      → Keeps NoKey
          (at_remote (crontabs World exec key_file) (remove_entry World exec key_file server id))
  removed server id s h = remove_entry-none server id s.crontabs h

  choose :
      {A : Type 0} (b : Bool) (m n : Handler Service A)
      → Keeps NoKey m
      → Keeps NoKey n
      → Keeps NoKey (if b then m else n)
  choose true m n h k = h
  choose false m n h k = k

  -- The server of a job, as the requests name it.
  abbrev server : CronJob → String
  server j = or_else j.server_id ""

  placed : (j : CronJob) → Keeps NoKey (place_job (crontabs World exec key_file) j)
  unfolding place_job
  placed j =
      choose (truthy j.server_id)
        (at_remote (crontabs World exec key_file)
          (add_entry World exec key_file (server j) j.id j.title j.cron_expression j.command))
        (on_queue (crontabs World exec key_file)
          (queue_if_enabled (crontabs World exec key_file) j))
        (added (server j) j.id j.title j.cron_expression j.command) (λ s h. h)

  pub create_job-NoKey :
      (id : String) (dto : CreateCronJob)
      → Keeps NoKey (create_job (crontabs World exec key_file) id dto)
  unfolding create_job
  create_job-NoKey id dto =
      let j = new_job (crontabs World exec key_file) id dto in
      let last : Handler Service CronJob = (do
        emit (crontabs World exec key_file) cron_created
        pure j) in
      bind NoKey (modify λ s. record s { jobs = db.create j s.jobs })
        (λ u. do place_job (crontabs World exec key_file) j; last) (λ s h. h)
        (λ u.
          bind NoKey (place_job (crontabs World exec key_file) j) (λ v. last) (placed j)
            (λ v s h. h))

  replaced :
      (j : CronJob) (dto : UpdateCronJob)
      → Keeps NoKey (replace_entry (crontabs World exec key_file) j dto)
  replaced j dto =
      let title = or_else dto.title j.title in
      let cron = or_else dto.cron_expression j.cron_expression in
      let command = or_else dto.command j.command in
      bind NoKey
        (at_remote (crontabs World exec key_file)
          (remove_entry World exec key_file (server j) j.id))
        (λ u.
          at_remote (crontabs World exec key_file)
            (add_entry World exec key_file (server j) j.id title cron command))
        (removed (server j) j.id) (λ u. added (server j) j.id title cron command)

  update_remote-NoKey :
      (j : CronJob) (dto : UpdateCronJob)
      → Keeps NoKey (update_remote (crontabs World exec key_file) j dto)
  unfolding update_remote
  update_remote-NoKey j dto =
      let changed = truthy j.server_id && definition_changed dto j in
      let switched = truthy j.server_id && flag_changed dto.enabled j.enabled in
      let replace : Handler Service (Unit {0}) =
        replace_entry (crontabs World exec key_file) j dto in
      let remove : Handler Service (Unit {0}) =
        at_remote (crontabs World exec key_file)
          (remove_entry World exec key_file (server j) j.id) in
      let toggled : Handler Service (Unit {0}) =
        if or_else dto.enabled false then replace else remove in
      bind NoKey (if changed then replace else pure tt) (λ u. if switched then toggled else pure tt)
        (choose changed replace (pure tt) (replaced j dto) (λ s h. h))
        (λ u.
          choose switched toggled (pure tt)
            (choose (or_else dto.enabled false) replace remove (replaced j dto)
              (removed (server j) j.id))
            (λ s h. h))

  find_job-NoKey : (id : String) → Keeps NoKey (find_job (crontabs World exec key_file) id)
  unfolding find_job
  find_job-NoKey id s h =
      elim (Option-cases (find_first (λ (j : CronJob). str_eq j.id id) s.jobs)) [
        | inl absent ↦ rw (absent, find_job) h
        | inr (j, found) ↦ rw (found, find_job) h
      ]

  pub update_job-NoKey :
      (id : String) (dto : UpdateCronJob)
      → Keeps NoKey (update_job (crontabs World exec key_file) id dto)
  unfolding update_job
  update_job-NoKey id dto =
      let queued : CronJob → Handler Service (Unit {0}) = λ j.
        on_queue (crontabs World exec key_file)
          (update_queue (crontabs World exec key_file) j dto) in
      let last : Handler Service (Unit {0}) = modify λ s. record s {
        jobs = db.update_many (λ (j : CronJob). str_eq j.id id) (apply_dto dto) s.jobs;
      } in
      bind NoKey (find_job (crontabs World exec key_file) id)
        (λ j. do update_remote (crontabs World exec key_file) j dto; queued j; last)
        (find_job-NoKey id)
        (λ j.
          bind NoKey (update_remote (crontabs World exec key_file) j dto) (λ u. do queued j; last)
            (update_remote-NoKey j dto)
            (λ u. bind NoKey (queued j) (λ v. last) (λ s h. h) (λ v s h. h)))

  withdrawn : (j : CronJob) → Keeps NoKey (withdraw_job (crontabs World exec key_file) j)
  unfolding withdraw_job
  withdrawn j =
      choose (truthy j.server_id)
        (at_remote (crontabs World exec key_file)
          (remove_entry World exec key_file (server j) j.id))
        (modify λ s. record s { queue = unregister (job_key j.id) s.queue })
        (removed (server j) j.id) (λ s h. h)

  pub delete_job-NoKey : (id : String) → Keeps NoKey (delete_job (crontabs World exec key_file) id)
  unfolding delete_job
  delete_job-NoKey id =
      let last : Handler Service (Unit {0}) = (do
        modify λ s. record s { jobs = db.delete_many (λ (j : CronJob). str_eq j.id id) s.jobs }
        emit (crontabs World exec key_file) cron_deleted) in
      bind NoKey (find_job (crontabs World exec key_file) id)
        (λ j. do withdraw_job (crontabs World exec key_file) j; last) (find_job-NoKey id)
        (λ j.
          bind NoKey (withdraw_job (crontabs World exec key_file) j) (λ u. last) (withdrawn j)
            (λ u s h. h))

  module _ (run : Text → World → CommandResult × World) where
    run_found-NoKey :
        (now : ℕ) (j : CronJob) → Keeps NoKey (run_found World exec key_file run now j)
    unfolding run_found on_found there here finish_run
    run_found-NoKey now j s h = elim (Bool-cases (truthy j.server_id)) [
      | inl e ↦
          rw (e, run_found) (on_found-NoKey (server_of World exec key_file (server j) s.crontabs))
      | inr e ↦ rw (e, run_found) h
    ]
      where
        on_found-NoKey :
            (o : Option ManagedServer) → NoKey (on_found World exec key_file run now j o s).1
        on_found-NoKey none = h
        on_found-NoKey (some t) =
            let k = given t.ssh_key_id in
            let m = with_key World exec key_file k s.crontabs in
            let ran = run (ssh_cmd (codes "30") t key_file (codes j.command)) m.world in
            keyed-none World exec key_file p k ran.1 s.crontabs h

    pub run_now-NoKey :
        (now : ℕ) (id : String) → Keeps NoKey (run_now World exec key_file run now id)
    unfolding run_now
    run_now-NoKey now id =
        bind NoKey (find_job (crontabs World exec key_file) id)
          (run_found World exec key_file run now) (find_job-NoKey id) (run_found-NoKey now)
