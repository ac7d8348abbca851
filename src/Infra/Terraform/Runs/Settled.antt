-- ===== src/Infra/Terraform/Runs/Settled.antt =====
-- A run that a worker takes ends, with one closing event.
use hamyar_ops.Base.{
  ℕ, String, ◌≡◌, ◌⊎◌, ◌↔◌, inl, inr, refl, subst, ap, sym, ◌∙◌, Option, none, some, List, [], ◌∷◌,
  ◌++◌, arith, first, eq_iff, append_assoc, codes,
}
use hamyar_ops.Base.Chars.{Text, join}
use hamyar_ops.Base.Rows.{first-append_none}
use hamyar_ops.Prisma.{Database}
use hamyar_ops.Prisma.Updates.{found_id, find_first-update_twice}
use hamyar_ops.Http.{Result, ok}
use hamyar_ops.Bull.{JobQueue}
use hamyar_ops.Infra.Processes.{Machine, stdout}
use hamyar_ops.Infra.Terraform.{
  RunStatus, PlanSummary, queue_run, new_run, Workspace, TerraformRun, RunJob, BusEvent, log_line,
  run_done, Terraform, find_run, find_workspace, run_command,
}
use hamyar_ops.Infra.Terraform.Runs.{
  attempt, Attempt, status_of, output_of, summary_of, line_texts, log_all, set_running, finish,
  by_id, announce, settle, execute_in, execute_run, process,
}

module _ ⦃db : Database⦄ ⦃bull : JobQueue⦄ ⦃machine : Machine⦄ where
  open db use {rows}

  execute_run_found :
      (now : ℕ) (id : String) (r : TerraformRun) (w : Workspace) (s : Terraform)
      → find_run id s ≡ some r
      → find_workspace r.workspace_id s ≡ some w
      → execute_run now id s ≡ settle now r w (attempt s w r) s
  unfolding execute_run execute_in attempt
  execute_run_found now id r w s found home = rw (found, execute_run, home)

  find_run-settle :
      (now : ℕ) (id : String) (r : TerraformRun) (w : Workspace) (a : Attempt) (s : Terraform)
      → find_run id s ≡ some r
      → find_run id (settle now r w a s) ≡ some (finish now a (set_running r))
  find_run-settle now id r w a s found =
      find_first-update_twice (λ (t : TerraformRun). t.id) id r set_running (finish now a) s.runs
        found (λ x. refl) (λ x. refl)

  -- What the list of events ends with.
  abbrev pub LastEvent : BusEvent → List BusEvent → Type 0
  LastEvent e bus = (before : List BusEvent) × (bus ≡ before ++ e ∷ [])

  status_of-cases :
      (o : Option Text) → (status_of o ≡ RunStatus.success) ⊎ (status_of o ≡ RunStatus.failed)
  status_of-cases none = inl refl
  status_of-cases (some m) = inr refl

  status_of_iff : (o : Option Text) → (status_of o ≡ RunStatus.success) ↔ (o ≡ none)
  status_of_iff none = (λ e. refl, λ e. refl)
  status_of_iff (some m) = (λ e. ground (arith, e), λ e. ground (arith, e))

  announce_last :
      (id : String) (r : TerraformRun) (w : Workspace) (a : Attempt) (bus : List BusEvent)
      → r.id ≡ id
      → LastEvent
          (run_done id w.id (status_of a.failure) (summary_of a.failure (line_texts a.lines)))
          (bus ++ announce r w a)
  announce_last id r w a bus same =
      let logs =
        log_line r.id w.id (codes "▶ terraform " ++ r.command ++ codes " starting…", stdout)
        ∷ log_all r.id w.id a.lines in
      let closing = λ (i : String).
        run_done i w.id (status_of a.failure) (summary_of a.failure (line_texts a.lines)) in
      (
        bus ++ logs,
        sym (append_assoc bus logs (closing r.id ∷ []))
            ∙ ap (λ i. (bus ++ logs) ++ closing i ∷ []) same,
      )

  output_of_lem :
      (o : Option Text) (ls : List Text)
      → ((o ≡ none) × (output_of o ls ≡ join b'\n' ls))
        ⊎ ((message : Text) × (o ≡ some message)
            × (output_of o ls ≡ join b'\n' ls ++ codes "\n✗ " ++ message))
  output_of_lem none ls = inl (refl, refl)
  output_of_lem (some message) ls = inr (message, refl, refl)

  -- A run in the table that is executed ends as SUCCESS or FAILED, at the time of the execution: as
  -- SUCCESS exactly if no step has thrown, whatever Terraform prints and however it ends. Its output
  -- is all lines that were read, joined by newlines, followed by the message if a step has thrown.
  -- The last event on the bus says the status of the same run.
  pub execute_run_settles :
      (now : ℕ) (id : String) (r : TerraformRun) (w : Workspace) (s : Terraform)
      → find_run id s ≡ some r
      → find_workspace r.workspace_id s ≡ some w
      → (done : TerraformRun) × (find_run id (execute_run now id s) ≡ some done)
        × ((done.status ≡ RunStatus.success) ⊎ (done.status ≡ RunStatus.failed))
        × ((done.status ≡ RunStatus.success) ↔ ((attempt s w r).failure ≡ none))
        × (done.finished_at ≡ some now)
        × ((output : Text) × (done.output ≡ some output)
            × ((((attempt s w r).failure ≡ none)
                  × (output ≡ join b'\n' (line_texts (attempt s w r).lines)))
                ⊎ ((message : Text) × ((attempt s w r).failure ≡ some message)
                    × (output
                        ≡ join b'\n' (line_texts (attempt s w r).lines)
                          ++ codes "\n✗ "
                          ++ message))))
        × ((summary : Option PlanSummary) × LastEvent
              (run_done id w.id done.status summary)
              (execute_run now id s).bus)
  execute_run_settles now id r w s found home =
      let a = attempt s w r in
      let same = found_id (λ (t : TerraformRun). t.id) id r s.runs found in
      let ran = execute_run_found now id r w s found home in
      (
        finish now a (set_running r),
        ap (find_run id) ran ∙ find_run-settle now id r w a s found,
        status_of-cases a.failure,
        status_of_iff a.failure,
        refl,
        (
          output_of a.failure (line_texts a.lines),
          refl,
          output_of_lem a.failure (line_texts a.lines),
        ),
        (
          summary_of a.failure (line_texts a.lines),
          subst
              (LastEvent (
                run_done id w.id (status_of a.failure) (summary_of a.failure (line_texts a.lines))))
              (ap (λ (t : Terraform). t.bus) (sym ran)) (announce_last id r w a s.bus same),
        ),
      )

  -- A command for a workspace, with a new id for its run, gives a run that waits; the worker that
  -- executes it ends it as SUCCESS or FAILED.
  pub process-run_command :
      (now : ℕ) (id workspace_id : String) (command : Text) (w : Workspace) (s : Terraform)
      → find_workspace workspace_id s ≡ some w
      → find_run id s ≡ none
      → let after = (run_command id workspace_id command s).1 in
        (bull.waiting after.queue
          ≡ bull.waiting s.queue
            ++ ("run", record { run_id = id; workspace_id = workspace_id; command = command }) ∷ [])
        × ((done : TerraformRun) × (find_run id (
                process now
                  (record { run_id = id; workspace_id = workspace_id; command = command })
                  after)
              ≡ some done)
            × ((done.status ≡ RunStatus.success) ⊎ (done.status ≡ RunStatus.failed)))
  unfolding run_command process
  process-run_command now id workspace_id command w s home fresh =
      let r = new_run id workspace_id command in
      let s' = queue_run r s in
      let there : find_run id s' ≡ some r =
        ap (first (by_id id)) (db.rows-create r s.runs)
        ∙ first-append_none (by_id id) (rows s.runs) (r ∷ []) fresh
        ∙ ground (arith, eq_iff id id) in
      let (done, stored, ended, _, _, _, _) = execute_run_settles now id r w s' there home in
      let queued : run_command id workspace_id command s ≡ (ok r, s') = rw (home, run_command) in
      let job : RunJob = record { run_id = id; workspace_id = workspace_id; command = command } in
      (
        ap (λ (x : Result TerraformRun × Terraform). bull.waiting x.1.queue) queued
            ∙ bull.waiting-add "run" job s.queue,
        (
          done,
          ap (λ (x : Result TerraformRun × Terraform). find_run id (process now job x.1)) queued
              ∙ stored,
          ended,
        ),
      )
