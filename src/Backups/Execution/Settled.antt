-- ===== src/Backups/Execution/Settled.antt =====
-- How the records of backups end.
use hamyar_ops.Base.{
  ℕ, ◌≡◌, ◌≢◌, refl, sym, subst, String, Bool, true, false, Option, none, some, List, [], ◌∷◌, All,
  All-last, amend, arith, eq_iff, Bool-cases, Option-cases, inl, inr, if◌then◌else◌,
}
use hamyar_ops.Prisma.{Database}
use hamyar_ops.Http.{Result, ok, err}
use hamyar_ops.Schedules.Backups.{Strategy}
use hamyar_ops.Backups.{
  RecordStatus, TargetType, BackupRecord, Storages, Backups, by_id, enforce_retention, strategy_of,
}
use hamyar_ops.Backups.Archives.{AppTarget}
use hamyar_ops.Backups.Archives.Machine.{Effects}
use hamyar_ops.Backups.Execution.Archived.{archived-Keeps}
use hamyar_ops.Backups.Execution.{
  Stored, retain, archived, settle, execute_backup, started, new_record, run_targets,
  run_strategy_backup, archive_name, type_of, storage_of, finished,
}
use hamyar_ops.Backups.Execution.Keeping.{Holds, enforce_retention-All}

-- A record that is running is the one of this id.
abbrev OnlyRunning : String → BackupRecord → Type 0
OnlyRunning i r = r.status ≡ RecordStatus.running → r.id ≡ i

abbrev pub IsSettled : BackupRecord → Type 0
IsSettled r = r.status ≢ RecordStatus.running

module _ ⦃db : Database⦄ ⦃storages : Storages⦄ (effects : Effects storages.World)
    (compose_file backups_dir : String) (ttl_hours : ℕ) (safe : String → String)
    (apps : List AppTarget) where
  open db use {rows}

  abbrev execute : ℕ → String → String → TargetType → String → Option String → Backups → Backups
  execute = execute_backup effects compose_file backups_dir ttl_hours safe apps

  pub retain-Keeps :
      (P : BackupRecord → Type 0) (o : Option String) (s : Backups)
      → All P (rows s.records)
      → All P (rows (retain effects compose_file backups_dir ttl_hours safe apps o s).records)
  retain-Keeps P none s h = h
  retain-Keeps P (some id) s h = by_strategy (strategy_of (some id) s)
    where
      by_strategy :
          (t : Option Strategy)
          → All P (
              rows
                (elim t as (λ t'. Backups) [ none ↦ s | some x ↦ enforce_retention x s ]).records)
      by_strategy none = h
      by_strategy (some t) = enforce_retention-All P t s h

  amend_settles :
      (i : String) (f : BackupRecord → BackupRecord) (xs : List BackupRecord)
      → ((r : BackupRecord) → IsSettled (f r))
      → All (OnlyRunning i) xs
      → All IsSettled (amend (by_id i) f xs)
  amend_settles i f [] settles h = tt
  amend_settles i f (x ∷ xs) settles (k, h) = (one (by_id i x) refl, amend_settles i f xs settles h)
    where
      one : (b : Bool) → by_id i x ≡ b → IsSettled (if b then f x else x)
      one true e = settles x
      one false e = λ running. ground (arith, eq_iff x.id i, k running)

  settle_settles :
      (i : String) (o : Option String) (file_name : String) (x : Result (ℕ × Stored) × Backups)
      → All (OnlyRunning i) (rows x.1.records)
      → All IsSettled (
          rows
            (settle effects compose_file backups_dir ttl_hours safe apps i o file_name x).records)
  settle_settles i o file_name (ok (size, t), s) h =
      let f = finished effects compose_file backups_dir ttl_hours safe apps o file_name size t in
      subst (All IsSettled) (sym (db.rows-update_many (by_id i) f s.records))
        (amend_settles i f (rows s.records) (λ r e. cc) h)
  settle_settles i o file_name (err e, s) h =
      let f = λ (r : BackupRecord). record r { status = RecordStatus.failed; message = some e } in
      subst (All IsSettled) (sym (db.rows-update_many (by_id i) f s.records))
        (amend_settles i f (rows s.records) (λ r e. cc) h)

  execute_settles :
      (now : ℕ) (stamp i : String) (type : TargetType) (name : String) (o : Option String)
      (s : Backups)
      → All (OnlyRunning i) (rows s.records)
      → All IsSettled (rows (execute now stamp i type name o s).records)
  unfolding execute_backup
  execute_settles now stamp i type name o s h =
      settle_settles i o
        (archive_name effects compose_file backups_dir ttl_hours safe apps type name stamp)
        (archived effects compose_file backups_dir ttl_hours safe apps now stamp type name o s)
        (archived-Keeps effects compose_file backups_dir ttl_hours safe apps (Holds (OnlyRunning i))
          (λ s w h. h) (retain-Keeps (OnlyRunning i)) now stamp type name o s h)

  only_running : (i : String) (xs : List BackupRecord) → All IsSettled xs → All (OnlyRunning i) xs
  only_running i [] h = tt
  only_running i (x ∷ xs) (k, h) = (λ running. absurd (k running), only_running i xs h)

  started_running :
      (r : BackupRecord) (s : Backups)
      → All IsSettled (rows s.records)
      → All
          (OnlyRunning r.id)
          (rows (started effects compose_file backups_dir ttl_hours safe apps r s).records)
  started_running r s h = subst (All (OnlyRunning r.id)) (sym (db.rows-create r s.records)) (
      All-last (OnlyRunning r.id) (rows s.records) r (only_running r.id (rows s.records) h)
        (λ running. refl))

  run_targets_settle :
      (now : ℕ) (stamp : String) (ids : String → String) (t : Strategy) (names : List String)
      (s : Backups)
      → All IsSettled (rows s.records)
      → All IsSettled (
          rows
            (run_targets effects compose_file backups_dir ttl_hours safe apps now stamp ids t names
              s).records)
  unfolding run_targets
  run_targets_settle now stamp ids t [] s h = h
  run_targets_settle now stamp ids t (name ∷ names) s h =
      let r =
        new_record effects compose_file backups_dir ttl_hours safe apps now (ids name) (some t.id)
          (type_of t.target_type) name
          (storage_of effects compose_file backups_dir ttl_hours safe apps t.storage) in
      run_targets_settle now stamp ids t names
        (execute now stamp (ids name) (type_of t.target_type) name (some t.id)
          (started effects compose_file backups_dir ttl_hours safe apps r s))
        (execute_settles now stamp (ids name) (type_of t.target_type) name (some t.id)
          (started effects compose_file backups_dir ttl_hours safe apps r s)
          (started_running r s h))

  pub run_strategy_backup-IsSettled :
      (now : ℕ) (stamp : String) (ids : String → String) (strategy_id : String) (s : Backups)
      → All IsSettled (rows s.records)
      → All IsSettled (
          rows
            (run_strategy_backup effects compose_file backups_dir ttl_hours safe apps now stamp ids
              strategy_id s).records)
  unfolding run_strategy_backup
  run_strategy_backup-IsSettled now stamp ids strategy_id s h =
      elim (Option-cases (strategy_of (some strategy_id) s)) [
        | inl e ↦ rw (e, run_strategy_backup) h
        | inr (t, e) ↦
            rw (e, run_strategy_backup)
              (elim (Bool-cases t.enabled) [
                | inl b ↦ rw b (run_targets_settle now stamp ids t t.targets s h)
                | inr b ↦ rw b h
              ])
      ]
