-- ===== src/Backups/Execution/Targets.antt =====
-- What a run of a strategy leaves of the record of its last target.
use hamyar_ops.Base.{
  ℕ, ◌≡◌, ◌≢◌, refl, sym, ap, subst, ◌∙◌, ◌⊎◌, inl, inr, String, true, Option, none, some, List, [],
  ◌∷◌, ◌++◌, All, All-last, any, first,
}
use hamyar_ops.Base.Rows.{first-of_any, first-amend_found}
use hamyar_ops.Prisma.{Database, find_first}
use hamyar_ops.Http.{Result, ok, err}
use hamyar_ops.Schedules.Backups.{Strategy}
use hamyar_ops.Backups.{
  RecordStatus, TargetType, BackupRecord, Storages, Backups, by_id, enforce_retention, strategy_of,
}
use hamyar_ops.Backups.Archives.{AppTarget}
use hamyar_ops.Backups.Archives.Machine.{Effects}
use hamyar_ops.Backups.Execution.Archived.{archived-Keeps}
use hamyar_ops.Backups.Execution.{
  Stored, retain, archived, settle, execute_backup, started, new_record, run_targets,
  run_strategy_backup, archive_name, type_of, storage_of, finished,
}
use hamyar_ops.Backups.Execution.Keeping.{Holds}
use hamyar_ops.Backups.Execution.Settled.{IsSettled, retain-Keeps, run_strategy_backup-IsSettled}
use hamyar_ops.Backups.Execution.Running.{
  RunsAs, IsOther, IsRunning, any_last, runs_others, amend_others, enforce_retention-IsRunning,
}

-- The record of this id is there and has ended.
module _ ⦃db : Database⦄ ⦃storages : Storages⦄ where
  pub record HasEnded (i : String) (s : Backups) : Type 0 where
    pub row : BackupRecord
    pub found : find_first (by_id i) s.records ≡ some row
    pub ended : (row.status ≡ RecordStatus.success) ⊎ (row.status ≡ RecordStatus.failed)

module _ ⦃db : Database⦄ ⦃storages : Storages⦄ (effects : Effects storages.World)
    (compose_file backups_dir : String) (ttl_hours : ℕ) (safe : String → String)
    (apps : List AppTarget) where
  open db use {rows}

  retain-IsRunning :
      (i : String) (o : Option String) (s : Backups)
      → IsRunning i s
      → IsRunning i (retain effects compose_file backups_dir ttl_hours safe apps o s)
  retain-IsRunning i none s h = h
  retain-IsRunning i (some id) s h = by_strategy (strategy_of (some id) s)
    where
      by_strategy :
          (t : Option Strategy)
          → IsRunning i (elim t as (λ t'. Backups) [ none ↦ s | some x ↦ enforce_retention x s ])
      by_strategy none = h
      by_strategy (some t) = enforce_retention-IsRunning i t s h

  settle-HasEnded :
      (i : String) (o : Option String) (file_name : String) (x : Result (ℕ × Stored) × Backups)
      → IsRunning i x.1
      → HasEnded i (settle effects compose_file backups_dir ttl_hours safe apps i o file_name x)
  settle-HasEnded i o file_name (ok (size, t), s) h =
      let f = finished effects compose_file backups_dir ttl_hours safe apps o file_name size t in
      let (r, there) = first-of_any (by_id i) (rows s.records) h.1 in
      record {
        row = f r;
        found =
            ap (first (by_id i)) (db.rows-update_many (by_id i) f s.records)
            ∙ first-amend_found (by_id i) f (rows s.records) r (λ x. refl) there;
        ended = inl refl;
      }
  settle-HasEnded i o file_name (err e, s) h =
      let f = λ (r : BackupRecord). record r { status = RecordStatus.failed; message = some e } in
      let (r, there) = first-of_any (by_id i) (rows s.records) h.1 in
      record {
        row = f r;
        found =
            ap (first (by_id i)) (db.rows-update_many (by_id i) f s.records)
            ∙ first-amend_found (by_id i) f (rows s.records) r (λ x. refl) there;
        ended = inr refl;
      }

  execute-HasEnded :
      (now : ℕ) (stamp i : String) (type : TargetType) (name : String) (o : Option String)
      (s : Backups)
      → IsRunning i s
      → HasEnded i (
          execute_backup effects compose_file backups_dir ttl_hours safe apps now stamp i type name
            o s)
  unfolding execute_backup
  execute-HasEnded now stamp i type name o s h =
      settle-HasEnded i o
        (archive_name effects compose_file backups_dir ttl_hours safe apps type name stamp)
        (archived effects compose_file backups_dir ttl_hours safe apps now stamp type name o s)
        (archived-Keeps effects compose_file backups_dir ttl_hours safe apps (IsRunning i)
          (λ s w h. h) (retain-IsRunning i) now stamp type name o s h)

  settle_others :
      (i j : String) (o : Option String) (file_name : String) (x : Result (ℕ × Stored) × Backups)
      → All (IsOther i) (rows x.1.records)
      → All (IsOther i) (
          rows
            (settle effects compose_file backups_dir ttl_hours safe apps j o file_name x).records)
  settle_others i j o file_name (ok (size, t), s) h =
      let f = finished effects compose_file backups_dir ttl_hours safe apps o file_name size t in
      subst (All (IsOther i)) (sym (db.rows-update_many (by_id j) f s.records))
        (amend_others i j f (rows s.records) (λ x. refl) h)
  settle_others i j o file_name (err e, s) h =
      let f = λ (r : BackupRecord). record r { status = RecordStatus.failed; message = some e } in
      subst (All (IsOther i)) (sym (db.rows-update_many (by_id j) f s.records))
        (amend_others i j f (rows s.records) (λ x. refl) h)

  execute_others :
      (i : String) (now : ℕ) (stamp j : String) (type : TargetType) (name : String)
      (o : Option String) (s : Backups)
      → All (IsOther i) (rows s.records)
      → All (IsOther i) (
          rows
            (execute_backup effects compose_file backups_dir ttl_hours safe apps now stamp j type
              name o s).records)
  unfolding execute_backup
  execute_others i now stamp j type name o s h =
      settle_others i j o
        (archive_name effects compose_file backups_dir ttl_hours safe apps type name stamp)
        (archived effects compose_file backups_dir ttl_hours safe apps now stamp type name o s)
        (archived-Keeps effects compose_file backups_dir ttl_hours safe apps (Holds (IsOther i))
          (λ s w h. h)
          (retain-Keeps effects compose_file backups_dir ttl_hours safe apps (IsOther i)) now stamp
          type name o s h)

  -- The record of the target that comes last is new, and its backup is the last one.
  run_targets-HasEnded :
      (now : ℕ) (stamp : String) (ids : String → String) (t : Strategy) (names : List String)
      (name : String) (s : Backups)
      → All (IsOther (ids name)) (rows s.records)
      → All (λ other. ids other ≢ ids name) names
      → HasEnded (ids name) (
          run_targets effects compose_file backups_dir ttl_hours safe apps now stamp ids t
            (names ++ name ∷ [])
            s)
  unfolding run_targets
  run_targets-HasEnded now stamp ids t [] name s h n =
      let r =
        new_record effects compose_file backups_dir ttl_hours safe apps now (ids name) (some t.id)
          (type_of t.target_type) name
          (storage_of effects compose_file backups_dir ttl_hours safe apps t.storage) in
      execute-HasEnded now stamp (ids name) (type_of t.target_type) name (some t.id)
        (started effects compose_file backups_dir ttl_hours safe apps r s)
        (
          subst (All (RunsAs (ids name))) (sym (db.rows-create r s.records)) (
              All-last (RunsAs (ids name)) (rows s.records) r
                (runs_others (ids name) (rows s.records) h) (λ same. refl)),
          ap (any (by_id (ids name))) (db.rows-create r s.records)
              ∙ any_last (ids name) (rows s.records) r refl,
        )
  run_targets-HasEnded now stamp ids t (other ∷ names) name s h (n, ns) =
      let r =
        new_record effects compose_file backups_dir ttl_hours safe apps now (ids other) (some t.id)
          (type_of t.target_type) other
          (storage_of effects compose_file backups_dir ttl_hours safe apps t.storage) in
      let next = started effects compose_file backups_dir ttl_hours safe apps r s in
      run_targets-HasEnded now stamp ids t names name
        (execute_backup effects compose_file backups_dir ttl_hours safe apps now stamp (ids other)
          (type_of t.target_type) other (some t.id) next)
        (execute_others (ids name) now stamp (ids other) (type_of t.target_type) other (some t.id)
          next
          (subst (All (IsOther (ids name))) (sym (db.rows-create r s.records))
            (All-last (IsOther (ids name)) (rows s.records) r h n)))
        ns

  -- An enabled strategy with at least one target is run while no record of a backup is RUNNING, and
  -- the id of the record of its last target is neither that of a record nor that of another target's
  -- record. Then no record is RUNNING after the run, and the record of the last target is there and
  -- has ended as SUCCESS or FAILED, whatever fails on the machine.
  pub run_strategy_backup_settles :
      (now : ℕ) (stamp : String) (ids : String → String) (t : Strategy) (names : List String)
      (name : String) (strategy_id : String) (s : Backups)
      → strategy_of (some strategy_id) s ≡ some t
      → t.enabled ≡ true
      → t.targets ≡ names ++ name ∷ []
      → All IsSettled (rows s.records)
      → All (IsOther (ids name)) (rows s.records)
      → All (λ other. ids other ≢ ids name) names
      → let after =
          run_strategy_backup effects compose_file backups_dir ttl_hours safe apps now stamp ids
            strategy_id s in
        All IsSettled (rows after.records) × HasEnded (ids name) after
  unfolding run_strategy_backup
  run_strategy_backup_settles now stamp ids t names name strategy_id s there enabled targets h new
        differ =
      (
        run_strategy_backup-IsSettled effects compose_file backups_dir ttl_hours safe apps now stamp
            ids strategy_id s h,
        rw (there, run_strategy_backup, enabled, targets)
            (run_targets-HasEnded now stamp ids t names name s new differ),
      )
