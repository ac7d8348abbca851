-- ===== src/Backups/Execution/Strategies.antt =====
-- Backups and their retention do not change the strategies.
use hamyar_ops.Base.{
  ℕ, ◌≡◌, refl, ◌∙◌, String, Option, none, some, List, [], ◌∷◌, Option-cases, inl, inr, drop, keep,
}
use hamyar_ops.Base.Rows.Deletions.{newest_first}
use hamyar_ops.Prisma.{Database, find_first}
use hamyar_ops.Http.{Result, ok, err, resume-keeps}
use hamyar_ops.Schedules.Backups.{Strategy}
use hamyar_ops.Backups.{
  TargetType, BackupRecord, Storages, Backups, by_id, after_unlink, delete_record, delete_records,
  enforce_retention, strategy_of, is_kept,
}
use hamyar_ops.Backups.Archives.{AppTarget}
use hamyar_ops.Backups.Archives.Machine.{Effects}
use hamyar_ops.Backups.Execution.{retain, archived}
use hamyar_ops.Backups.Execution.Archived.{archived-Keeps}

module _ ⦃db : Database⦄ ⦃storages : Storages⦄ where
  after_unlink-strategies :
      (id : String) (x : Result (Unit {0}) × storages.World) (s : Backups)
      → (after_unlink id x s).1.strategies ≡ s.strategies
  after_unlink-strategies id (ok done, w) s = refl
  after_unlink-strategies id (err e, w) s = refl

  delete_record-strategies :
      (id : String) (s : Backups) → (delete_record id s).1.strategies ≡ s.strategies
  unfolding delete_record
  delete_record-strategies id s = elim (Option-cases (find_first (by_id id) s.records)) [
    | inl e ↦ rw (e, delete_record)
    | inr (r, e) ↦ rw (e, delete_record) (after_unlink-strategies id _ s)
  ]

  delete_records-strategies :
      (ds : List BackupRecord) (s : Backups) → (delete_records ds s).1.strategies ≡ s.strategies
  unfolding delete_records
  delete_records-strategies [] s = refl
  delete_records-strategies (d ∷ ds) s =
      resume-keeps (λ (t : Backups). t.strategies ≡ s.strategies) (delete_record d.id s).0
        (λ _. delete_records ds) (delete_record d.id s).1 (delete_record-strategies d.id s)
        (λ _ t k. delete_records-strategies ds t ∙ k)

  enforce_retention-strategies :
      (t : Strategy) (s : Backups) → (enforce_retention t s).strategies ≡ s.strategies
  unfolding enforce_retention
  enforce_retention-strategies t s =
      delete_records-strategies
        (drop t.retention_max (
          newest_first (λ (r : BackupRecord). r.created_at)
            (keep (is_kept t.id) (db.rows s.records))))
        s

module _ ⦃db : Database⦄ ⦃storages : Storages⦄ (effects : Effects storages.World)
    (compose_file backups_dir : String) (ttl_hours : ℕ) (safe : String → String)
    (apps : List AppTarget) where
  retain-strategies :
      (o : Option String) (s : Backups)
      → (retain effects compose_file backups_dir ttl_hours safe apps o s).strategies ≡ s.strategies
  retain-strategies none s = refl
  retain-strategies (some id) s = by_strategy (strategy_of (some id) s)
    where
      by_strategy :
          (t : Option Strategy)
          → (elim t as (λ t'. Backups) [ none ↦ s | some x ↦ enforce_retention x s ]).strategies
            ≡ s.strategies
      by_strategy none = refl
      by_strategy (some t) = enforce_retention-strategies t s

  pub archived-strategies :
      (now : ℕ) (stamp : String) (type : TargetType) (name : String) (o : Option String)
      (s : Backups)
      → (archived effects compose_file backups_dir ttl_hours safe apps now stamp type name o
          s).1.strategies
        ≡ s.strategies
  archived-strategies now stamp type name o s =
      archived-Keeps effects compose_file backups_dir ttl_hours safe apps
        (λ s'. s'.strategies ≡ s.strategies) (λ s' w h. h) (λ o s' h. retain-strategies o s' ∙ h)
        now stamp type name o s refl
