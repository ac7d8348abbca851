-- ===== src/Backups/Execution/Keeping.antt =====
-- The deletion of records keeps what holds of all of them.
use hamyar_ops.Base.{
  sym, subst, String, List, [], ◌∷◌, All, All-keep, not, Option-cases, inl, inr, drop, keep,
}
use hamyar_ops.Base.Rows.Deletions.{newest_first}
use hamyar_ops.Prisma.{Database, find_first}
use hamyar_ops.Http.{Result, ok, err, resume-keeps}
use hamyar_ops.Schedules.Backups.{Strategy}
use hamyar_ops.Backups.{
  BackupRecord, Storages, Backups, by_id, after_unlink, delete_record, delete_records,
  enforce_retention, is_kept,
}

module _ ⦃db : Database⦄ ⦃storages : Storages⦄ (P : BackupRecord → Type 0) where
  open db use {rows}

  -- What holds of all records.
  abbrev pub Holds : Backups → Type 0
  Holds s = All P (rows s.records)

  after_unlink-All :
      (id : String) (x : Result (Unit {0}) × storages.World) (s : Backups)
      → All P (rows s.records)
      → All P (rows (after_unlink id x s).1.records)
  after_unlink-All id (ok done, w) s h =
      subst (All P) (sym (db.rows-delete_many (by_id id) s.records))
        (All-keep P (λ x. not (by_id id x)) (rows s.records) h)
  after_unlink-All id (err e, w) s h = h

  pub delete_record-All :
      (id : String) (s : Backups)
      → All P (rows s.records)
      → All P (rows (delete_record id s).1.records)
  unfolding delete_record
  delete_record-All id s h = elim (Option-cases (find_first (by_id id) s.records)) [
    | inl e ↦ rw (e, delete_record) h
    | inr (r, e) ↦ rw (e, delete_record) (after_unlink-All id _ s h)
  ]

  pub delete_records-All :
      (ds : List BackupRecord) (s : Backups)
      → All P (rows s.records)
      → All P (rows (delete_records ds s).1.records)
  unfolding delete_records
  delete_records-All [] s h = h
  delete_records-All (d ∷ ds) s h =
      resume-keeps (λ (t : Backups). All P (rows t.records)) (delete_record d.id s).0
        (λ _. delete_records ds) (delete_record d.id s).1 (delete_record-All d.id s h)
        (λ _ t k. delete_records-All ds t k)

  pub enforce_retention-All :
      (t : Strategy) (s : Backups)
      → All P (rows s.records)
      → All P (rows (enforce_retention t s).records)
  unfolding enforce_retention
  enforce_retention-All t s h =
      delete_records-All
        (drop t.retention_max (
          newest_first (λ (r : BackupRecord). r.created_at) (keep (is_kept t.id) (rows s.records))))
        s h
