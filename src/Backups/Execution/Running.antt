-- ===== src/Backups/Execution/Running.antt =====
-- A record that is running outlives the retention, which deletes only finished ones.
use hamyar_ops.Base.{
  ◌≡◌, ◌≢◌, refl, sym, ap, ◌∙◌, inl, inr, String, Bool, true, false, not, List, [], ◌∷◌, ◌++◌, All,
  amend, any, arith, eq_iff, keep, drop, Option-cases, if◌then◌else◌,
}
use hamyar_ops.Base.Rows.Deletions.{newest_first, All-newest_first, All-drop}
use hamyar_ops.Prisma.{Database, find_first}
use hamyar_ops.Http.{Result, ok, err, resume-keeps}
use hamyar_ops.Schedules.Backups.{Strategy}
use hamyar_ops.Backups.{
  RecordStatus, BackupRecord, Storages, Backups, by_id, is_kept, after_unlink, delete_record,
  delete_records, enforce_retention,
}
use hamyar_ops.Backups.Execution.Keeping.{delete_record-All}

-- A record of this id is running.
abbrev pub RunsAs : String → BackupRecord → Type 0
RunsAs i r = r.id ≡ i → r.status ≡ RecordStatus.running

abbrev pub IsOther : String → BackupRecord → Type 0
IsOther i r = r.id ≢ i

any-keep_other :
    (i j : String) (xs : List BackupRecord)
    → j ≢ i
    → any (by_id i) (keep (λ x. not (by_id j x)) xs) ≡ any (by_id i) xs
any-keep_other i j [] h = refl
any-keep_other i j (x ∷ xs) h = ground (
  arith,
  any-keep_other i j xs h,
  eq_iff x.id i,
  eq_iff x.id j,
  λ (e : x.id ≡ i) (f : x.id ≡ j). h (sym f ∙ e),
)

pub any_last :
    (i : String) (xs : List BackupRecord) (r : BackupRecord)
    → r.id ≡ i
    → any (by_id i) (xs ++ r ∷ []) ≡ true
any_last i [] r h = ground (arith, eq_iff r.id i)
any_last i (x ∷ xs) r h = ground (arith, any_last i xs r h)

kept_others :
    (i k : String) (xs : List BackupRecord)
    → All (RunsAs i) xs
    → All (IsOther i) (keep (is_kept k) xs)
kept_others i k [] h = tt
kept_others i k (x ∷ xs) (a, h) = one (is_kept k x) refl (kept_others i k xs h)
  where
    one :
        (b : Bool)
        → is_kept k x ≡ b
        → All (IsOther i) (keep (is_kept k) xs)
        → All (IsOther i) (if b then x ∷ keep (is_kept k) xs else keep (is_kept k) xs)
    one true e later = ((λ same. ground (arith, a same, e)), later)
    one false e later = later

pub runs_others : (i : String) (xs : List BackupRecord) → All (IsOther i) xs → All (RunsAs i) xs
runs_others i [] h = tt
runs_others i (x ∷ xs) (a, h) = (λ same. absurd (a same), runs_others i xs h)

pub amend_others :
    (i j : String) (f : BackupRecord → BackupRecord) (xs : List BackupRecord)
    → ((x : BackupRecord) → (f x).id ≡ x.id)
    → All (IsOther i) xs
    → All (IsOther i) (amend (by_id j) f xs)
amend_others i j f [] same h = tt
amend_others i j f (x ∷ xs) same (a, h) = (one (by_id j x), amend_others i j f xs same h)
  where
    one : (b : Bool) → IsOther i (if b then f x else x)
    one true = λ e. a (sym (same x) ∙ e)
    one false = a

module _ ⦃db : Database⦄ ⦃storages : Storages⦄ (i : String) where
  open db use {rows}

  -- The record of this id is there and running.
  abbrev pub IsRunning : Backups → Type 0
  IsRunning s = All (RunsAs i) (rows s.records) × (any (by_id i) (rows s.records) ≡ true)

  after_unlink-IsRunning :
      (j : String) (x : Result (Unit {0}) × storages.World) (s : Backups)
      → j ≢ i
      → IsRunning s
      → any (by_id i) (rows (after_unlink j x s).1.records) ≡ true
  after_unlink-IsRunning j (ok done, w) s n (a, h) =
      ap (any (by_id i)) (db.rows-delete_many (by_id j) s.records)
      ∙ any-keep_other i j (rows s.records) n
      ∙ h
  after_unlink-IsRunning j (err e, w) s n (a, h) = h

  delete_record-IsRunning :
      (j : String) (s : Backups) → j ≢ i → IsRunning s → IsRunning (delete_record j s).1
  unfolding delete_record
  delete_record-IsRunning j s n h = (
    delete_record-All (RunsAs i) j s h.0,
    elim (Option-cases (find_first (by_id j) s.records)) [
      | inl e ↦ rw (e, delete_record) h.1
      | inr (r, e) ↦ rw (e, delete_record) (after_unlink-IsRunning j _ s n h)
    ],
  )

  delete_records-IsRunning :
      (ds : List BackupRecord) (s : Backups)
      → All (IsOther i) ds
      → IsRunning s
      → IsRunning (delete_records ds s).1
  unfolding delete_records
  delete_records-IsRunning [] s o h = h
  delete_records-IsRunning (d ∷ ds) s (n, o) h =
      resume-keeps IsRunning (delete_record d.id s).0 (λ _. delete_records ds)
        (delete_record d.id s).1 (delete_record-IsRunning d.id s n h)
        (λ _ t k. delete_records-IsRunning ds t o k)

  pub enforce_retention-IsRunning :
      (t : Strategy) (s : Backups) → IsRunning s → IsRunning (enforce_retention t s)
  unfolding enforce_retention
  enforce_retention-IsRunning t s h =
      let at = λ (r : BackupRecord). r.created_at in
      let kept = keep (is_kept t.id) (rows s.records) in
      delete_records-IsRunning (drop t.retention_max (newest_first at kept)) s
        (All-drop at (IsOther i) t.retention_max (newest_first at kept)
          (All-newest_first at (IsOther i) kept (kept_others i t.id (rows s.records) h.0)))
        h
