-- ===== src/Backups/Retention.antt =====
-- How many backups a strategy keeps.
use hamyar_ops.Base.{
  ◌≤◌, ◌≡◌, refl, sym, ap, ◌∙◌, String, Bool, true, not, Bool-cases, Option, none, some, List, [],
  ◌∷◌, keep, length, drop, arith, length-drop, Option-cases, inl, inr,
}
use hamyar_ops.Base.Rows.{IsDistinct, IsDistinct-keep, keep-absent}
use hamyar_ops.Base.Rows.Deletions.{
  newest_first, length-newest_first, All-newest_first, All-drop, IsDistinct-newest_first,
  IsDistinct-drop, delete, delete_all, counts, length-delete_all, AllCount, AllCount-keep,
}
use hamyar_ops.Prisma.{Database, find_first}
use hamyar_ops.Http.{Result, ok, err, resume-ok}
use hamyar_ops.Schedules.Backups.{Strategy}
use hamyar_ops.Backups.{
  Storages, BackupRecord, Backups, by_id, is_kept, unlink_if_there, after_unlink, delete_record,
  delete_records, enforce_retention,
}

module _ ⦃db : Database⦄ ⦃storages : Storages⦄ where
  open db use {rows}
  open storages use {World, exists, unlink}

  abbrev id_of : BackupRecord → String
  id_of r = r.id

  -- The files that are there can be removed.
  abbrev pub CanUnlink : Type 0
  CanUnlink = (path : String) (w : World) → exists path w ≡ true → (unlink path w).0 ≡ ok tt

  unlink_if_there_lem :
      (path : Option String) (w : World) → CanUnlink → (unlink_if_there path w).0 ≡ ok tt
  unlink_if_there_lem none w can = refl
  unlink_if_there_lem (some path) w can = elim (Bool-cases (exists path w)) [
    | inl there ↦ rw there (can path w there)
    | inr gone ↦ rw gone
  ]

  after_unlink_lem :
      (i : String) (x : Result (Unit {0}) × World) (s : Backups)
      → x.0 ≡ ok tt
      → ((after_unlink i x s).0 ≡ ok tt)
        × (rows (after_unlink i x s).1.records ≡ keep (λ r. not (by_id i r)) (rows s.records))
  after_unlink_lem i (ok tt, w) s h = (refl, db.rows-delete_many (by_id i) s.records)
  after_unlink_lem i (err e, w) s h = absurd (ground arith)

  rows-delete_record :
      (i : String) (s : Backups) (p : BackupRecord → Bool)
      → CanUnlink
      → ((delete_record i s).0 ≡ ok tt)
        × (rows (delete_record i s).1.records ≡ delete id_of p i (rows s.records))
  unfolding delete_record
  rows-delete_record i s p can = elim (Option-cases (find_first (by_id i) s.records)) [
    | inl e ↦ rw (e, delete_record) (refl, sym (keep-absent (by_id i) (rows s.records) e))
    | inr (r, e) ↦
        rw (e, delete_record) (after_unlink_lem i _ s (unlink_if_there_lem r.local_path _ can))
  ]

  rows-delete_records :
      (ds : List BackupRecord) (s : Backups) (p : BackupRecord → Bool)
      → CanUnlink
      → rows (delete_records ds s).1.records ≡ delete_all id_of p ds (rows s.records)
  unfolding delete_records
  rows-delete_records [] s p can = refl
  rows-delete_records (d ∷ ds) s p can =
      let (returned, changed) = rows-delete_record d.id s p can in
      ap (λ (z : Result (Unit {0}) × Backups). rows z.1.records)
        (resume-ok (delete_record d.id s).0 (λ _. delete_records ds) (delete_record d.id s).1 tt
          returned)
      ∙ rows-delete_records ds (delete_record d.id s).1 p can
      ∙ ap (delete_all id_of p ds) changed

  -- Where the ids of the records are distinct and the files that are there can be removed, a
  -- strategy has at most as many finished backups after its retention was enforced as it may keep.
  pub enforce_retention_bounds :
      (t : Strategy) (s : Backups)
      → IsDistinct id_of (rows s.records)
      → CanUnlink
      → length (keep (is_kept t.id) (rows (enforce_retention t s).records)) ≤ t.retention_max
  unfolding enforce_retention
  enforce_retention_bounds t s d can =
      let p = is_kept t.id in
      let xs = rows s.records in
      let at = λ (r : BackupRecord). r.created_at in
      let sorted = newest_first at (keep p xs) in
      let surplus = drop t.retention_max sorted in
      let distinct =
        IsDistinct-drop at id_of t.retention_max sorted
          (IsDistinct-newest_first at id_of (keep p xs) (IsDistinct-keep id_of p xs d)) in
      let counted : AllCount id_of p xs surplus =
        All-drop at (λ r. counts id_of p xs r.id ≡ true) t.retention_max sorted
          (All-newest_first at (λ r. counts id_of p xs r.id ≡ true) (keep p xs)
            (AllCount-keep id_of p xs)) in
      ground (
        arith,
        ap (λ ys. length (keep p ys)) (rows-delete_records surplus s p can),
        length-delete_all id_of p surplus xs distinct counted,
        length-drop t.retention_max sorted,
        length-newest_first at (keep p xs),
      )
