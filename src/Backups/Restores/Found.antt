-- ===== src/Backups/Restores/Found.antt =====
-- Where a restore finds what a backup has stored.
use hamyar_ops.Base.{
  ℕ, ◌≡◌, ◌≢◌, refl, sym, ap, subst, ◌∙◌, String, true, ◌&&◌, Option, none, some, List, ◌<>◌,
  truthy, str_eq, eq_iff, first, Bool-cases, inl, inr, arith,
}
use text.Mathlib.TextLemmas.{append-eq-nil_iff}
use hamyar_ops.Prisma.{Database, find_first}
use hamyar_ops.Http.{Result, ok, err}
use hamyar_ops.Schedules.Backups.{Strategy}
use hamyar_ops.Backups.{
  RecordStatus, TargetType, BackupRecord, Storages, Backups, by_id, strategy_of,
}
use hamyar_ops.Backups.Archives.{AppTarget}
use hamyar_ops.Backups.Archives.Machine.{Effects}
use hamyar_ops.Backups.Execution.{
  Stored, archived, settle, execute_backup, type_text, s3_config, finished,
}
use hamyar_ops.Backups.Restores.{Location, object, file, locate, config_of}
use hamyar_ops.Base.Rows.{first-amend_from}
use hamyar_ops.Backups.Execution.Strategies.{archived-strategies}
use hamyar_ops.Backups.Execution.Placing.{
  file_of, config_in, stored_at, config_same, archived-stored_at,
}

filled_truthy : (a : String) → a ≢ "" → truthy (some a) ≡ true
filled_truthy a h = elim (Bool-cases (str_eq a "")) [
  | inl blank ↦ absurd (h ((eq_iff a "").0 blank))
  | inr e ↦ rw e
]

longer_filled : (a b : String) → a ≢ "" → a <> b ≢ ""
longer_filled a b h e = h (append-eq-nil_iff.0 e).0

key_filled :
    (type name file_name : String) → "backups/" <> type <> "/" <> name <> "/" <> file_name ≢ ""
key_filled type name file_name = longer_filled _ file_name (
    longer_filled _ "/" (
      longer_filled _ name (
        longer_filled _ "/"
          (longer_filled "backups/" type (λ e. ground (arith, (eq_iff "backups/" "").1 e))))))

module _ ⦃db : Database⦄ ⦃storages : Storages⦄ (effects : Effects storages.World)
    (compose_file backups_dir : String) (ttl_hours : ℕ) (safe : String → String)
    (apps : List AppTarget) where
  abbrev run : ℕ → String → String → TargetType → String → Option String → Backups → Backups
  run = execute_backup effects compose_file backups_dir ttl_hours safe apps

  config_given :
      (o : Option Strategy) (c : String)
      → s3_config effects compose_file backups_dir ttl_hours safe apps o ≡ some c
      → config_of o ≡ some c
  config_given none c e = cc
  config_given (some t) c e = ground (arith, e)

  -- The archive's place: in the bucket of the strategy, or in the directory of backups.
  abbrev pub place : TargetType → String → String → String → Option String → Location
  place type name file_name out none = file out
  place type name file_name out (some c) =
      object c ("backups/" <> type_text type <> "/" <> name <> "/" <> file_name)

  -- A file is there and has a name; an object belongs to the backup of a strategy.
  abbrev pub IsReachable : Option String → String → Option String → Backups → Type 0
  IsReachable o out none s = (truthy (some out) && storages.exists out s.world) ≡ true
  IsReachable o out (some c) s = truthy o ≡ true

  pub located :
      (now : ℕ) (type : TargetType) (name file_name out : String) (o : Option String) (size : ℕ)
      (r : BackupRecord) (s : Backups) (config : Option String)
      → config_in effects compose_file backups_dir ttl_hours safe apps o s ≡ config
      → IsReachable o out config s
      → locate
          (finished effects compose_file backups_dir ttl_hours safe apps o file_name size
            (stored_at effects compose_file backups_dir ttl_hours safe apps now type name file_name
              out config)
            r)
          s
        ≡ (ok (place type name file_name out config), s)
  unfolding locate
  located now type name file_name out o size r s none e h = rw h
  located now type name file_name out o size r s (some c) e h =
      let key = "backups/" <> type_text type <> "/" <> name <> "/" <> file_name in
      rw (
        h,
        filled_truthy key (key_filled (type_text type) name file_name),
        config_given (strategy_of o s) c e,
      )

  settled_found :
      (now : ℕ) (stamp i : String) (type : TargetType) (name : String) (o : Option String)
      (s : Backups) (r : BackupRecord) (x : Result (ℕ × Stored) × Backups)
      → archived effects compose_file backups_dir ttl_hours safe apps now stamp type name o s ≡ x
      → find_first
          (by_id i)
          (settle effects compose_file backups_dir ttl_hours safe apps i o
            (file_of effects compose_file backups_dir ttl_hours safe apps stamp type name)
            x).records
        ≡ some r
      → r.status ≡ RecordStatus.success
      → IsReachable o
          (effects.join backups_dir
            (file_of effects compose_file backups_dir ttl_hours safe apps stamp type name))
          (config_in effects compose_file backups_dir ttl_hours safe apps o s)
          (settle effects compose_file backups_dir ttl_hours safe apps i o
            (file_of effects compose_file backups_dir ttl_hours safe apps stamp type name)
            x)
      → locate r (
          settle effects compose_file backups_dir ttl_hours safe apps i o
            (file_of effects compose_file backups_dir ttl_hours safe apps stamp type name)
            x)
        ≡ (
          ok (
              place type name
                (file_of effects compose_file backups_dir ttl_hours safe apps stamp type name)
                (effects.join backups_dir
                  (file_of effects compose_file backups_dir ttl_hours safe apps stamp type name))
                (config_in effects compose_file backups_dir ttl_hours safe apps o s)),
          settle effects compose_file backups_dir ttl_hours safe apps i o
              (file_of effects compose_file backups_dir ttl_hours safe apps stamp type name)
              x,
        )
  settled_found now stamp i type name o s r (ok (size, t), s') e found success h =
      let file_name =
        file_of effects compose_file backups_dir ttl_hours safe apps stamp type name in
      let out = effects.join backups_dir file_name in
      let f = finished effects compose_file backups_dir ttl_hours safe apps o file_name size t in
      let (r0, at) =
        first-amend_from (by_id i) f (db.rows s'.records) r (λ x. refl)
          (sym (ap (first (by_id i)) (db.rows-update_many (by_id i) f s'.records)) ∙ found) in
      let kept : s'.strategies ≡ s.strategies =
        sym (ap (λ (y : Result (ℕ × Stored) × Backups). y.1.strategies) e)
        ∙ archived-strategies effects compose_file backups_dir ttl_hours safe apps now stamp type
            name o s in
      let end =
        settle effects compose_file backups_dir ttl_hours safe apps i o file_name
          (ok (size, t), s') in
      subst
        (λ z. locate z end ≡ (
          ok (
              place type name file_name out
                (config_in effects compose_file backups_dir ttl_hours safe apps o s)),
          end,
        ))
        (sym (
          at
          ∙ ap
              (λ u.
                finished effects compose_file backups_dir ttl_hours safe apps o file_name size u r0)
              (archived-stored_at effects compose_file backups_dir ttl_hours safe apps now stamp
                type name o s s' size t e)))
        (located now type name file_name out o size r0 end
          (config_in effects compose_file backups_dir ttl_hours safe apps o s)
          (config_same effects compose_file backups_dir ttl_hours safe apps o end s kept) h)
  settled_found now stamp i type name o s r (err x, s') e found success h =
      let f = λ (r : BackupRecord). record r { status = RecordStatus.failed; message = some x } in
      let (r0, at) =
        first-amend_from (by_id i) f (db.rows s'.records) r (λ x. refl)
          (sym (ap (first (by_id i)) (db.rows-update_many (by_id i) f s'.records)) ∙ found) in
      absurd (failed_not_success (sym (ap (λ (r : BackupRecord). r.status) at) ∙ success))
    where
      failed_not_success : RecordStatus.failed ≢ RecordStatus.success
      failed_not_success q = cc

  -- The place where a restore looks for a backup whose record ends SUCCESS.
  execute_backup_found :
      (now : ℕ) (stamp i : String) (type : TargetType) (name : String) (o : Option String)
      (s : Backups) (r : BackupRecord)
      → find_first (by_id i) (run now stamp i type name o s).records ≡ some r
      → r.status ≡ RecordStatus.success
      → IsReachable o
          (effects.join backups_dir
            (file_of effects compose_file backups_dir ttl_hours safe apps stamp type name))
          (config_in effects compose_file backups_dir ttl_hours safe apps o s)
          (run now stamp i type name o s)
      → locate r (run now stamp i type name o s) ≡ (
        ok (
            place type name
              (file_of effects compose_file backups_dir ttl_hours safe apps stamp type name)
              (effects.join backups_dir
                (file_of effects compose_file backups_dir ttl_hours safe apps stamp type name))
              (config_in effects compose_file backups_dir ttl_hours safe apps o s)),
        run now stamp i type name o s,
      )
  unfolding execute_backup
  execute_backup_found now stamp i type name o s r found success h =
      settled_found now stamp i type name o s r
        (archived effects compose_file backups_dir ttl_hours safe apps now stamp type name o s) refl
        found success h
