-- ===== src/Backups/Execution/Archived.antt =====
-- What the making, storing and counting of an archive keeps: what neither a change of the machine nor
-- the retention touches.
use hamyar_ops.Base.{ℕ, String, Option, none, some, List, ◌<>◌}
use hamyar_ops.Prisma.{Database}
use hamyar_ops.Http.{pure, gets, modify, ◌>>=◌, ◌>>◌}
use hamyar_ops.Backups.{Storage, TargetType, Storages, Backups, strategy_of}
use hamyar_ops.Backups.Archives.{AppTarget, make_archive}
use hamyar_ops.Backups.Archives.Machine.{Effects}
use hamyar_ops.Backups.Execution.{
  Stored, lift, retain, offload, archived, archive_name, type_text, s3_config,
}
use hamyar_ops.Http.Invariants.{Keeps, bind}

module _ ⦃db : Database⦄ ⦃storages : Storages⦄ (effects : Effects storages.World)
    (compose_file backups_dir : String) (ttl_hours : ℕ) (safe : String → String)
    (apps : List AppTarget) (I : Backups → Type 0)
    (world : (s : Backups) (w : storages.World) → I s → I (record s { world = w }))
    (kept : (o : Option String) (s : Backups)
      → I s
      → I (retain effects compose_file backups_dir ttl_hours safe apps o s)) where
  offload-Keeps :
      (now : ℕ) (type : TargetType) (name file_name out : String) (config : Option String)
      → Keeps I (
          offload effects compose_file backups_dir ttl_hours safe apps now type name file_name out
            config)
  unfolding offload
  offload-Keeps now type name file_name out none = λ s h. h
  offload-Keeps now type name file_name out (some c) =
      let key = "backups/" <> type_text type <> "/" <> name <> "/" <> file_name in
      let gone : Stored = record {
        storage = Storage.s3;
        s3_key = some key;
        local_path = none;
        expires_at = none;
      } in
      bind I (lift effects compose_file backups_dir ttl_hours safe apps (effects.upload c key out))
        (λ u. do
          lift effects compose_file backups_dir ttl_hours safe apps (effects.remove out)
          pure gone)
        (λ s h. world s _ h)
        (λ u.
          bind I (lift effects compose_file backups_dir ttl_hours safe apps (effects.remove out))
            (λ v. pure gone) (λ s h. world s _ h) (λ v s h. h))

  pub archived-Keeps :
      (now : ℕ) (stamp : String) (type : TargetType) (name : String) (o : Option String)
      → Keeps I
          (archived effects compose_file backups_dir ttl_hours safe apps now stamp type name o)
  unfolding archived
  archived-Keeps now stamp type name o =
      let file_name =
        archive_name effects compose_file backups_dir ttl_hours safe apps type name stamp in
      let out = effects.join backups_dir file_name in
      let last = λ (size : ℕ) (t : Stored). (do
        modify (retain effects compose_file backups_dir ttl_hours safe apps o)
        pure (size, t)) in
      let stored = λ (size : ℕ) (config : Option String). (do
        t ←
            offload effects compose_file backups_dir ttl_hours safe apps now type name file_name out
              config
        last size t) in
      let config_of = λ (s : Backups).
        s3_config effects compose_file backups_dir ttl_hours safe apps (strategy_of o s) in
      let sized = λ (size : ℕ). (do config ← gets config_of; stored size config) in
      bind I
        (lift effects compose_file backups_dir ttl_hours safe apps
          (make_archive effects compose_file apps type name out))
        (λ u. do
          size ← lift effects compose_file backups_dir ttl_hours safe apps (effects.file_size out)
          sized size)
        (λ s h. world s _ h)
        (λ u.
          bind I (lift effects compose_file backups_dir ttl_hours safe apps (effects.file_size out))
            sized (λ s h. world s _ h)
            (λ size.
              bind I (gets config_of) (stored size) (λ s h. h)
                (λ config.
                  bind I
                    (offload effects compose_file backups_dir ttl_hours safe apps now type name
                      file_name out config)
                    (last size) (offload-Keeps now type name file_name out config)
                    (λ t s h. kept o s h))))
