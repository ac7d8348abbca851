-- ===== src/Backups/Restores/Offloaded.antt =====
-- What a restore reads of a backup that was uploaded to S3.
use hamyar_ops.Base.{ℕ, ◌≡◌, sym, ap, ◌∙◌, String, true, Option, none, some, List, ◌<>◌, truthy}
use hamyar_ops.Prisma.{Database}
use hamyar_ops.Http.{Result, ok, pure, ◌>>◌, >>=-eq-ok}
use hamyar_ops.Backups.{Storage, TargetType, BackupRecord, Storages, Backups}
use hamyar_ops.Backups.Archives.{AppTarget}
use hamyar_ops.Backups.Archives.Machine.{Effects}
use hamyar_ops.Backups.Execution.{Stored, lift, offload, type_text, finished}
use hamyar_ops.Backups.Execution.Placing.{config_in, config_same, offload-stored_at}
use hamyar_ops.Backups.Restores.{Restoring, get_archive_buffer}
use hamyar_ops.Backups.Restores.Found.{located}

module _ ⦃db : Database⦄ ⦃storages : Storages⦄ (effects : Effects storages.World)
    (restoring : Restoring storages.World) where
  open storages use {World}

  -- What stands in files and in buckets: an upload that returns has put the content of the file
  -- under the key, the removal of a file leaves the objects, and a download gives what is there.
  pub record StoresObjects (file_at : String → World → Option String)
      (object_at : String → String → World → Option String) : Type 0 where
    pub put :
        (config key path : String) (w w' : World)
        → effects.upload config key path w ≡ (ok tt, w')
        → object_at config key w' ≡ file_at path w
    pub kept :
        (config key path : String) (w : World)
        → object_at config key (effects.remove path w).1 ≡ object_at config key w
    pub got :
        (config key text : String) (w : World)
        → object_at config key w ≡ some text
        → (restoring.download config key w).0 ≡ ok text

  module _ (compose_file backups_dir : String) (ttl_hours : ℕ) (safe : String → String)
      (apps : List AppTarget) where
    abbrev key_of : TargetType → String → String → String
    key_of type name file_name = "backups/" <> type_text type <> "/" <> name <> "/" <> file_name

    offload_lem :
        (file_at : String → World → Option String)
        (object_at : String → String → World → Option String) (now : ℕ) (type : TargetType)
        (name file_name out c : String) (s s' : Backups) (t : Stored)
        → StoresObjects file_at object_at
        → offload effects compose_file backups_dir ttl_hours safe apps now type name file_name out
            (some c)
            s
          ≡ (ok t, s')
        → (s.strategies ≡ s'.strategies)
          × (object_at c (key_of type name file_name) s'.world ≡ file_at out s.world)
    unfolding offload
    offload_lem file_at object_at now type name file_name out c s s' t laws e =
        let key = key_of type name file_name in
        let gone : Stored = record {
          storage = Storage.s3;
          s3_key = some key;
          local_path = none;
          expires_at = none;
        } in
        let (u, s1, e1, e2) =
          >>=-eq-ok
            (lift effects compose_file backups_dir ttl_hours safe apps (effects.upload c key out))
            (λ u. do
              lift effects compose_file backups_dir ttl_hours safe apps (effects.remove out)
              pure gone)
            e in
        let (v, s2, e3, e4) =
          >>=-eq-ok (lift effects compose_file backups_dir ttl_hours safe apps (effects.remove out))
            (λ v. pure gone) e2 in
        let last : s2 ≡ s' = ap (λ (x : Result Stored × Backups). x.1) e4 in
        let uploaded : effects.upload c key out s.world ≡ (ok tt, s1.world) =
          ap (λ (x : Result (Unit {0}) × Backups). (x.0, x.1.world)) e1 in
        (
          ap (λ (x : Result (Unit {0}) × Backups). x.1.strategies) e1
              ∙ ap (λ (x : Result (Unit {0}) × Backups). x.1.strategies) e3
              ∙ ap (λ (x : Backups). x.strategies) last,
          ap (λ (x : Backups). object_at c key x.world) (sym last)
              ∙ ap (λ (x : Result (Unit {0}) × Backups). object_at c key x.1.world) (sym e3)
              ∙ laws.kept c key out s1.world
              ∙ laws.put c key out s.world s1.world uploaded,
        )

    -- A restore reads of a backup that was offloaded to S3 what was in the file of its archive: for
    -- the record that names its strategy and is finished with what the offload has returned, the
    -- buffer of the archive, read in the state that the offload leaves, is the content of the file
    -- before it. An upload that returns is taken to put the file's content under its key, the removal
    -- of a file to leave the objects, and a download to give what is there.
    pub get_archive_buffer-offload :
        (file_at : String → World → Option String)
        (object_at : String → String → World → Option String) (now : ℕ) (type : TargetType)
        (name file_name out c text : String) (o : Option String) (size : ℕ) (r : BackupRecord)
        (s s' : Backups) (t : Stored)
        → StoresObjects file_at object_at
        → truthy o ≡ true
        → config_in effects compose_file backups_dir ttl_hours safe apps o s ≡ some c
        → file_at out s.world ≡ some text
        → offload effects compose_file backups_dir ttl_hours safe apps now type name file_name out
            (config_in effects compose_file backups_dir ttl_hours safe apps o s)
            s
          ≡ (ok t, s')
        → (get_archive_buffer effects restoring apps
            (finished effects compose_file backups_dir ttl_hours safe apps o file_name size t r)
            s').0
          ≡ ok text
    unfolding get_archive_buffer
    get_archive_buffer-offload file_at object_at now type name file_name out c text o size r s s' t
          laws named config there e =
        let offloaded =
          sym (
            ap
              (λ k.
                offload effects compose_file backups_dir ttl_hours safe apps now type name file_name
                  out k s)
              config)
          ∙ e in
        let (same, put) =
          offload_lem file_at object_at now type name file_name out c s s' t laws offloaded in
        let placed =
          offload-stored_at effects compose_file backups_dir ttl_hours safe apps now type name
            file_name out (some c) s s' t offloaded in
        let found =
          located effects compose_file backups_dir ttl_hours safe apps now type name file_name out o
            size r s' (some c)
            (sym (config_same effects compose_file backups_dir ttl_hours safe apps o s s' same)
              ∙ config)
            named in
        rw (placed, get_archive_buffer, found)
          (laws.got c (key_of type name file_name) text s'.world (put ∙ there))
