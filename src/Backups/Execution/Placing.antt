-- ===== src/Backups/Execution/Placing.antt =====
-- What a finished backup has stored of its archive.
use hamyar_ops.Base.{ℕ, ◌≡◌, refl, sym, ap, ◌∙◌, String, Option, none, some, List, ◌<>◌, str_eq}
use hamyar_ops.Prisma.{Database, find_first}
use hamyar_ops.Http.{Result, ok, Handler, pure, gets, modify, ◌>>=◌, ◌>>◌, >>=-eq-ok}
use hamyar_ops.Schedules.Backups.{Strategy}
use hamyar_ops.Backups.{Storage, TargetType, Storages, Backups, strategy_of}
use hamyar_ops.Backups.Archives.{AppTarget, make_archive}
use hamyar_ops.Backups.Archives.Machine.{Effects}
use hamyar_ops.Backups.Execution.{
  Stored, lift, retain, offload, archived, archive_name, type_text, s3_config, stored_here,
}

module _ ⦃db : Database⦄ ⦃storages : Storages⦄ (effects : Effects storages.World)
    (compose_file backups_dir : String) (ttl_hours : ℕ) (safe : String → String)
    (apps : List AppTarget) where
  abbrev pub file_of : String → TargetType → String → String
  file_of stamp type name =
      archive_name effects compose_file backups_dir ttl_hours safe apps type name stamp

  abbrev pub config_in : Option String → Backups → Option String
  config_in o s = s3_config effects compose_file backups_dir ttl_hours safe apps (strategy_of o s)

  -- What an archive's record says of it: the object that was uploaded, or the file.
  abbrev pub stored_at : ℕ → TargetType → String → String → String → Option String → Stored
  stored_at now type name file_name out none =
      stored_here effects compose_file backups_dir ttl_hours safe apps now out
  stored_at now type name file_name out (some c) = record {
    storage = Storage.s3;
    s3_key = some ("backups/" <> type_text type <> "/" <> name <> "/" <> file_name);
    local_path = none;
    expires_at = none;
  }

  pub offload-stored_at :
      (now : ℕ) (type : TargetType) (name file_name out : String) (config : Option String)
      (s s' : Backups) (t : Stored)
      → offload effects compose_file backups_dir ttl_hours safe apps now type name file_name out
          config s
        ≡ (ok t, s')
      → t ≡ stored_at now type name file_name out config
  unfolding offload
  offload-stored_at now type name file_name out none s s' t e = cc
  offload-stored_at now type name file_name out (some c) s s' t e =
      let key = "backups/" <> type_text type <> "/" <> name <> "/" <> file_name in
      let gone : Stored = record {
        storage = Storage.s3;
        s3_key = some key;
        local_path = none;
        expires_at = none;
      } in
      let (u, s1, e1, e2) =
        >>=-eq-ok
          (lift effects compose_file backups_dir ttl_hours safe apps (effects.upload c key out))
          (λ u. do
            lift effects compose_file backups_dir ttl_hours safe apps (effects.remove out)
            pure gone)
          e in
      let (v, s2, e3, e4) =
        >>=-eq-ok (lift effects compose_file backups_dir ttl_hours safe apps (effects.remove out))
          (λ v. pure gone) e2 in
      cc

  strategy_same :
      (o : Option String) (s s' : Backups)
      → s.strategies ≡ s'.strategies
      → strategy_of o s ≡ strategy_of o s'
  strategy_same none s s' e = refl
  strategy_same (some id) s s' e = ap (find_first (λ (t : Strategy). str_eq t.id id)) e

  pub config_same :
      (o : Option String) (s s' : Backups)
      → s.strategies ≡ s'.strategies
      → config_in o s ≡ config_in o s'
  config_same o s s' e =
      ap (s3_config effects compose_file backups_dir ttl_hours safe apps) (strategy_same o s s' e)

  -- The end of the `try` block, and what goes before it.
  abbrev last : Option String → ℕ → Stored → Handler Backups (ℕ × Stored)
  last o n t = do
    modify (retain effects compose_file backups_dir ttl_hours safe apps o)
    pure (n, t)

  last-stored :
      (o : Option String) (n size : ℕ) (t t' : Stored) (s s' : Backups)
      → last o n t' s ≡ (ok (size, t), s')
      → t ≡ t'
  last-stored o n size t t' s s' e = cc

  abbrev offloaded :
      ℕ → String → TargetType → String → Option String → ℕ → Handler Backups (ℕ × Stored)
  offloaded now stamp type name o n = do
    config ← gets (config_in o)
    t ←
        offload effects compose_file backups_dir ttl_hours safe apps now type name
          (file_of stamp type name) (effects.join backups_dir (file_of stamp type name)) config
    last o n t

  offloaded-stored_at :
      (now : ℕ) (stamp : String) (type : TargetType) (name : String) (o : Option String) (n : ℕ)
      (s s' : Backups) (size : ℕ) (t : Stored)
      → offloaded now stamp type name o n s ≡ (ok (size, t), s')
      → t
        ≡ stored_at now type name
            (file_of stamp type name)
            (effects.join backups_dir (file_of stamp type name))
            (config_in o s)
  offloaded-stored_at now stamp type name o n s s' size t e =
      let file_name = file_of stamp type name in
      let out = effects.join backups_dir file_name in
      let (t', s1, e1, e2) =
        >>=-eq-ok
          (offload effects compose_file backups_dir ttl_hours safe apps now type name file_name out
            (config_in o s))
          (last o n) e in
      last-stored o n size t t' s1 s' e2
      ∙ offload-stored_at now type name file_name out (config_in o s) s s1 t' e1

  pub archived-stored_at :
      (now : ℕ) (stamp : String) (type : TargetType) (name : String) (o : Option String)
      (s s' : Backups) (size : ℕ) (t : Stored)
      → archived effects compose_file backups_dir ttl_hours safe apps now stamp type name o s
        ≡ (ok (size, t), s')
      → t
        ≡ stored_at now type name
            (file_of stamp type name)
            (effects.join backups_dir (file_of stamp type name))
            (config_in o s)
  unfolding archived
  archived-stored_at now stamp type name o s s' size t e =
      let file_name = file_of stamp type name in
      let out = effects.join backups_dir file_name in
      let (u, s1, e1, f1) =
        >>=-eq-ok
          (lift effects compose_file backups_dir ttl_hours safe apps
            (make_archive effects compose_file apps type name out))
          (λ u. do
            size ← lift effects compose_file backups_dir ttl_hours safe apps (effects.file_size out)
            offloaded now stamp type name o size)
          e in
      let (n, s2, e2, f2) =
        >>=-eq-ok
          (lift effects compose_file backups_dir ttl_hours safe apps (effects.file_size out))
          (offloaded now stamp type name o) f1 in
      let same : s.strategies ≡ s2.strategies =
        ap (λ (x : Result (Unit {0}) × Backups). x.1.strategies) e1
        ∙ ap (λ (x : Result ℕ × Backups). x.1.strategies) e2 in
      offloaded-stored_at now stamp type name o n s2 s' size t f2
      ∙ ap (stored_at now type name file_name out) (sym (config_same o s s2 same))
