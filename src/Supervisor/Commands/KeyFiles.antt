-- ===== src/Supervisor/Commands/KeyFiles.antt =====
-- What a command leaves of the key files.
use hamyar_ops.Base.{
  String, ◌≡◌, refl, Bool-cases, subst, str_eq, inl, inr, sym, ◌∙◌, false, Option, none, some,
  arith, is_some, codes,
}
use hamyar_ops.Base.Chars.{Text, text_eq}
use hamyar_ops.Base.Chars.Lines.{text_eq_self, text_eq-to}
use hamyar_ops.Prisma.{Database, find_first}
use hamyar_ops.Http.{Result}
use hamyar_ops.Supervisor.Commands.{
  Machine, SshKey, ManagedServer, given, write_key, with_key, without_key, execute, on_server,
  remotely, run_on, run_command, ssh_cmd,
}

module _ ⦃db : Database⦄ (World : Type 0) (exec : Text → World → Result Text × World) where
  write_key_other :
      (path p : Text) (k : Option SshKey) (m : Machine World exec)
      → text_eq p path ≡ false
      → (write_key World exec path k m).temp_files p ≡ m.temp_files p
  write_key_other path p none m h = refl
  write_key_other path p (some k) m h = ground (arith, h)

  without_key_self :
      (path : Text) (id : String) (m : Machine World exec)
      → (without_key World exec path (some id) m).temp_files path ≡ none
  without_key_self path id m = ground (arith, text_eq_self path, absent (m.temp_files path))
    where
      absent : (o : Option Text) → is_some o ≡ false → o ≡ none
      absent none h = refl
      absent (some t) h = ground (arith, h)

  without_key_other :
      (path p : Text) (id : String) (m : Machine World exec)
      → text_eq p path ≡ false
      → (without_key World exec path (some id) m).temp_files p ≡ m.temp_files p
  without_key_other path p id m h = ground (arith, h)

  -- The key is written, the command leaves `world`, and the key is removed.
  abbrev pub keyed : Text → Option String → World → Machine World exec → Machine World exec
  keyed path k world m =
      without_key World exec path k (record (with_key World exec path k m) { world = world })

  pub keyed-none :
      (path p : Text) (k : Option String) (world : World) (m : Machine World exec)
      → m.temp_files p ≡ none
      → (keyed path k world m).temp_files p ≡ none
  keyed-none path p none world m h = h
  keyed-none path p (some id) world m h =
      let found = find_first (λ (k : SshKey). str_eq k.id id) m.ssh_keys in
      let after = record (with_key World exec path (some id) m) { world = world } in
      elim (Bool-cases (text_eq p path)) [
        | inl same ↦
            subst (λ x. (keyed path (some id) world m).temp_files x ≡ none)
              (sym (text_eq-to p path same)) (without_key_self path id after)
        | inr other ↦
            without_key_other path p id after other ∙ write_key_other path p found m other ∙ h
      ]

  pub on_server-none :
      (seconds path p command : Text) (s : ManagedServer) (m : Machine World exec)
      → m.temp_files p ≡ none
      → (on_server World exec seconds path command s m).1.temp_files p ≡ none
  on_server-none seconds path p command s m h =
      let k = given s.ssh_key_id in
      let ran =
        execute World exec (ssh_cmd seconds s path command) (with_key World exec path k m) in
      keyed-none path p k ran.1.world m h

  remotely-none :
      (path p command : Text) (server : Option ManagedServer) (m : Machine World exec)
      → m.temp_files p ≡ none
      → (remotely World exec path command server m).1.temp_files p ≡ none
  remotely-none path p command none m h = h
  remotely-none path p command (some s) m h = on_server-none (codes "15") path p command s m h

  -- Whatever the command does and whether it fails, no path that was free holds a private key
  -- afterwards: a key file that the call has written is gone.
  pub run_command_leaves_no_key :
      (path p command : Text) (server_id : Option String) (m : Machine World exec)
      → m.temp_files p ≡ none
      → (run_command World exec path server_id command m).1.temp_files p ≡ none
  unfolding run_command
  run_command_leaves_no_key path p command server_id m h = go (given server_id)
    where
      go : (o : Option String) → (run_on World exec path command o m).1.temp_files p ≡ none
      go none = h
      go (some id) =
          remotely-none path p command
            (find_first (λ (s : ManagedServer). str_eq s.id id) m.servers) m h
