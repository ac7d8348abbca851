-- ===== src/Supervisor/Commands.antt =====
-- supervisor.service.ts: the commands that check and restart an application, and their execution
-- on the ops server or over SSH with a key that is written to a file for the time of the command.
-- `bash`, `toLowerCase` and the path of the key file are parameters; texts are lists of UTF-16
-- code units, and the port of a server is its printed number.
pub mod KeyFiles
use hamyar_ops.Base.{
  String, Bool, true, false, Option, none, some, List, [], ◌∷◌, ◌++◌, if◌then◌else◌, codes, is_some,
  str_eq,
}
use hamyar_ops.Base.Chars.{Text, includes, is_empty, replace_all, text_eq, trim}
use hamyar_ops.Prisma.{Database, find_first}
use hamyar_ops.Http.{Exception, not_found, Result, ok, err, Handler}

pub data AppType : Type 0 where
  pm2 : AppType
  docker : AppType
  systemd : AppType

pub data RuleStatus : Type 0 where
  running : RuleStatus
  down : RuleStatus
  restarted : RuleStatus
  unknown : RuleStatus

unfoldable pub build_check_cmd : AppType → Text → Text
build_check_cmd AppType.pm2 app =
    codes "pm2 show " ++ app ++ codes " --no-color 2>&1 | grep -E \"status|online\""
build_check_cmd AppType.docker app =
    codes "docker inspect --format='{{.State.Status}}' " ++ app ++ codes " 2>&1"
build_check_cmd AppType.systemd app = codes "systemctl is-active " ++ app ++ codes " 2>&1"

unfoldable pub build_restart_cmd : AppType → Text → Text
build_restart_cmd AppType.pm2 app = codes "pm2 restart " ++ app
build_restart_cmd AppType.docker app = codes "docker start " ++ app
build_restart_cmd AppType.systemd app = codes "systemctl start " ++ app

abbrev is_up : AppType → Text → Bool
is_up AppType.pm2 out = includes (codes "online") out
is_up AppType.docker out = text_eq out (codes "running")
is_up AppType.systemd out = text_eq out (codes "active")

unfoldable pub parse_status : (Text → Text) → AppType → Text → RuleStatus
parse_status to_lower_case type output =
    if is_up type (trim (to_lower_case output)) then RuleStatus.running else RuleStatus.down

pub record SshKey : Type 0 where
  pub id : String
  pub private_key : Text

pub record ManagedServer : Type 0 where
  pub id : String
  pub host : Text
  pub port : Text
  pub username : Text
  pub ssh_key_id : Option String

-- The services wait for a connection for 15 or for 30 seconds.
abbrev pub ssh_options : Text → Text
ssh_options seconds =
    codes "ssh -o StrictHostKeyChecking=no -o ConnectTimeout=" ++ seconds ++ codes " "

-- `if (!serverId)`, `if (server.sshKeyId)`: the empty id counts as none.
abbrev pub given : Option String → Option String
given none = none
given (some id) = if str_eq id "" then none else some id

-- `-i "${keyFile}" `, where the server has a key.
abbrev pub identity : Option String → Text → Text
identity none key_file = []
identity (some k) key_file = codes "-i \"" ++ key_file ++ codes "\" "

unfoldable pub ssh_cmd : Text → ManagedServer → Text → Text → Text
ssh_cmd seconds server key_file command =
    ssh_options seconds
    ++ identity (given server.ssh_key_id) key_file
    ++ server.username
    ++ codes "@"
    ++ server.host
    ++ codes " -p "
    ++ server.port
    ++ codes " \""
    ++ replace_all b'"' (codes "\\\"") command
    ++ codes "\""

-- The files of the temporary directory, by their paths.
abbrev pub TempFiles : Type 0
TempFiles = Text → Option Text

abbrev pub write_file : Text → Text → TempFiles → TempFiles
write_file path content files p = if text_eq p path then some content else files p

abbrev pub unlink_file : Text → TempFiles → TempFiles
unlink_file path files p = if text_eq p path then none else files p

module _ ⦃db : Database⦄ (World : Type 0) (exec : Text → World → Result Text × World) where
  open db use {Table}

  -- The machine that the commands act on; `World` is what they change.
  pub record Machine : Type 0 where
    pub servers : Table ManagedServer
    pub ssh_keys : Table SshKey
    pub temp_files : TempFiles
    pub world : World

  abbrev pub write_key : Text → Option SshKey → Machine → Machine
  write_key path none m = m
  write_key path (some k) m = record m { temp_files = write_file path k.private_key m.temp_files }

  abbrev pub with_key : Text → Option String → Machine → Machine
  with_key path none m = m
  with_key path (some id) m =
      write_key path (find_first (λ (k : SshKey). str_eq k.id id) m.ssh_keys) m

  -- The `finally` block.
  abbrev pub without_key : Text → Option String → Machine → Machine
  without_key path none m = m
  without_key path (some id) m =
      if is_some (m.temp_files path)
      then record m { temp_files = unlink_file path m.temp_files }
      else m

  abbrev pub execute : Text → Handler Machine Text
  execute command m = let (out, world) = exec command m.world in (out, record m { world = world })

  abbrev pub on_server : Text → Text → Text → ManagedServer → Handler Machine Text
  on_server seconds path command server m =
      let (out, m') =
        execute (ssh_cmd seconds server path command) (with_key path (given server.ssh_key_id) m) in
      (out, without_key path (given server.ssh_key_id) m')

  abbrev pub remotely : Text → Text → Option ManagedServer → Handler Machine Text
  remotely path command none m = (err (not_found "Managed server not found"), m)
  remotely path command (some server) m = on_server (codes "15") path command server m

  abbrev pub run_on : Text → Text → Option String → Handler Machine Text
  run_on key_file command none m = execute command m
  run_on key_file command (some id) m =
      remotely key_file command (find_first (λ (s : ManagedServer). str_eq s.id id) m.servers) m

  -- `key_file` is the path of the key file of this call.
  unfoldable pub run_command : Text → Option String → Text → Handler Machine Text
  run_command key_file server_id command m = run_on key_file command (given server_id) m
