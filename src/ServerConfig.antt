-- ===== src/ServerConfig.antt =====
-- apps/ops-api/src/modules/server-config/server-config.service.ts: the hostname, /etc/hosts and
-- /etc/resolv.conf of a server. Commands run as in Supervisor/Commands; Base64 is a parameter.
pub mod Names
pub mod Resolver
use hamyar_ops.Base.{
  ℕ, suc, String, Bool, true, false, ◌&&◌, ◌||◌, not, Option, none, some, List, [], ◌∷◌, ◌++◌,
  if◌then◌else◌, every, leb, ◌==◌, codes, str_eq, drop,
}
use hamyar_ops.Base.Chars.{
  Text, is_empty, is_space, trim, starts_with, split, join, cut, onto_first, includes, strip_prefix,
}
use hamyar_ops.Base.Chars.Numbers.{decimal}
use hamyar_ops.Prisma.{Database, find_first}
use hamyar_ops.Http.{
  Exception, bad_request, not_found, Result, ok, err, Handler, pure, throw, ◌>>=◌, ◌>>◌,
}
use hamyar_ops.Supervisor.Commands.{Machine, ManagedServer, execute, on_server}

-- s.split(/\s+/): a run of white space separates once.
abbrev starts_with_space : Text → Bool
starts_with_space [] = false
starts_with_space (c ∷ s) = is_space c

unfoldable pub split_spaces : Text → List Text
split_spaces [] = [] ∷ []
split_spaces (c ∷ s) =
    let rest = split_spaces s in
    if is_space c then if starts_with_space s then rest else [] ∷ rest else onto_first c rest

abbrev pub is_alphanumeric : ℕ → Bool
is_alphanumeric c =
    (leb b'a' c && leb c b'z') || (leb b'A' c && leb c b'Z') || (leb b'0' c && leb c b'9')

abbrev pub is_name_char : ℕ → Bool
is_name_char c = is_alphanumeric c || c == b'-' || c == b'.'

-- /^[a-zA-Z0-9][a-zA-Z0-9\-\.]*$/
unfoldable pub is_hostname : Text → Bool
is_hostname [] = false
is_hostname (c ∷ s) = is_alphanumeric c && every is_name_char s

pub record HostsEntry : Type 0 where
  pub line_num : ℕ
  pub ip : Text
  pub hostname : Text
  pub aliases : List Text
  pub comment : Option Text

-- `/^([^#]+)(?:#(.*))?$/`, of a line that does not begin with #.
abbrev before_comment : Text → Option (Text × Text) → Text
before_comment line none = line
before_comment line (some (a, c)) = a

abbrev comment_of : Option (Text × Text) → Option Text
comment_of none = none
comment_of (some (a, c)) = some (trim c)

-- `.` matches no line terminator, so the comment holds none.
abbrev is_matched : Option (Text × Text) → Bool
is_matched none = true
is_matched (some (a, c)) = every (λ x. not (x == 13 || x == 8232 || x == 8233)) c

abbrev host_entry : ℕ → Option Text → List Text → List HostsEntry → List HostsEntry
host_entry n comment (ip ∷ name ∷ aliases) later =
    record { line_num = n; ip = ip; hostname = name; aliases = aliases; comment = comment } ∷ later
host_entry n comment (ip ∷ []) later = later
host_entry n comment [] later = later

unfoldable pub parse_hosts_from : ℕ → List Text → List HostsEntry
unfolding split_spaces trim cut
parse_hosts_from n [] = []
parse_hosts_from n (raw ∷ rest) =
    let line = trim raw in
    let later = parse_hosts_from (suc n) rest in
    let parts = cut b'#' line in
    if is_empty line || starts_with (b'#' ∷ []) line || not (is_matched parts)
    then later
    else host_entry n (comment_of parts) (split_spaces (trim (before_comment line parts))) later

unfoldable pub parse_hosts : Text → List HostsEntry
unfolding parse_hosts_from split
parse_hosts raw = parse_hosts_from 1 (split b'\n' raw)

pub record ResolvConf : Type 0 where
  pub nameservers : List Text
  pub search : List Text

-- What one line adds in front of what the later ones add.
unfoldable pub resolv_line : Text → ResolvConf → ResolvConf
unfolding split_spaces trim
resolv_line line c =
    if starts_with (codes "nameserver ") line
    then record c { nameservers = trim (drop 11 line) ∷ c.nameservers }
    else if starts_with (codes "search ") line
    then record c { search = split_spaces (trim (drop 7 line)) ++ c.search }
    else if starts_with (codes "domain ") line
    then record c { search = trim (drop 7 line) ∷ c.search }
    else c

unfoldable pub parse_resolv_lines : List Text → ResolvConf
unfolding trim
parse_resolv_lines [] = record { nameservers = []; search = [] }
parse_resolv_lines (raw ∷ rest) = resolv_line (trim raw) (parse_resolv_lines rest)

unfoldable pub parse_resolv : Text → ResolvConf
unfolding parse_resolv_lines split
parse_resolv raw = parse_resolv_lines (split b'\n' raw)

abbrev nameserver_lines : List Text → List Text
nameserver_lines [] = []
nameserver_lines (ns ∷ more) = (codes "nameserver " ++ ns) ∷ nameserver_lines more

abbrev search_lines : List Text → List Text
search_lines [] = []
search_lines (d ∷ ds) = (codes "search " ++ join b' ' (d ∷ ds)) ∷ []

unfoldable pub resolv_content : List Text → List Text → Text
unfolding join
resolv_content nameservers domains =
    join b'\n'
      (codes "# Generated by hamyar-ops" ∷ (nameserver_lines nameservers ++ search_lines domains))
    ++ b'\n' ∷ []

module _ ⦃db : Database⦄ (World : Type 0) (exec : Text → World → Result Text × World)
    (base64 : Text → Text) (key_file : Text) where
  abbrev found_server : Text → Option ManagedServer → Handler (Machine World exec) Text
  found_server command none m = (err (not_found "Server not found"), m)
  found_server command (some server) m = on_server World exec (codes "15") key_file command server m

  unfoldable pub exec_ssh : String → Text → Handler (Machine World exec) Text
  exec_ssh id command m =
      if str_eq id "self"
      then execute World exec command m
      else found_server command (find_first (λ (s : ManagedServer). str_eq s.id id) m.servers) m

  unfoldable pub get_hostname : String → Handler (Machine World exec) Text
  unfolding exec_ssh trim
  get_hostname id = do out ← exec_ssh id (codes "hostname"); pure (trim out)

  unfoldable pub set_hostname : String → Text → Handler (Machine World exec) Text
  unfolding exec_ssh trim
  set_hostname id name m =
      if is_hostname name
      then (do
        out ← exec_ssh id (codes "sudo hostnamectl set-hostname '" ++ name ++ codes "' && hostname")
        pure (trim out))
          m
      else (err (bad_request "Invalid hostname format"), m)

  unfoldable pub get_hosts_file : String → Handler (Machine World exec) (List HostsEntry)
  unfolding exec_ssh parse_hosts
  get_hosts_file id = do raw ← exec_ssh id (codes "cat /etc/hosts"); pure (parse_hosts raw)

  unfoldable pub update_hosts_file : String → Text → Handler (Machine World exec) Bool
  unfolding exec_ssh
  update_hosts_file id content = do
    out ← exec_ssh id (
        codes "echo '"
        ++ base64 content
        ++ codes "' | base64 -d | sudo tee /etc/hosts > /dev/null && echo ok")
    pure true

  abbrev alias_part : List Text → Text
  unfolding join
  alias_part [] = []
  alias_part (a ∷ more) = b' ' ∷ join b' ' (a ∷ more)

  abbrev comment_part : Option Text → Text
  comment_part none = []
  comment_part (some c) = if is_empty c then [] else codes " # " ++ c

  unfoldable pub add_hosts_entry :
      String → Text → Text → List Text → Option Text → Handler (Machine World exec) Bool
  unfolding exec_ssh alias_part
  add_hosts_entry id ip hostname aliases comment = do
    out ← exec_ssh id (
        codes "printf '"
        ++ ip
        ++ codes "\\t"
        ++ hostname
        ++ alias_part aliases
        ++ comment_part comment
        ++ codes "\\n' | sudo tee -a /etc/hosts > /dev/null && echo ok")
    pure true

  -- A number that is not an integer is refused like 0.
  unfoldable pub remove_hosts_entry : String → ℕ → Handler (Machine World exec) Bool
  unfolding exec_ssh decimal
  remove_hosts_entry id line_num m =
      if line_num == 0
      then (err (bad_request "Invalid line number"), m)
      else (do
        out ←
            exec_ssh id
              (codes "sudo sed -i '" ++ decimal line_num ++ codes "d' /etc/hosts && echo ok")
        pure true)
          m

  unfoldable pub get_resolv_conf : String → Handler (Machine World exec) ResolvConf
  unfolding exec_ssh parse_resolv
  get_resolv_conf id = do raw ← exec_ssh id (codes "cat /etc/resolv.conf"); pure (parse_resolv raw)

  unfoldable pub set_nameservers :
      String → List Text → List Text → Handler (Machine World exec) Bool
  unfolding exec_ssh resolv_content
  set_nameservers id nameservers domains = do
    out ← exec_ssh id (
        codes "echo '"
        ++ base64 (resolv_content nameservers domains)
        ++ codes "' | base64 -d | sudo tee /etc/resolv.conf > /dev/null && echo ok")
    pure true

  abbrev sed_password : Bool → Text
  sed_password enabled =
      codes "sudo sed -i 's/.*PasswordAuthentication.*/PasswordAuthentication "
      ++ (if enabled then codes "yes" else codes "no")
      ++ codes "/' /etc/ssh/sshd_config && sudo systemctl reload sshd && echo ok"

  unfoldable pub set_password_auth : String → Bool → Handler (Machine World exec) Bool
  unfolding exec_ssh
  set_password_auth id enabled = do out ← exec_ssh id (sed_password enabled); pure true
