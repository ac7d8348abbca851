-- ===== src/ErrorLogs.antt =====
-- apps/ops-api/src/modules/error-logs/error-logs.service.ts: the scan of the log files for errors,
-- and the rows that it adds. The files, Docker and SHA-1 are parameters; texts are lists of UTF-16
-- code units. The regular expressions are behind the interface `Patterns`, which
-- ErrorLogs/Titles fills.
pub mod Titles
pub mod Spacing
pub mod Overview
use hamyar_ops.Base.{
  ℕ, suc, ◌+◌, ◌-◌, ◌*◌, String, Bool, true, false, ◌&&◌, ◌||◌, not, Option, none, some, List, [],
  ◌∷◌, ◌++◌, if◌then◌else◌, keep, map, drop, take, length, leb, str_eq, codes, is_some,
}
use hamyar_ops.Base.Chars.{Text, split, is_empty}
use hamyar_ops.Prisma.{Database, find_first}

unfoldable pub dedup_window_ms : ℕ
dedup_window_ms = 5 * 60 * 1000

pub record RawError : Type 0 where
  pub source : Text
  pub source_name : Text
  pub full_line : Text
  pub route : Option Text
  pub when : ℕ

pub record ErrorLog : Type 0 where
  pub source : Text
  pub source_name : Text
  pub message : Text
  pub full_line : Text
  pub route : Option Text
  pub timestamp : ℕ
  pub fingerprint : String

-- `ERROR_RE`, `extractRoute`, `parseWhen` at the time of the scan and `normalizeTitle`.
pub record Patterns : Type 0 where
  pub is_error : Text → Bool
  pub extract_route : Text → Option Text
  pub parse_when : Text → ℕ
  pub normalize_title : Text → Text

pub record Container : Type 0 where
  pub name : Text
  pub is_running : Bool
  pub logs : Option (List Text)

-- Where the logs stand: a file that is missing or that cannot be read is `none`, and so is the list
-- of the containers if Docker does not answer.
pub record Machine : Type 0 where
  pub read : Text → Option Text
  pub log_hamyar : Text
  pub log_nginx : Text
  pub containers : Option (List Container)

-- xs.slice(-n)
abbrev pub last_of : {A : Type 0} → ℕ → List A → List A
last_of n xs = drop (length xs - n) xs

abbrev error_files : List Text
error_files =
    codes "hamyar-api-error.log"
    ∷ codes "hamyar-panel-error.log"
    ∷ codes "hamyar-storage-error.log"
    ∷ []

module _ (patterns : Patterns) where
  open patterns use {is_error, extract_route, parse_when, normalize_title}

  abbrev raw_of : Text → Text → Text → RawError
  raw_of source name line = record {
    source = source;
    source_name = name;
    full_line = line;
    route = extract_route line;
    when = parse_when line;
  }

  -- `!line || !ERROR_RE.test(line)` passes a line by.
  unfoldable pub errors_of : Text → Text → List Text → List RawError
  errors_of source name lines =
      map (raw_of source name) (keep (λ l. not (is_empty l) && is_error l) lines)

  abbrev scan_content : Text → Text → Option Text → List RawError
  unfolding errors_of split
  scan_content source name none = []
  scan_content source name (some content) =
      errors_of source name (last_of 600 (split b'\n' content))

  unfoldable pub scan_file_errors : Machine → Text → Text → Text → List RawError
  unfolding scan_content
  scan_file_errors m file source name = scan_content source name (m.read file)

  -- path.join(dir, file), for a directory without a slash at its end.
  abbrev under : Text → Text → Text
  under dir file = dir ++ (b'/' ∷ file)

  abbrev app_errors : Machine → List Text → List RawError
  unfolding scan_file_errors
  app_errors m [] = []
  app_errors m (a ∷ others) =
      scan_file_errors m (under m.log_hamyar (a ++ codes "-error.log")) (codes "pm2") a
      ++ (scan_file_errors m (under m.log_hamyar (a ++ codes "-out.log")) (codes "pm2") a
          ++ app_errors m others)

  abbrev nginx_errors : Machine → List Text → List RawError
  unfolding scan_file_errors
  nginx_errors m [] = []
  nginx_errors m (f ∷ fs) =
      scan_file_errors m (under m.log_nginx f) (codes "nginx") f ++ nginx_errors m fs

  abbrev logs_of : Text → Option (List Text) → List RawError
  unfolding errors_of
  logs_of name none = []
  logs_of name (some lines) = errors_of (codes "docker") name lines

  abbrev container_errors : List Container → List RawError
  container_errors [] = []
  container_errors (c ∷ cs) =
      (if c.is_running then logs_of c.name c.logs else []) ++ container_errors cs

  abbrev docker_errors : Option (List Container) → List RawError
  docker_errors none = []
  docker_errors (some cs) = container_errors cs

  unfoldable pub collect_raw_errors : Machine → List Text → List RawError
  unfolding app_errors nginx_errors
  collect_raw_errors m apps =
      app_errors m apps ++ (nginx_errors m error_files ++ docker_errors m.containers)

module _ ⦃db : Database⦄ (normalize_title : Text → Text) (sha1 : Text → String) where
  open db use {Table, create}

  unfoldable pub fingerprint_of : RawError → String
  fingerprint_of e =
      sha1 (e.source ++ (b'|' ∷ (e.source_name ++ (b'|' ∷ normalize_title e.full_line))))

  -- A row of the same error, not older than the window before it.
  unfoldable pub is_repeat : RawError → ErrorLog → Bool
  is_repeat e r =
      str_eq r.fingerprint (fingerprint_of e) && leb (e.when - dedup_window_ms) r.timestamp

  unfoldable pub row_of : RawError → ErrorLog
  row_of e = record {
    source = e.source;
    source_name = e.source_name;
    message = normalize_title e.full_line;
    full_line = take 4000 e.full_line;
    route = e.route;
    timestamp = e.when;
    fingerprint = fingerprint_of e;
  }

  unfoldable pub store_error : RawError → Table ErrorLog × ℕ → Table ErrorLog × ℕ
  store_error e (t, inserted) =
      if is_some (find_first (is_repeat e) t)
      then (t, inserted)
      else (create (row_of e) t, suc inserted)

  unfoldable pub store_errors : List RawError → Table ErrorLog × ℕ → Table ErrorLog × ℕ
  store_errors [] s = s
  store_errors (e ∷ es) s = store_errors es (store_error e s)

  pub record Scanned : Type 0 where
    pub logs : Table ErrorLog
    pub scanned : ℕ
    pub inserted : ℕ

  unfoldable pub scan_now : List RawError → Table ErrorLog → Scanned
  scan_now raws t =
      let (logs, inserted) = store_errors raws (t, 0) in
      record { logs = logs; scanned = length raws; inserted = inserted }
