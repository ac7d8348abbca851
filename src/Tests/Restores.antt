-- ===== src/Tests/Restores.antt =====
-- Examples of backups that are found again.
use hamyar_ops.Base.{
  ◌≡◌, ◌∙◌, refl, sym, ap, arith, eq_iff, String, true, false, Option, none, some, [], ◌∷◌, ◌<>◌,
  if◌then◌else◌, str_eq,
}
use hamyar_ops.Http.{Result, ok, err, error}
use hamyar_ops.Schedules.Backups.{Strategy}
use hamyar_ops.Backups.{Storage, TargetType, Storages, Backups}
use hamyar_ops.Backups.Archives.Machine.{Effects}
use hamyar_ops.Backups.Execution.{finished, Stored, offload}
use hamyar_ops.Backups.Restores.{Restoring, get_archive_buffer}
use hamyar_ops.Backups.Restores.Offloaded.{StoresObjects, get_archive_buffer-offload}
use hamyar_ops.Tests.Values.{list_database}
use hamyar_ops.Tests.Retention.{finished_backup}

-- The content of the one file, if it is there, and the objects by their keys.
abbrev Disk : Type 0
Disk = Option String × (String → Option String)

instance abbrev disk : Storages
disk = record {
  World = Disk;
  exists = λ p w. true;
  unlink = λ p w. (ok tt, (none, w.1));
  delete_object = λ c k w. w;
}

-- A machine on which every command succeeds.
abbrev working_machine : Effects Disk
working_machine = record {
  exec = λ program args w. (ok "", w);
  make_temp_dir = λ prefix w. (ok prefix, w);
  make_dir = λ path w. (ok tt, w);
  make_dirs = λ path w. (ok tt, w);
  write_file = λ path content w. (ok tt, w);
  copy_file = λ from to w. (ok tt, w);
  remove_tree = λ path w. (ok tt, w);
  file_size = λ path w. (ok 5, w);
  upload = λ config key path w. (ok tt, (w.0, λ k. if str_eq k key then w.0 else w.1 k));
  remove = λ path w. (ok tt, (none, w.1));
  exists = λ path w. true;
  split = λ s by. s ∷ [];
  join = λ dir name. dir <> "/" <> name;
  dirname = λ path. path;
  basename = λ path. path;
  volumes_of = λ s w. (ok [], w);
  json = λ fields. "";
  json_indented = λ fields. "";
  json_with_volumes = λ name volumes. "";
}

abbrev read_or_fail : Option String → Result String
read_or_fail none = err (error "not found")
read_or_fail (some text) = ok text

abbrev reading : Restoring Disk
reading = record {
  download = λ config key w. (read_or_fail (w.1 key), w);
  read_file = λ path w. (read_or_fail w.0, w);
  read_dir = λ path w. (ok [], w);
  feed = λ program args path w. (ok tt, w);
  meta_of = λ dir w. record { container = none; engine = none; db = none };
  ends_with = λ a b. false;
  without_end = λ a b. b;
}

disk-StoresObjects :
    StoresObjects ⦃db = list_database⦄ working_machine reading
      (λ path w. w.0)
      (λ config key w. w.1 key)
disk-StoresObjects = record {
  put = λ config key path w w' e.
      sym (ap (λ (x : Result (Unit {0}) × Disk). x.1.1 key) e) ∙ ground (arith, eq_iff key key);
  kept = λ config key path w. refl;
  got = λ config key text w h. ap read_or_fail h;
}

abbrev to_bucket : Strategy
to_bucket = record {
  id = "t1";
  name = "nightly";
  target_type = "compose";
  targets = "api" ∷ [];
  storage = "s3";
  s3_config_id = some "c1";
  schedule_cron = "0 3 * * *";
  retention_max = 7;
  exclude_node_modules = true;
  enabled = true;
}

abbrev before : Backups ⦃db = list_database⦄ ⦃storages = disk⦄
before = record { records = []; strategies = to_bucket ∷ []; world = (some "archive", λ key. none) }

-- What the offload of the archive returns and leaves.
abbrev offloaded : Result Stored × Backups ⦃db = list_database⦄ ⦃storages = disk⦄
unfolding offload
offloaded =
    offload working_machine "compose.yml" "/backups" 24 (λ name. name) [] 3 TargetType.compose "api"
      "api.tar.gz" "/backups/api.tar.gz" (some "c1") before

abbrev in_bucket : Stored
in_bucket = record {
  storage = Storage.s3;
  s3_key = some "backups/compose/api/api.tar.gz";
  local_path = none;
  expires_at = none;
}

has_offloaded :
    offload working_machine "compose.yml" "/backups" 24
      (λ name. name)
      []
      3
      TargetType.compose
      "api"
      "api.tar.gz"
      "/backups/api.tar.gz"
      (some "c1")
      before
    ≡ (ok in_bucket, offloaded.1)
unfolding offload offloaded
has_offloaded = refl

get_archive_buffer-offload_example :
    (get_archive_buffer working_machine reading []
      (finished working_machine "compose.yml" "/backups" 24
        (λ name. name)
        []
        (some "t1")
        "api.tar.gz"
        5
        in_bucket
        (finished_backup "b1" 1))
      offloaded.1).0
    ≡ ok "archive"
get_archive_buffer-offload_example =
    get_archive_buffer-offload working_machine reading "compose.yml" "/backups" 24 (λ name. name) []
      (λ path w. w.0) (λ config key w. w.1 key) 3 TargetType.compose "api" "api.tar.gz"
      "/backups/api.tar.gz" "c1" "archive" (some "t1") 5 (finished_backup "b1" 1) before offloaded.1
      in_bucket disk-StoresObjects refl refl refl has_offloaded
