-- ===== src/Tests/Retention.antt =====
-- Examples of the retention of backups.
use hamyar_ops.Base.{
  ℕ, ◌≤◌, ◌≢◌, refl, String, true, false, none, some, [], ◌∷◌, keep, length, arith, eq_iff, All,
  ◌<>◌,
}
use hamyar_ops.Http.{ok, err, error}
use hamyar_ops.Schedules.Backups.{Strategy}
use hamyar_ops.Backups.{
  Storage, RecordStatus, TargetType, Storages, BackupRecord, Backups, is_kept, enforce_retention,
}
use hamyar_ops.Backups.Archives.Machine.{Effects}
use hamyar_ops.Backups.Execution.{run_strategy_backup}
use hamyar_ops.Backups.Execution.Settled.{IsSettled}
use hamyar_ops.Backups.Execution.Running.{IsOther}
use hamyar_ops.Backups.Execution.Targets.{HasEnded, run_strategy_backup_settles}
use hamyar_ops.Backups.Retention.{enforce_retention_bounds}
use hamyar_ops.Tests.Values.{list_database}

instance abbrev pub no_storage : Storages
no_storage = record {
  World = Unit {0};
  exists = λ p w. false;
  unlink = λ p w. (ok tt, w);
  delete_object = λ c k w. w;
}

abbrev one_kept : Strategy
one_kept = record {
  id = "t1";
  name = "nightly";
  target_type = "app";
  targets = "api" ∷ [];
  storage = "local";
  s3_config_id = none;
  schedule_cron = "0 3 * * *";
  retention_max = 1;
  exclude_node_modules = true;
  enabled = true;
}

abbrev pub finished_backup : String → ℕ → BackupRecord
finished_backup id at = record {
  id = id;
  strategy_id = some "t1";
  target_type = TargetType.app;
  target_name = "api";
  file_name = id;
  size_bytes = 1;
  message = none;
  storage = Storage.local;
  local_path = some id;
  s3_key = none;
  status = RecordStatus.success;
  created_at = at;
  expires_at = none;
}

abbrev two_backups : Backups ⦃db = list_database⦄ ⦃storages = no_storage⦄
two_backups = record {
  records = finished_backup "a" 1 ∷ finished_backup "b" 2 ∷ [];
  strategies = one_kept ∷ [];
  world = tt;
}

b_is_not_a : ◌≢◌ {A = String} "b" "a"
b_is_not_a = λ e. ground (arith, (eq_iff "b" "a").1 e)

enforce_retention_bounds_example :
    length (keep (is_kept "t1") (enforce_retention one_kept two_backups).records) ≤ 1
enforce_retention_bounds_example =
    enforce_retention_bounds one_kept two_backups ((b_is_not_a, tt), (tt, tt)) (λ p w h. refl)

-- A machine on which every command fails.
abbrev broken_machine : Effects (Unit {0})
broken_machine = record {
  exec = λ program args w. (err (error "failed"), w);
  make_temp_dir = λ prefix w. (ok prefix, w);
  make_dir = λ path w. (ok tt, w);
  make_dirs = λ path w. (ok tt, w);
  write_file = λ path content w. (ok tt, w);
  copy_file = λ from to w. (ok tt, w);
  remove_tree = λ path w. (ok tt, w);
  file_size = λ path w. (ok 1, w);
  upload = λ config key path w. (ok tt, w);
  remove = λ path w. (ok tt, w);
  exists = λ path w. true;
  split = λ s by. s ∷ [];
  join = λ dir name. dir <> "/" <> name;
  dirname = λ path. path;
  basename = λ path. path;
  volumes_of = λ s w. (ok [], w);
  json = λ fields. "";
  json_indented = λ fields. "";
  json_with_volumes = λ name volumes. "";
}

two_backups-IsSettled : All IsSettled two_backups.records
two_backups-IsSettled = (λ e. cc, (λ e. cc, tt))

abbrev id_of_target : String → String
id_of_target name = "c"

new_id : All (IsOther "c") two_backups.records
new_id =
    ((λ e. ground (arith, (eq_iff "a" "c").1 e)), ((λ e. ground (arith, (eq_iff "b" "c").1 e)), tt))

abbrev after_run : Backups ⦃db = list_database⦄ ⦃storages = no_storage⦄
unfolding run_strategy_backup
after_run =
    run_strategy_backup broken_machine "compose.yml" "/backups" 24 (λ name. name) [] 3 "now"
      id_of_target "t1" two_backups

run_strategy_backup_settles_example : All IsSettled after_run.records × HasEnded "c" after_run
unfolding after_run
run_strategy_backup_settles_example =
    run_strategy_backup_settles broken_machine "compose.yml" "/backups" 24 (λ name. name) [] 3 "now"
      id_of_target one_kept [] "api" "t1" two_backups refl refl refl two_backups-IsSettled new_id tt
