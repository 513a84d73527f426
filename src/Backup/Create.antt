-- ===== src/Backup/Create.antt =====
-- internal/backup/backup.go: Create, CreateWorker and create.
pub mod Restarts
use appliance_ctl.Common.{
  String, ◌<>◌, ℕ, Bool, if◌then◌else◌, Option, none, some, List, [], length, Result, ok, err,
}
use appliance_ctl.Common.Effects.{Run, ◌>>=◌, ◌>>◌, return, attempt, in_context}
use appliance_ctl.Common.Text.{trim_space, is_empty}
use appliance_ctl.Evidence.{pass, fail}
use appliance_ctl.Backup.{
  FileEntry, Manifest, Call, stop, enable_and_start, Stat, exists, not_exist, failed, System, World,
  note, perform, bail, copy_dir, save_manifest,
}

-- The arguments of `create`, the clock and the random id.
pub record Request : Type 0 where
  pub unit_name : String
  pub data_dir : String
  pub backup_root : String
  pub appliance_version : String
  pub metadata_bundles_dir : String
  pub metadata_version : String
  pub metadata_digest : String
  pub models_dir : String
  pub now : ℕ
  pub backup_id : String

abbrev pub manifest_of : Request → List FileEntry → List FileEntry → List FileEntry → Manifest
manifest_of r files policy_files model_files = record {
  backup_id = r.backup_id;
  created_at = r.now;
  appliance_version = r.appliance_version;
  metadata_version = trim_space r.metadata_version;
  metadata_digest = trim_space r.metadata_digest;
  files = files;
  policy_files = policy_files;
  model_files = model_files;
}

module _ (sys : System) where
  -- Behind the answer of a copy: its check, and on an error the restart.
  unfoldable pub copied :
      String
      → String
      → String
      → (List FileEntry → String)
      → Result String (List FileEntry)
      → Run World (List FileEntry)
  unfolding bail
  copied unit id context what (err e) = do note id fail e; bail sys unit (context <> ": " <> e)
  copied unit id context what (ok entries) = do note id pass (what entries); return entries

  -- `copied %d<what><dir>`
  abbrev pub copied_text : String → String → List FileEntry → String
  copied_text what dir entries = "copied " <> sys.decimal (length entries) <> what <> dir

  -- The copy of the data directory.
  unfoldable pub data_step : String → String → String → Run World (List FileEntry)
  unfolding copied
  data_step unit dir backup_dir = do
    o ← attempt (copy_dir sys dir (sys.join backup_dir "data"))
    copied unit "backup-copy-data" "backup" (copied_text " file(s) from " dir) o

  -- The snapshot of the metadata bundles, from the answer of os.Stat on.
  unfoldable pub copy_bundles : String → String → String → Stat → Run World (List FileEntry)
  unfolding copied bail
  copy_bundles unit dir backup_dir exists = do
    o ← attempt (copy_dir sys dir (sys.join backup_dir "metadata-bundles"))
    copied unit "backup-copy-metadata-bundles" "backup: metadata bundles"
        (copied_text " metadata-bundle file(s) from " dir) o
  copy_bundles unit dir backup_dir not_exist = return []
  copy_bundles unit dir backup_dir (failed e) =
      bail sys unit ("backup: stat metadata bundles: " <> e)

  unfoldable pub bundles_step : String → String → String → Run World (List FileEntry)
  unfolding copy_bundles
  bundles_step unit dir backup_dir w =
      if is_empty dir then return [] w else copy_bundles unit dir backup_dir (sys.stat w.disk dir) w

  unfoldable pub models_step : String → String → String → Run World (List FileEntry)
  unfolding copied
  models_step unit dir backup_dir w =
      if is_empty dir
      then return [] w
      else ((attempt (copy_dir sys dir (sys.join backup_dir "models")) >>= λ o.
            copied unit "backup-copy-models" "backup: model data"
              (copied_text " model file(s) from " dir) o)
          w)

  -- Behind the answer of SaveManifest.
  unfoldable pub saved : String → Result String (Unit {0}) → Run World (Unit {0})
  unfolding bail
  saved unit (err e) = bail sys unit ("backup: " <> e)
  saved unit (ok done) = return tt

  unfoldable pub save_step : String → String → Manifest → Run World (Unit {0})
  unfolding saved
  save_step unit backup_dir m = do o ← attempt (save_manifest sys backup_dir m); saved unit o

  -- Behind the answer of the last EnableAndStart. Its error is returned beside the manifest.
  unfoldable pub restarted :
      Manifest → Result String (Unit {0}) → Run World (Manifest × Option String)
  restarted m (err e) = do
    note "backup-restart-k3s" fail e
    return (m, some ("backup: restart k3s: " <> e))
  restarted m (ok done) = do
    note "backup-restart-k3s" pass "k3s restarted after backup"
    return (m, none)

  unfoldable pub restart_step : String → Manifest → Run World (Manifest × Option String)
  unfolding restarted perform
  restart_step unit m = do o ← attempt (perform sys (enable_and_start unit)); restarted m o

  -- What follows the stop.
  unfoldable pub snapshot : Request → Run World (Manifest × Option String)
  unfolding data_step bundles_step models_step save_step restart_step
  snapshot r = do
    let backup_dir = sys.join r.backup_root r.backup_id
    files ← data_step r.unit_name r.data_dir backup_dir
    policy_files ← bundles_step r.unit_name (trim_space r.metadata_bundles_dir) backup_dir
    model_files ← models_step r.unit_name (trim_space r.models_dir) backup_dir
    let m = manifest_of r files policy_files model_files
    save_step r.unit_name backup_dir m
    restart_step r.unit_name m

  -- `create`. An error without a manifest is the run's error; a manifest comes with the error of
  -- the restart, if that failed.
  unfoldable pub create : Request → Run World (Manifest × Option String)
  unfolding snapshot perform
  create r = do
    in_context "backup: stop k3s" (perform sys (stop r.unit_name))
    note "backup-stop-k3s" pass "k3s stopped for a consistent snapshot"
    snapshot r

  -- `Create`
  abbrev pub create_server : Request → Run World (Manifest × Option String)
  create_server r = create (record r { models_dir = "" })

  -- `CreateWorker`
  abbrev pub create_worker : Request → Run World (Manifest × Option String)
  create_worker r =
      create (record r { metadata_bundles_dir = ""; metadata_version = ""; metadata_digest = "" })
