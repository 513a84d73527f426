-- ===== src/Backup/Restore.antt =====
-- internal/backup/backup.go: Restore, RestoreWorker and restore.
pub mod Refuses
use appliance_ctl.Common.{
  String, ◌<>◌, Bool, ◌||◌, if◌then◌else◌, Option, none, some, List, [], ◌∷◌, ◌++◌, Result, ok, err,
}
use appliance_ctl.Common.Effects.{Run, ◌>>=◌, ◌>>◌, return, fail_with, attempt, in_context}
use appliance_ctl.Common.Text.{trim_space, is_empty}
use appliance_ctl.Evidence.{Check, pass, fail}
use appliance_ctl.Backup.{
  FileEntry, Manifest, Call, stop, enable_and_start, remove_all, Stat, exists, not_exist, failed,
  System, World, note, perform, bail, copy_dir, load_manifest,
}
use appliance_ctl.Backup.Integrity.{verify}

-- The arguments of `restore`.
pub record Request : Type 0 where
  pub unit_name : String
  pub backup_dir : String
  pub data_dir : String
  pub metadata_bundles_dir : String
  pub models_dir : String

-- The texts of one tree: its check, and the errors of its removal and of its copy.
pub record Tree : Type 0 where
  pub id : String
  pub clear : String
  pub copy : String
  pub restored : String

abbrev pub data_tree : Tree
data_tree = record {
  id = "restore-copy-data";
  clear = "backup: clear data directory: ";
  copy = "backup: restore data: ";
  restored = "data restored from backup";
}

abbrev pub bundles_tree : Tree
bundles_tree = record {
  id = "restore-copy-metadata-bundles";
  clear = "backup: clear metadata bundles: ";
  copy = "backup: restore metadata bundles: ";
  restored = "metadata bundles restored from backup";
}

abbrev pub models_tree : Tree
models_tree = record {
  id = "restore-copy-models";
  clear = "backup: clear model data: ";
  copy = "backup: restore model data: ";
  restored = "model data restored from backup";
}

-- `len(manifest.ModelFiles) > 0` fails.
abbrev pub has_none : List FileEntry → Bool
has_none [] = Bool.true
has_none (f ∷ rest) = Bool.false

module _ (sys : System) (unit : String) where
  -- Behind the answer of RemoveAll on the data directory.
  unfoldable pub cleared_data : Result String (Unit {0}) → Run World (Unit {0})
  unfolding bail
  cleared_data (err e) = bail sys unit (data_tree.clear <> e)
  cleared_data (ok done) = return tt

  -- Behind that on another tree, which has a check.
  unfoldable pub cleared : Tree → Result String (Unit {0}) → Run World (Unit {0})
  unfolding bail
  cleared tree (err e) = do note tree.id fail e; bail sys unit (tree.clear <> e)
  cleared tree (ok done) = return tt

  -- Behind the answer of the copy.
  unfoldable pub recopied : Tree → Result String (List FileEntry) → Run World (Unit {0})
  unfolding bail
  recopied tree (err e) = do note tree.id fail e; bail sys unit (tree.copy <> e)
  recopied tree (ok entries) = note tree.id pass tree.restored

  unfoldable pub clear_data_step : String → Run World (Unit {0})
  unfolding cleared_data perform
  clear_data_step dir = do o ← attempt (perform sys (remove_all dir)); cleared_data o

  unfoldable pub clear_step : Tree → String → Run World (Unit {0})
  unfolding cleared perform
  clear_step tree dir = do o ← attempt (perform sys (remove_all dir)); cleared tree o

  unfoldable pub copy_step : Tree → String → String → Run World (Unit {0})
  unfolding recopied
  copy_step tree src dst = do o ← attempt (copy_dir sys src dst); recopied tree o

  unfoldable pub replace_tree : Tree → String → String → Run World (Unit {0})
  unfolding clear_step copy_step
  replace_tree tree src dst = do clear_step tree dst; copy_step tree src dst

  -- The metadata bundles, from the answer of os.Stat on the snapshot on.
  unfoldable pub restore_bundles : String → String → Stat → Run World (Unit {0})
  unfolding replace_tree bail
  restore_bundles src dst exists = replace_tree bundles_tree src dst
  restore_bundles src dst not_exist = return tt
  restore_bundles src dst (failed e) =
      bail sys unit ("backup: stat metadata bundles snapshot: " <> e)

  unfoldable pub bundles_step : String → String → Run World (Unit {0})
  unfolding restore_bundles
  bundles_step src dst w =
      if is_empty dst then return tt w else restore_bundles src dst (sys.stat w.disk src) w

  unfoldable pub models_step : List FileEntry → String → String → Run World (Unit {0})
  unfolding replace_tree
  models_step files src dst w =
      if is_empty dst || has_none files then return tt w else replace_tree models_tree src dst w

  -- Behind the answer of the last EnableAndStart.
  unfoldable pub started : Result String (Unit {0}) → Run World (Unit {0})
  started (err e) = do note "restore-start-k3s" fail e; fail_with ("backup: start k3s: " <> e)
  started (ok done) = note "restore-start-k3s" pass "k3s restarted after restore"

  unfoldable pub start_step : Run World (Unit {0})
  unfolding started perform
  start_step = do o ← attempt (perform sys (enable_and_start unit)); started o

-- `checks, err := Verify(backupDir)`
unfoldable pub verified : List Check × Option String → Run World (Unit {0})
verified (checks, none) w = record {
  world = record w { checks = w.checks ++ checks };
  result = ok tt;
}
verified (checks, some e) w = record {
  world = record w { checks = w.checks ++ checks };
  result =
      err ("backup: refusing to restore from a backup that failed integrity verification: " <> e);
}

module _ (sys : System) where
  -- What follows the stop.
  unfoldable pub replace : Request → Manifest → Run World (Unit {0})
  unfolding clear_data_step copy_step bundles_step models_step start_step
  replace r m = do
    clear_data_step sys r.unit_name r.data_dir
    copy_step sys r.unit_name data_tree (sys.join r.backup_dir "data") r.data_dir
    bundles_step sys r.unit_name (sys.join r.backup_dir "metadata-bundles")
        (trim_space r.metadata_bundles_dir)
    models_step sys r.unit_name m.model_files (sys.join r.backup_dir "models")
        (trim_space r.models_dir)
    start_step sys r.unit_name

  -- From the stop on.
  unfoldable pub stop_and_replace : Request → Manifest → Run World (Unit {0})
  unfolding perform replace
  stop_and_replace r m = do
    in_context "backup: stop k3s" (perform sys (stop r.unit_name))
    note "restore-stop-k3s" pass "k3s stopped for restore"
    replace r m

  -- `restore`
  unfoldable pub restore : Request → Run World (Unit {0})
  unfolding load_manifest verify verified stop_and_replace
  restore r = do
    m ← load_manifest sys r.backup_dir
    (λ w. verified (verify sys r.backup_dir w) w)
    stop_and_replace r m

  -- `Restore`
  abbrev pub restore_server : Request → Run World (Unit {0})
  restore_server r = restore (record r { models_dir = "" })

  -- `RestoreWorker`
  abbrev pub restore_worker : Request → Run World (Unit {0})
  restore_worker r = restore (record r { metadata_bundles_dir = "" })
