-- ===== src/Upgrade/Undo.antt =====
-- internal/upgrade/upgrade.go: snapshotFile and revertFile, the closures rollback and failUpgrade
-- of Upgrade, and writeImagePullRegistries.
pub mod Snapshots
pub mod Restarts
use appliance_ctl.Common.{
  String, ◌<>◌, Bool, true, false, if◌then◌else◌, Option, none, some, List, [], ◌∷◌, ◌++◌, Result,
  ok, err,
}
use appliance_ctl.Common.Effects.{Outcome, Run, ◌>>=◌, ◌>>◌, return, fail_with, attempt, in_context}
use appliance_ctl.Common.Text.{trim_space, is_blank, is_empty, join}
use appliance_ctl.Backup as Recovery
use appliance_ctl.Backup.{exists, not_exist, failed}
use appliance_ctl.Backup.Restore.{Request, restore_server}
use appliance_ctl.Evidence.{Status, fail}
use appliance_ctl.Lifecycle.Atomic.{Disk, update}
use appliance_ctl.Upgrade.Options.{Options}
use appliance_ctl.Upgrade.Host.{
  Change, snapshot, write_registries, Undo, revert, restore_dns, remove_packages, remove_agent,
  Call, changed, undone, restoring, Answer, System, World, Pending, note, or_fail, ask, operate,
}

abbrev pub previous : String → String
previous path = path <> ".previous"

abbrev pub result_of : Option String → Result String (Unit {0})
result_of none = ok tt
result_of (some e) = err e

-- `[]error` with the error of a call
abbrev pub errors_of : Result String (Unit {0}) → List String
errors_of (err e) = e ∷ []
errors_of (ok done) = []

-- The error of os.Stat.
abbrev pub stat_error : String → Recovery.Stat → Option String
stat_error path exists = none
stat_error path not_exist = some ("stat " <> path <> ": no such file or directory")
stat_error path (failed e) = some e

abbrev pub k3s_paths : Options → List String
k3s_paths opts = opts.k3s_binary_dest_path ∷ opts.k3s_config_path ∷ opts.k3s_unit_path ∷ []

abbrev pub preserved_note : String
preserved_note = " (failed state preserved due to --preserve-failed-state)"

abbrev pub rolled_back_note : String
rolled_back_note = " (rolled back to pre-upgrade backup)"

-- The arguments of backup.Restore.
abbrev pub restore_request : Options → String → String → Request
restore_request opts backup_dir bundles_dir = record {
  unit_name = opts.k3s_unit_name;
  backup_dir = backup_dir;
  data_dir = opts.k3s_data_dir;
  metadata_bundles_dir = bundles_dir;
  models_dir = "";
}

module _ (sys : System) where
  -- Behind the answer of a call that writes `content` to `path`.
  unfoldable pub wrote : Call → String → String → World → Option String → Outcome World (Unit {0})
  wrote c path content w none = record {
    world = record w { calls = c ∷ w.calls; disk = update w.disk path (some content) };
    result = ok tt;
  }
  wrote c path content w (some e) = record {
    world = record w { calls = c ∷ w.calls; disk = sys.left w.calls c w.disk };
    result = err e;
  }

  unfoldable pub write : Call → String → String → Run World (Unit {0})
  unfolding wrote
  write c path content w = wrote c path content w (sys.answer w.calls c).problem

  -- `os.ReadFile`
  unfoldable pub read : String → Run World String
  read path w = record { world = w; result = ((sys.recovery w.calls).on w.disk).read_file path }

  unfoldable pub check_stat : String → Run World (Unit {0})
  check_stat path w = record {
    world = w;
    result = result_of (stat_error path ((sys.recovery w.calls).stat w.disk path));
  }

  -- `snapshotFile`
  unfoldable pub snapshot_file : String → Run World (Unit {0})
  unfolding read check_stat write
  snapshot_file path = do
    content ← in_context ("snapshot " <> path) (read path)
    in_context ("snapshot " <> path) (check_stat path)
    write (changed (snapshot path)) (previous path) content

  -- `revertFile`
  unfoldable pub revert_file : String → Run World (Unit {0})
  unfolding read write
  revert_file path = do content ← read (previous path); write (undone (revert path)) path content

  -- A call whose error is ignored.
  unfoldable pub undo : Undo → Run World (Unit {0})
  unfolding ask
  undo u = ask sys (undone u) >> return tt

  unfoldable pub undo_all : List Undo → Run World (Unit {0})
  unfolding undo
  undo_all [] = return tt
  undo_all (u ∷ rest) = undo u >> undo_all rest

  -- A call whose error is collected.
  unfoldable pub undo_if : Bool → Undo → Run World (List String)
  unfolding ask
  undo_if true u = do a ← ask sys (undone u); return (errors_of (result_of a.problem))
  undo_if false u = return []

  -- The loop over the files of K3s.
  unfoldable pub revert_files : List String → Run World (List String)
  unfolding revert_file
  revert_files [] = return []
  revert_files (path ∷ rest) = do
    o ← attempt (revert_file path)
    more ← revert_files rest
    return (errors_of o ++ more)

  unfoldable pub revert_if : Bool → List String → Run World (List String)
  unfolding revert_files
  revert_if true paths = revert_files paths
  revert_if false paths = return []

  -- `backup.Restore`
  unfoldable pub restore_backup : Options → String → String → Run World (List String)
  unfolding operate
  restore_backup opts backup_dir bundles_dir = do
    o ← attempt (
        operate sys (restoring backup_dir)
          (λ host. restore_server host (restore_request opts backup_dir bundles_dir)))
    return (errors_of o)

  -- `if len(rollbackErrs) > 0`
  unfoldable pub report_errors : List String → Run World (Unit {0})
  unfolding join
  report_errors [] = return tt
  report_errors (e ∷ rest) = note "upgrade-rollback" "backup-restore" fail (join "\n" (e ∷ rest))

  -- `rollback`, with what is pending.
  unfoldable pub rollback_of : Options → String → String → Pending → Run World (Unit {0})
  unfolding undo_if revert_if restore_backup report_errors
  rollback_of opts backup_dir bundles_dir p = do
    files ← revert_if p.binary (k3s_paths opts)
    dns ← undo_if p.dns restore_dns
    packages ← undo_if p.packages remove_packages
    agent ← undo_if p.agent remove_agent
    backup ← restore_backup opts backup_dir bundles_dir
    report_errors (files ++ (dns ++ (packages ++ (agent ++ backup))))

  unfoldable pub rollback : Options → String → String → Run World (Unit {0})
  unfolding rollback_of
  rollback opts backup_dir bundles_dir w = rollback_of opts backup_dir bundles_dir w.pending w

  -- `failUpgrade`, with the calls of the cleanup in front of its rollback.
  unfoldable pub fail_upgrade {κ} :
      {A : Type κ} → Options → String → String → String → List Undo → Run World A
  unfolding undo_all rollback
  fail_upgrade opts backup_dir bundles_dir problem undos =
      if opts.preserve_failed_state
      then fail_with (problem <> preserved_note)
      else (undo_all undos >> rollback opts backup_dir bundles_dir)
        >> fail_with (problem <> rolled_back_note)

-- Behind the answer of `cfg.Validate`.
unfoldable pub write_valid_registries :
    System → String → String → Option String → Run World (Unit {0})
unfolding ask
write_valid_registries sys path registry (some e) =
    fail_with ("upgrade: image pull registry: " <> e)
write_valid_registries sys path registry none = do
  a ← ask sys (changed (write_registries path registry))
  or_fail "upgrade: write k3s registries.yaml: " (result_of a.problem)

-- `writeImagePullRegistries`
unfoldable pub write_image_pull_registries : System → Options → Run World (Unit {0})
unfolding write_valid_registries is_blank trim_space
write_image_pull_registries sys opts =
    if is_blank opts.image_pull_registry
    then return tt
    else if is_blank opts.k3s_registries_path
    then fail_with "upgrade: image pull registry configured but K3sRegistriesPath is empty"
    else write_valid_registries sys (trim_space opts.k3s_registries_path) opts.image_pull_registry
        sys.registry_problem
