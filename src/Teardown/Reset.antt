-- ===== src/Teardown/Reset.antt =====
-- FactoryReset of internal/teardown/teardown.go, and Uninstall of internal/zonctlhost/install.go.
pub mod Limits
use appliance_ctl.Common.{
  String, ◌<>◌, ◌==◌, Bool, true, false, not, ◌&&◌, ◌||◌, if◌then◌else◌, List, [], ◌∷◌, ◌++◌, map,
  Result, ok, err,
}
use appliance_ctl.Common.Effects.{Run, ◌>>=◌, ◌>>◌, return, fail_with, attempt, in_context}
use appliance_ctl.Common.Text.{trim_space, is_empty, join}
use appliance_ctl.Evidence.{pass, fail}
use appliance_ctl.Teardown.{
  Call, remove, remove_all, System, World, Layout, note, perform, checked, remove_k3s,
  restore_host_dns_check,
}

-- The other arguments of FactoryReset.
pub record Reset : Type 0 where
  pub state_dir : String
  pub data_dir : String
  pub control_plane_database_dir : String
  pub metadata_bundles_dir : String
  pub inference_models_dir : String
  pub workspace_root_dir : String
  pub zonctl_real_path : String
  pub zonctl_launcher_path : String
  pub recent_backup_verified : Bool
  pub data_loss_override : Bool
  pub wipe_workspaces : Bool

-- `ManagedHelperNames`
abbrev pub managed_helper_names : List String
managed_helper_names = "helm" ∷ []

module _ (sys : System) where
  -- The paths of `zonctlhost.Uninstall`.
  unfoldable pub zonctl_files : String → String → List String
  zonctl_files real launcher =
      let dir = sys.dir real in
      launcher
      ∷ real
      ∷ (if is_empty dir || dir == "." then [] else map (sys.join_path dir) managed_helper_names)

  -- One removal of the loop, in front of the errors of the later ones.
  abbrev pub with_error : String → Result String (Unit {0}) → List String → List String
  with_error path (err e) errors = ("zonctlhost: remove " <> path <> ": " <> e) ∷ errors
  with_error path (ok done) errors = errors

  unfoldable pub remove_each : List String → Run World (List String)
  unfolding perform
  remove_each [] = return []
  remove_each (path ∷ rest) =
      let later = remove_each rest in
      if is_empty path
      then later
      else (attempt (perform sys (remove path)) >>= λ o.
          later >>= λ errors. return (with_error path o errors))

  -- `errors.Join`
  abbrev pub joined : List String → Run World (Unit {0})
  joined [] = return tt
  joined (e ∷ errors) = fail_with (join "\n" (e ∷ errors))

  -- `zonctlhost.Uninstall`
  unfoldable pub uninstall_zonctl : String → String → Run World (Unit {0})
  unfolding zonctl_files remove_each
  uninstall_zonctl real launcher = do
    errors ← remove_each (zonctl_files real launcher)
    joined errors

  -- `os.RemoveAll` with its error and its check.
  unfoldable pub wipe : String → String → String → String → Run World (Unit {0})
  unfolding perform
  wipe context id message path = do
    in_context context (perform sys (remove_all path))
    note id "backup-restore" pass message

  abbrev pub cleaned : String → String
  cleaned path = sys.clean (trim_space path)

  -- The test on the database and on the models, on a cleaned path.
  abbrev pub is_wipeable : String → Bool
  is_wipeable path =
      not (is_empty path) && not (path == ".") && not (path == "/") && sys.is_abs path

  unfoldable pub wipe_if_valid : String → String → String → String → Run World (Unit {0})
  unfolding wipe
  wipe_if_valid context id message path =
      if is_wipeable path then wipe context id message path else return tt

  abbrev pub metadata_dir : Reset → String
  metadata_dir r =
      let dir = trim_space r.metadata_bundles_dir in
      if is_empty dir then "/data/zon/metadata-bundles" else dir

  unfoldable pub wipe_or_keep_workspaces : Reset → Run World (Unit {0})
  unfolding wipe
  wipe_or_keep_workspaces r =
      if r.wipe_workspaces
      then wipe "teardown: remove workspace root" "teardown-wipe-workspaces"
          "builder workspace root removed" (cleaned r.workspace_root_dir)
      else note "teardown-preserve-workspaces" "backup-restore" pass
          "builder workspace root preserved"

  abbrev pub invalid_workspace : Reset → Bool
  invalid_workspace r =
      let dir = cleaned r.workspace_root_dir in
      r.wipe_workspaces && (dir == "." || dir == "/" || not (sys.is_abs dir))

  unfoldable pub checked_uninstall : Reset → Run World (Unit {0})
  unfolding uninstall_zonctl checked
  checked_uninstall r = do
    o ← attempt (uninstall_zonctl r.zonctl_real_path r.zonctl_launcher_path)
    checked sys "teardown-remove-zonctl" "manifest" "teardown: remove zonctl" o

  unfoldable pub remove_zonctl : Reset → Run World (Unit {0})
  unfolding checked_uninstall
  remove_zonctl r = do
    checked_uninstall r
    note "teardown-remove-zonctl" "manifest" pass "zonctl removed from host"

  -- Behind the guards.
  unfoldable pub wipe_everything : Layout → Reset → Run World (Unit {0})
  unfolding remove_k3s wipe wipe_if_valid wipe_or_keep_workspaces remove_zonctl
      restore_host_dns_check
  wipe_everything l r = do
    remove_k3s sys l
    wipe "teardown: remove data directory" "teardown-wipe-data" "appliance data directory removed"
        r.data_dir
    wipe_if_valid "teardown: remove control-plane database directory"
        "teardown-wipe-controlplane-database" "control-plane PostgreSQL data directory removed"
        (cleaned r.control_plane_database_dir)
    wipe "teardown: remove metadata-bundles directory" "teardown-wipe-metadata-bundles"
        "metadata-bundles host directory removed" (metadata_dir r)
    wipe_if_valid "teardown: remove inference models directory" "teardown-wipe-inference-models"
        "host inference models directory removed" (cleaned r.inference_models_dir)
    wipe_or_keep_workspaces r
    wipe "teardown: remove state directory" "teardown-wipe-state-dir"
        "state directory removed (installer lock, transaction journal, evidence history, support bundles, backups)"
        r.state_dir
    remove_zonctl r
    restore_host_dns_check sys

  -- `FactoryReset`
  unfoldable pub factory_reset : Layout → Reset → Run World (Unit {0})
  unfolding wipe_everything
  factory_reset l r =
      if not r.recent_backup_verified && not r.data_loss_override
      then fail_with
          "teardown: factory-reset requires a recent verified backup or an explicit data-loss override"
      else if invalid_workspace r
      then fail_with (
          "teardown: refusing to wipe invalid workspace root "
          <> sys.quote (cleaned r.workspace_root_dir))
      else wipe_everything l r
