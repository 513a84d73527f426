-- ===== src/Upgrade/Transaction.antt =====
-- internal/upgrade/upgrade.go: Upgrade behind the verified backup, in one run, and the backup.
pub mod Finish
use appliance_ctl.Common.{String, ◌<>◌, Bool, Option, none, some, List, [], ◌∷◌, Result, ok, err}
use appliance_ctl.Common.Effects.{Outcome, Run, ◌>>=◌, ◌>>◌, return, fail_with, attempt}
use appliance_ctl.Backup as Recovery
use appliance_ctl.Backup.Create.{Request, create_server}
use appliance_ctl.Backup.Integrity.{verify}
use appliance_ctl.Evidence.{Check}
use appliance_ctl.State.{ClusterNode, Cluster, InstalledState}
use appliance_ctl.Upgrade.Charts.{undo_product, host_steps, chart_steps}
use appliance_ctl.Upgrade.Foundation.{preload_step, k3s_steps, packages_step, cluster_steps}
use appliance_ctl.Upgrade.Host.{
  Call, backing_up, verifying, saved, Undo, remove_zonctl, Answer, System, World, add_checks,
  or_fail, ask, front, entered, operate,
}
use appliance_ctl.Upgrade.Options.{Options, Resolved}
use appliance_ctl.Upgrade.Receipt.{recorded_cluster, set_node_uid, updated_state}
use appliance_ctl.Upgrade.Steps.{Plan, guard}
use appliance_ctl.Upgrade.Undo.{result_of}

abbrev pub no_control_plane : String → String
no_control_plane quoted = "upgrade: cluster inventory has no control-plane node " <> quoted

module _ (sys : System) (opts : Options) (r : Resolved) (p : Plan) (backup_dir : String) where
  unfoldable pub save_step : List String → InstalledState → Run World InstalledState
  save_step imported updated = do
    a ← ask sys (saved opts.installed_state_path updated)
    guard sys opts p backup_dir "upgrade: "
        (remove_zonctl ∷ undo_product sys opts r p backup_dir imported) (result_of a.problem)
    return updated

  -- Behind the loop over the nodes. An error here does not call failUpgrade.
  unfoldable pub record_state : List String → Option (List ClusterNode) → Run World InstalledState
  record_state imported none = fail_with (no_control_plane (sys.quote opts.node_name))
  record_state imported (some nodes) = save_step imported (
      updated_state opts r p sys.now
        (record (recorded_cluster p.installed opts.node_name) { nodes = nodes }))

  unfoldable pub finish : List String → String → Run World InstalledState
  finish imported uid =
      record_state imported
        (set_node_uid opts.node_name uid (recorded_cluster p.installed opts.node_name).nodes)

  -- From the import of the images to the last return.
  unfoldable pub change : Run World InstalledState
  change = do
    imported ← preload_step sys opts r p backup_dir
    k3s_steps sys opts r p backup_dir imported
    packages_step sys opts r p backup_dir
    uid ← cluster_steps sys opts r p backup_dir imported
    host_steps sys opts r p backup_dir
    chart_steps sys opts r p backup_dir imported
    finish imported uid

module _ (sys : System) (opts : Options) (p : Plan) where
  -- The arguments of backup.Create.
  abbrev pub request_of : Request
  request_of = record {
    unit_name = opts.k3s_unit_name;
    data_dir = opts.k3s_data_dir;
    backup_root = opts.backup_root;
    appliance_version = p.installed.installed_version;
    metadata_bundles_dir = p.bundles_dir;
    metadata_version = p.installed.components.metadata_version;
    metadata_digest = p.installed.components.metadata_digest;
    models_dir = "";
    now = sys.now;
    backup_id = sys.backup_id;
  }

  -- Behind the answer of backup.Create; an error may come with a manifest.
  unfoldable pub created : Recovery.Manifest × Option String → Run World String
  created (m, some e) w = fail_with ("upgrade: pre-upgrade backup failed: " <> e) w
  created (m, none) w = return ((sys.recovery w.calls).join opts.backup_root m.backup_id) w

  unfoldable pub answered : Result String (Recovery.Manifest × Option String) → Run World String
  answered (err e) = fail_with ("upgrade: pre-upgrade backup failed: " <> e)
  answered (ok made) = created made

  unfoldable pub create_backup : Run World String
  create_backup = do
    o ← attempt (operate sys backing_up (λ host. create_server host request_of))
    answered o

  -- Behind the answer of backup.Verify.
  unfoldable pub found : List Check × Option String → Run World (Unit {0})
  found (checks, none) = add_checks checks
  found (checks, some e) =
      add_checks checks
      >> fail_with ("upgrade: pre-upgrade backup failed integrity verification: " <> e)

  unfoldable pub verify_backup : String → Run World (Unit {0})
  verify_backup backup_dir w =
      found (verify (sys.recovery w.calls) backup_dir (front w))
        (entered sys (verifying backup_dir) w)

  -- The mandatory recovery set, and what follows it.
  unfoldable pub back_up_and_change : Resolved → Run World InstalledState
  back_up_and_change r = do
    backup_dir ← create_backup
    verify_backup backup_dir
    change sys opts r p backup_dir
