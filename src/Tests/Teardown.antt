-- ===== src/Tests/Teardown.antt =====
-- Teardowns on concrete inputs.
use appliance_ctl.Common.{◌<>◌, ◌==◌, true, false, none, [], ◌∷◌, ok, ◌≡◌, refl, if◌then◌else◌}
use appliance_ctl.Common.Text.{is_blank}
use appliance_ctl.Teardown.{
  stop, remove, remove_all, cleanup_node_network, remove_kubectl_symlink, daemon_reload,
  restore_host_dns, System, Layout,
}
use appliance_ctl.Teardown.Kept.{new_run}
use appliance_ctl.Teardown.Reset.{Reset, factory_reset}

abbrev sys : System
sys = record {
  detect = λ past unit. ok (record {
    detected = true;
    active = true;
    healthy = true;
    running_version = "";
    foreign_namespaces = [];
  });
  fails = λ past call. none;
  dir = λ path. if path == "/etc/k3s/config.yaml" then "/etc/k3s" else ".";
  base = λ path. path;
  clean = λ path. path;
  join_path = λ dir name. dir <> "/" <> name;
  is_abs = λ path. path == "/data/zon/db";
  quote = λ s. s;
  has_dns_hook = true;
}

abbrev layout : Layout
layout = record {
  unit_name = "k3s";
  binary_path = "/usr/bin/k3s";
  config_path = "/etc/k3s/config.yaml";
  registries_path = "";
  unit_path = "/unit";
  kubectl_symlink_path = "/usr/bin/kubectl";
  cni_network_dir = "/cni";
  cni_interface_names = [];
}

abbrev reset : Reset
reset = record {
  state_dir = "/state";
  data_dir = "/var/k3s";
  control_plane_database_dir = "/data/zon/db";
  metadata_bundles_dir = "";
  inference_models_dir = ".";
  workspace_root_dir = "/work";
  zonctl_real_path = "zonctl-real";
  zonctl_launcher_path = "zonctl";
  recent_backup_verified = true;
  data_loss_override = false;
  wipe_workspaces = false;
}

-- A whole factory reset, the last call first.
reset_calls :
    (factory_reset sys layout reset new_run).world.calls
    ≡ restore_host_dns
      ∷ remove "zonctl-real"
      ∷ remove "zonctl"
      ∷ remove_all "/state"
      ∷ remove_all "/data/zon/metadata-bundles"
      ∷ remove_all "/data/zon/db"
      ∷ remove_all "/var/k3s"
      ∷ daemon_reload
      ∷ remove "/etc/k3s/zon-server-token"
      ∷ remove "/etc/k3s/config.yaml"
      ∷ remove "/usr/bin/k3s"
      ∷ remove "/unit"
      ∷ remove_kubectl_symlink "/usr/bin/k3s" "/usr/bin/kubectl"
      ∷ cleanup_node_network "/cni" []
      ∷ stop "k3s"
      ∷ []
unfolding factory_reset is_blank
reset_calls = refl

-- A workspace root that is no absolute path stops the reset in front of its first call.
refused_calls :
    (factory_reset sys layout (record reset { wipe_workspaces = true }) new_run).world.calls ≡ []
unfolding factory_reset is_blank
refused_calls = refl
