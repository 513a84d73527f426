-- ===== src/Tests/Upgrade.antt =====
-- The upgrade on concrete inputs.
use appliance_ctl.Common.{
  String, ◌<>◌, ◌==◌, true, false, if◌then◌else◌, Option, none, some, List, [], ◌∷◌, map, ok, err,
  is_ok, ℕ, suc, ◌≡◌, refl, ◌↔◌, Option-cases, inl, inr, contains, Distinct,
}
use appliance_ctl.Common.Text.{trim_space, is_empty, is_blank}
use appliance_ctl.Backup.{exists}
use appliance_ctl.Lifecycle.Atomic.{Disk}
use appliance_ctl.ProductConfig.Profiles.{CatalogProfile, profile_catalog_from_document}
use appliance_ctl.ProductConfig.Profiles.Document.{
  HasNewNames, entries, profile_catalog_from_document_iff,
}
use appliance_ctl.State.{ClusterNode, InstalledState, new_single_server_cluster}
use appliance_ctl.Tests.Backup as Backups
use appliance_ctl.Tests.Host as Hosts
use appliance_ctl.Upgrade.Admission.{with_appliance_fqdn}
use appliance_ctl.Upgrade.Admission.Names.{with_appliance_fqdn_iff}
use appliance_ctl.Upgrade.Host.{System, World, Call, ask}
use appliance_ctl.Upgrade.Options.{Options, Resolved}
use appliance_ctl.Upgrade.Orchestration.{upgrade}
use appliance_ctl.Upgrade.Protocol.Run.{new_run, Refines, upgrade-Refines}
use appliance_ctl.Upgrade.Receipt.{recorded_cluster, set_node_uid}
use appliance_ctl.Upgrade.Steps.{Plan, guard}
use appliance_ctl.Upgrade.Transaction.{finish, record_state, save_step}
use appliance_ctl.Upgrade.Transaction.Finish.{Finishes, finish-Finishes}
use appliance_ctl.Upgrade.Undo.{wrote, write, read, check_stat, snapshot_file, revert_file}
use appliance_ctl.Upgrade.Undo.Snapshots.{ReadsDisk, snapshot_file-revert_file}

abbrev pub options : Options
options = record {
  target_appliance_version = "1.5.0";
  installed_state_path = "/var/lib/appliance/state.json";
  k3s_config_path = "/etc/rancher/k3s/config.yaml";
  k3s_unit_path = "/etc/systemd/system/k3s.service";
  k3s_binary_dest_path = "/usr/local/bin/k3s";
  k3s_unit_name = "k3s";
  k3s_data_dir = "/var/k3s";
  host_agent_unit_name = "host-agentd";
  host_agent_binary_dest_path = "/usr/local/bin/host-agentd";
  host_agent_socket_path = "/run/host-agentd.sock";
  appliance_profile = "";
  workspace_root_dir = "/data/zon/workspaces";
  metadata_bundles_dir = "";
  node_name = "box-1";
  appliance_name = "box";
  dns_zone = "";
  tls_sans = "192.0.2.10" ∷ "192.0.2.10" ∷ [];
  chart_release_name = "appliance";
  chart_namespace = "ace-system";
  k3s_registries_path = "";
  image_pull_registry = "";
  backup_root = "/b";
  transaction_id = "t-1";
  preserve_failed_state = false;
}

abbrev pub target : Resolved
target = record {
  runtimes = [];
  bundle_version = "1.5.0";
  release_id = "r-15";
  host_baseline = record { os = "ubuntu"; os_version = "24.04"; arch = "arm64" };
  compatibility = record {
    deployment_topology = "";
    k3s_version = "v1.31.0";
    chart_version = "1.5.0";
    artifact_server_version = "";
    dns_version = "";
    inference_version = "";
    supported_upgrade_sources = "1.4.0" ∷ [];
  };
  effective_profile = "core";
  profile_catalog = ("core", "base" ∷ []) ∷ [];
  lan_discovery_enabled = false;
  host_enabled = true;
  files_enabled = false;
  artifact_enabled = false;
  dns_enabled = false;
  inference_enabled = false;
  build_enabled = false;
  workflows_enabled = false;
  k3s_binary_path = "/bundle/k3s";
  chart_path = "/bundle/chart";
  registry_chart_path = "";
  dns_chart_path = "";
  inference_chart_path = "";
  message_broker_chart_path = "";
  workflows_chart_path = "";
  workflows_crd_paths = [];
  configuration_path = "/bundle/values.yaml";
  host_packages_root_dir = "/bundle/packages";
  metadata_bundle_archive_path = "/bundle/metadata.tar.gz";
  postgres_image_reference = "";
  open_web_ui_image_reference = "";
  open_web_ui_gateway_image_reference = "";
  k3s_images = [];
  oci_images = [];
}

-- A host on which every call succeeds.
unfoldable pub host : System
host = record {
  answer = λ past call. record {
    problem = none;
    checks = [];
    names = [];
    text = "";
    digest = "";
    flag = false;
  };
  left = λ past call disk. disk;
  recovery = λ past. record Backups.sys { stat = λ d path. exists };
  load_state = λ path. ok (some Hosts.receipt);
  resolve = λ profile. ([], ok target);
  detect_host = λ dir. ok Hosts.host;
  preferred_ipv4 = λ candidates. "192.0.2.10";
  literal_ipv4s = λ candidates. candidates;
  has_nvidia = false;
  quote = λ s. s;
  identity_error = λ e. "invalid";
  hostname = none;
  registry_problem = none;
  dir = λ path. "/var/lib/appliance";
  join_path = λ dir name. dir <> "/" <> name;
  decimal = λ n. "0";
  octal = λ n. "0755";
  now = 200;
  backup_id = "id";
}

abbrev disk : Disk
disk path = if path == "/var/k3s/db" then some "payload" else some "file"

upgrade-Refines_example :
    Refines host false (host.quote "box-1") (upgrade host options (new_run disk))
upgrade-Refines_example = upgrade-Refines host options disk

abbrev sans : List String
sans = "192.0.2.10" ∷ " box.appliance.internal " ∷ "" ∷ "192.0.2.10" ∷ []

with_appliance_fqdn_iff_example :
    let out = with_appliance_fqdn "box.appliance.internal" sans in
    Distinct out
    × (((contains "192.0.2.10" out ≡ true) ↔ (
          (is_empty "192.0.2.10" ≡ false)
          × (contains "192.0.2.10" (map trim_space (trim_space "box.appliance.internal" ∷ sans))
              ≡ true)))
        × ((rest : List String) × (out ≡ trim_space "box.appliance.internal" ∷ rest)))
unfolding is_blank trim_space
with_appliance_fqdn_iff_example =
    with_appliance_fqdn_iff "box.appliance.internal" sans "192.0.2.10" refl

sans_kept :
    with_appliance_fqdn "box.appliance.internal" sans ≡ "box.appliance.internal" ∷ "192.0.2.10" ∷ []
unfolding with_appliance_fqdn
sans_kept = refl

abbrev profiles : List CatalogProfile
profiles =
    record { name = " core "; capabilities = "base" ∷ [] }
    ∷ record { name = "edge"; capabilities = "base" ∷ "dns" ∷ [] }
    ∷ []

profile_catalog_from_document_iff_example :
    (profile_catalog_from_document profiles ≡ ok (entries profiles))
    ↔ (HasNewNames [] profiles × (entries profiles ≡ entries profiles))
profile_catalog_from_document_iff_example =
    profile_catalog_from_document_iff profiles (entries profiles)

abbrev plan : Plan
plan = record {
  installed = Hosts.receipt;
  target_version = "1.5.0";
  had_artifact = false;
  had_workflows = false;
  had_dns = false;
  had_inference = false;
  identity = record { name = "box"; zone = "box.lan"; fqdn = "box.box.lan" };
  facts = Hosts.host;
  tls_sans = [];
  node_ipv4 = "";
  product_values = "";
  registry_values = "";
  dns_values = "";
  inference_values = "";
  workflows_values = "";
  bundles_dir = "";
  metadata_version = "";
  metadata_digest = "";
}

-- Another node than that of the receipt.
abbrev named : InstalledState → InstalledState
named s = record s {
  cluster = some (new_single_server_cluster "c1" "other" "10.44.0.0/16" "10.43.0.0/16");
}

abbrev count_calls : List Call → ℕ
count_calls [] = 0
count_calls (c ∷ past) = suc (count_calls past)

finish-Finishes_example :
    (nodes : Option (List ClusterNode)) × Finishes host options target plan "/b/id" [] "uid"
      (new_run disk)
      nodes
      (finish host options target plan "/b/id" [] "uid" (new_run disk))
finish-Finishes_example = finish-Finishes host options target plan "/b/id" [] "uid" (new_run disk)

-- The state is saved by the one call that is made.
saved_state :
    let o = finish host options target plan "/b/id" [] "uid" (new_run disk) in
    (is_ok o.result ≡ true) × (count_calls o.world.calls ≡ 1)
unfolding finish set_node_uid recorded_cluster record_state new_single_server_cluster host save_step
    ask guard
saved_state = (refl, refl)

-- No rollback, although the failed state is not to be preserved.
unknown_node :
    let o =
      finish host options target
        (record plan { installed = named Hosts.receipt })
        "/b/id"
        []
        "uid"
        (new_run disk) in
    (o.world.calls ≡ [])
    × (o.result ≡ err "upgrade: cluster inventory has no control-plane node box-1")
unfolding finish set_node_uid recorded_cluster record_state new_single_server_cluster host
unknown_node = (refl, refl)

abbrev config : String
config = "/etc/rancher/k3s/config.yaml"

-- The new configuration is there, and so is the snapshot.
abbrev replaced : World
replaced = record (new_run disk) {
  disk = λ path. if path == "/etc/rancher/k3s/config.yaml" then some "new" else some "file";
}

host-ReadsDisk : ReadsDisk host
unfolding host
host-ReadsDisk past d path content = elim (Option-cases (d path)) [
  | inl h ↦ rw h ((λ e. cc), (λ e. cc))
  | inr (c, h) ↦ rw h ((λ e. cc), (λ e. cc))
]

snapshot_file-revert_file_example :
    (revert_file host config replaced).world.disk config ≡ some "file"
unfolding snapshot_file revert_file read check_stat write wrote host
snapshot_file-revert_file_example =
    snapshot_file-revert_file host config (new_run disk) replaced host-ReadsDisk refl refl refl
