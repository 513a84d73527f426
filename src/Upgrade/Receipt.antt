-- ===== src/Upgrade/Receipt.antt =====
-- internal/upgrade/upgrade.go: the installed state that Upgrade saves.
use appliance_ctl.Common.{
  String, ◌==◌, ℕ, Bool, true, ◌&&◌, if◌then◌else◌, Option, none, some, List, [], ◌∷◌,
}
use appliance_ctl.Common.Text.{is_empty}
use appliance_ctl.State.{
  ClusterNode, Cluster, node_role_control_plane, new_single_server_cluster, InstalledState,
}
use appliance_ctl.Upgrade.Options.{Options, Resolved}
use appliance_ctl.Upgrade.Resolved.{
  artifact_server_component_version, dns_component_version, inference_component_version,
  database_engine,
}
use appliance_ctl.Upgrade.Steps.{Plan}

abbrev pub default_cluster_cidr : String
default_cluster_cidr = "10.44.0.0/16"

abbrev pub default_service_cidr : String
default_service_cidr = "10.43.0.0/16"

-- Receipts without a cluster identity describe a single server.
abbrev pub migrated : InstalledState → String → Cluster
migrated s node_name =
    new_single_server_cluster s.appliance_instance_id node_name default_cluster_cidr
      default_service_cidr

abbrev pub cluster_or_migrated : InstalledState → String → Option Cluster → Cluster
cluster_or_migrated s node_name none = migrated s node_name
cluster_or_migrated s node_name (some c) = if is_empty c.id then migrated s node_name else c

unfoldable pub recorded_cluster : InstalledState → String → Cluster
unfolding new_single_server_cluster
recorded_cluster s node_name = cluster_or_migrated s node_name s.cluster

abbrev pub is_control_plane : String → ClusterNode → Bool
is_control_plane name n = n.name == name && n.role == node_role_control_plane

abbrev pub behind : ClusterNode → Option (List ClusterNode) → Option (List ClusterNode)
behind n none = none
behind n (some rest) = some (n ∷ rest)

-- The loop that writes the UID of the node, up to the first control plane of that name.
unfoldable pub set_node_uid : String → String → List ClusterNode → Option (List ClusterNode)
set_node_uid name uid [] = none
set_node_uid name uid (n ∷ rest) =
    let later = set_node_uid name uid rest in
    if is_control_plane name n then some (record n { node_uid = uid } ∷ rest) else behind n later

-- `updated`
unfoldable pub updated_state : Options → Resolved → Plan → ℕ → Cluster → InstalledState
unfolding database_engine
updated_state opts r p now cluster = record {
  runtimes = r.runtimes;
  schema_version = 1;
  appliance_instance_id = p.installed.appliance_instance_id;
  installed_version = p.target_version;
  installed_release_id = r.release_id;
  appliance_profile = r.effective_profile;
  appliance_name = p.identity.name;
  dns_zone = p.identity.zone;
  cluster = some cluster;
  components = record {
    k3s_version = r.compatibility.k3s_version;
    chart_version = r.compatibility.chart_version;
    database_engine = database_engine r;
    postgres_image_reference = "";
    artifact_server_version =
        artifact_server_component_version r r.compatibility.artifact_server_version;
    dns_version = dns_component_version r r.compatibility.dns_version;
    inference_version = inference_component_version r r.compatibility.inference_version;
    video_version = "";
    metadata_version = p.metadata_version;
    metadata_digest = p.metadata_digest;
  };
  k3s_ownership = record { owned = true; owner_appliance_version = p.target_version };
  last_operation = record {
    type = "upgrade";
    status = "completed";
    transaction_id = opts.transaction_id;
    started_at = now;
    completed_at = some now;
    source_version = p.installed.installed_version;
    target_version = p.target_version;
  };
  history = [];
  created_at = p.installed.created_at;
  updated_at = now;
}
