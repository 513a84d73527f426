-- ===== src/State.antt =====
-- internal/state/state.go: the records of the installed-state receipt. A timestamp is a number.
pub mod Endpoints
use appliance_ctl.Common.{String, Bool, Option, List, ℕ, none, [], ◌∷◌}

pub record Components : Type 0 where
  pub k3s_version : String
  pub chart_version : String
  pub database_engine : String
  pub postgres_image_reference : String
  pub artifact_server_version : String
  pub dns_version : String
  pub inference_version : String
  pub video_version : String
  pub metadata_version : String
  pub metadata_digest : String

pub record K3sOwnership : Type 0 where
  pub owned : Bool
  pub owner_appliance_version : String

pub record ClusterNode : Type 0 where
  pub id : String
  pub node_uid : String
  pub name : String
  pub role : String
  pub roles : List String

pub record Cluster : Type 0 where
  pub id : String
  pub topology : String
  pub deployment_topology : String
  pub control_plane_node : String
  pub ingress_node : String
  pub control_endpoint : String
  pub control_endpoints : List String
  pub cluster_ca_hash : String
  pub enrollment_signer_fingerprint : String
  pub cluster_cidr : String
  pub service_cidr : String
  pub nodes : List ClusterNode

abbrev pub topology_single_server : String
topology_single_server = "single-server"

abbrev pub node_role_control_plane : String
node_role_control_plane = "control-plane"

-- `NewSingleServerCluster`
unfoldable pub new_single_server_cluster : String → String → String → String → Cluster
new_single_server_cluster id node_name cluster_cidr service_cidr = record {
  id = id;
  topology = topology_single_server;
  deployment_topology = "";
  control_plane_node = node_name;
  ingress_node = node_name;
  control_endpoint = "";
  control_endpoints = [];
  cluster_ca_hash = "";
  enrollment_signer_fingerprint = "";
  cluster_cidr = cluster_cidr;
  service_cidr = service_cidr;
  nodes =
      record {
        id = node_name;
        node_uid = "";
        name = node_name;
        role = node_role_control_plane;
        roles = node_role_control_plane ∷ [];
      }
      ∷ [];
}

pub record Operation : Type 0 where
  pub type : String
  pub status : String
  pub transaction_id : String
  pub started_at : ℕ
  pub completed_at : Option ℕ
  pub source_version : String
  pub target_version : String

-- `runtimeconfig.Selection`
pub record Selection : Type 0 where
  pub package_name : String
  pub inference_engine : String
  pub architecture : String

pub record InstalledState : Type 0 where
  pub runtimes : List (String × Selection)
  pub schema_version : ℕ
  pub appliance_instance_id : String
  pub installed_version : String
  pub installed_release_id : String
  pub appliance_profile : String
  pub appliance_name : String
  pub dns_zone : String
  pub cluster : Option Cluster
  pub components : Components
  pub k3s_ownership : K3sOwnership
  pub last_operation : Operation
  pub history : List Operation
  pub created_at : ℕ
  pub updated_at : ℕ
