-- ===== src/Upgrade/Options.antt =====
-- internal/upgrade/upgrade.go: Options, and what the upgrade reads of `install.Resolved`, of the
-- compatibility and of the baseline of the bundle.
use appliance_ctl.Common.{String, Bool, List}
use appliance_ctl.ProductConfig.Profiles.{ProfileCatalog}
use appliance_ctl.State.{Selection}

-- `Options`; of `ImagePullRegistry` the name of the registry, the rest is passed on unread.
pub record Options : Type 0 where
  pub target_appliance_version : String
  pub installed_state_path : String
  pub k3s_config_path : String
  pub k3s_unit_path : String
  pub k3s_binary_dest_path : String
  pub k3s_unit_name : String
  pub k3s_data_dir : String
  pub host_agent_unit_name : String
  pub host_agent_binary_dest_path : String
  pub host_agent_socket_path : String
  pub appliance_profile : String
  pub workspace_root_dir : String
  pub metadata_bundles_dir : String
  pub node_name : String
  pub appliance_name : String
  pub dns_zone : String
  pub tls_sans : List String
  pub chart_release_name : String
  pub chart_namespace : String
  pub k3s_registries_path : String
  pub image_pull_registry : String
  pub backup_root : String
  pub transaction_id : String
  pub preserve_failed_state : Bool

-- `bundle.Compatibility`
pub record Compatibility : Type 0 where
  pub deployment_topology : String
  pub k3s_version : String
  pub chart_version : String
  pub artifact_server_version : String
  pub dns_version : String
  pub inference_version : String
  pub supported_upgrade_sources : List String

-- `bundle.HostBaseline`
pub record HostBaseline : Type 0 where
  pub os : String
  pub os_version : String
  pub arch : String

pub data Category : Type 0 where
  dependency other_category : Category

-- `images.Image`; the archive behind a name is not read here.
pub record Image : Type 0 where
  pub name : String
  pub category : Category

pub record Resolved : Type 0 where
  pub runtimes : List (String × Selection)
  pub bundle_version : String
  pub release_id : String
  pub host_baseline : HostBaseline
  pub compatibility : Compatibility
  pub effective_profile : String
  pub profile_catalog : ProfileCatalog
  pub lan_discovery_enabled : Bool
  pub host_enabled : Bool
  pub files_enabled : Bool
  pub artifact_enabled : Bool
  pub dns_enabled : Bool
  pub inference_enabled : Bool
  pub build_enabled : Bool
  pub workflows_enabled : Bool
  pub k3s_binary_path : String
  pub chart_path : String
  pub registry_chart_path : String
  pub dns_chart_path : String
  pub inference_chart_path : String
  pub message_broker_chart_path : String
  pub workflows_chart_path : String
  pub workflows_crd_paths : List String
  pub configuration_path : String
  pub host_packages_root_dir : String
  pub metadata_bundle_archive_path : String
  pub postgres_image_reference : String
  pub open_web_ui_image_reference : String
  pub open_web_ui_gateway_image_reference : String
  pub k3s_images : List Image
  pub oci_images : List Image
