-- ===== src/Tests/K3s.antt =====
-- internal/k3s on concrete inputs.
use appliance_ctl.Common.{
  String, ◌<>◌, true, false, none, [], ◌∷◌, ok, err, ◌≡◌, ◌≢◌, refl, ◌⊎◌, inl, inr,
}
use appliance_ctl.Common.Text.{is_blank}
use appliance_ctl.Topology.Inventory.{address_of, addresses}
use appliance_ctl.K3s.Inspect.{all_nodes_ready, foreign_namespaces_from}
use appliance_ctl.K3s.Ownership.{
  ServiceSignal, adopt_existing, requires_force_adopt, decide_ownership,
}
use appliance_ctl.K3s.Ownership.Safety.{adopt_existing_iff}
use appliance_ctl.K3s.Config.{
  Config, effective_mode, validate, embedded_etcd_config, node_mode_agent, init_with_server_url,
}
use appliance_ctl.K3s.Config.Valid.{config_validate_iff}
use appliance_ctl.K3s.Config.EmbeddedEtcd.{embedded_etcd_config-ok}
use appliance_ctl.Tests.Data.{parse_addr, three_servers, three_servers-IsValid}

abbrev shared_cluster : ServiceSignal
shared_cluster = record {
  detected = true;
  active = true;
  healthy = true;
  running_version = "v1.30.2+k3s1";
  foreign_namespaces = "billing" ∷ [];
}

adopt_existing_iff_example :
    (decide_ownership "1.4.0" none shared_cluster false true).0 ≡ adopt_existing
adopt_existing_iff_example =
    (adopt_existing_iff "1.4.0" none shared_cluster false true).1 (refl, refl, refl, inr refl)

-- Without the override a cluster with foreign workloads is not adopted.
not_adopted : (decide_ownership "1.4.0" none shared_cluster false false).0 ≡ requires_force_adopt
unfolding decide_ownership
not_adopted = refl

abbrev bare_host : ServiceSignal
bare_host = record {
  detected = false;
  active = false;
  healthy = false;
  running_version = "";
  foreign_namespaces = [];
}

abbrev agent : Config
agent = record {
  mode = node_mode_agent;
  node_name = "delta";
  data_dir = "/var/lib/rancher";
  tls_sans = [];
  deployment_topology = "";
  node_ip = "";
  server_url = "https://10.0.0.2:6443";
  token_file = "/etc/token";
  cluster_init = false;
  cluster_cidr = "";
  service_cidr = "";
}

config_validate_iff_example : validate parse_addr agent ≡ ok tt
unfolding is_blank effective_mode
config_validate_iff_example =
    (config_validate_iff parse_addr agent).1 (refl, refl, inl refl, inr (refl, (refl, refl, refl)))

-- A server may not both start a cluster and join one.
starts_and_joins :
    validate parse_addr (record agent { mode = "server"; cluster_init = true })
    ≡ err init_with_server_url
unfolding validate is_blank effective_mode
starts_and_joins = refl

abbrev peer : String
peer = "charlie"

embedded_etcd_config-ok_example :
    (c : Config) × (embedded_etcd_config parse_addr three_servers peer "/var/lib/rancher"
        "/etc/token"
      ≡ ok c)
    × ((c.node_ip ≡ address_of peer three_servers.nodes)
        × (c.tls_sans ≡ addresses three_servers.nodes)
        × (((peer ≡ three_servers.bootstrap_node) × (c.cluster_init ≡ true) × (c.server_url ≡ ""))
            ⊎ ((peer ≢ three_servers.bootstrap_node)
                × (c.cluster_init ≡ false)
                × (c.server_url
                    ≡ "https://"
                      <> address_of three_servers.bootstrap_node three_servers.nodes
                      <> ":6443")
                × (c.token_file ≡ "/etc/token"))))
unfolding is_blank
embedded_etcd_config-ok_example =
    embedded_etcd_config-ok parse_addr three_servers peer "/var/lib/rancher" "/etc/token"
      three_servers-IsValid refl refl refl (inr refl)

foreign_namespaces :
    foreign_namespaces_from "kube-system\nshop\nzon\n dns\nblog\nshop\n" "zon"
    ≡ "blog" ∷ "shop" ∷ []
unfolding foreign_namespaces_from
foreign_namespaces = refl

ready_output : all_nodes_ready "a Ready server 1d\nb   Ready agent 1d\n" ≡ true
unfolding all_nodes_ready
ready_output = refl

cordoned_output : all_nodes_ready "a Ready,SchedulingDisabled server 1d" ≡ false
unfolding all_nodes_ready
cordoned_output = refl
