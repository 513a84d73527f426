-- ===== src/K3s/Config.antt =====
-- internal/k3s/config.go: the K3s configuration of a host. netip.ParseAddr is the parameter
-- `parse_addr`; `quote` is fmt's `%q`.
pub mod EmbeddedEtcd
pub mod Valid
use appliance_ctl.Common.{
  String, ◌<>◌, ◌==◌, Bool, true, false, not, ◌&&◌, ◌||◌, Option, none, some, List, [], ◌∷◌, Result,
  ok, err, ◌>>=◌, ◌>>◌, fail_if, if◌then◌else◌,
}
use appliance_ctl.Common.Text.{is_blank, trim_space}
use appliance_ctl.Topology.Inventory.{
  Inventory, Addr, embedded_etcd_v1, address_of, api_sans, bootstrap_api_endpoint,
}
use appliance_ctl.Topology.Inventory

abbrev pub default_cluster_cidr : String
default_cluster_cidr = "10.44.0.0/16"

abbrev pub default_service_cidr : String
default_service_cidr = "10.43.0.0/16"

abbrev pub node_mode_server : String
node_mode_server = "server"

abbrev pub node_mode_agent : String
node_mode_agent = "agent"

pub record Config : Type 0 where
  pub mode : String
  pub node_name : String
  pub data_dir : String
  pub tls_sans : List String
  pub deployment_topology : String
  pub node_ip : String
  pub server_url : String
  pub token_file : String
  pub cluster_init : Bool
  pub cluster_cidr : String
  pub service_cidr : String

pub data Error : Type 0 where
  node_name_required data_dir_required bad_topology agent_in_topology node_ip_required : Error
  init_or_server_url sans_required init_with_server_url token_required : Error
  init_on_member server_url_required agent_token_required bad_mode not_in_inventory : Error
  inventory_error : Inventory.Error → Error

-- `Config.EffectiveMode`
unfoldable pub effective_mode : Config → String
effective_mode c = if c.mode == "" then node_mode_server else c.mode

abbrev pub is_nil : List String → Bool
is_nil [] = true
is_nil (x ∷ xs) = false

-- `a == b` on booleans.
abbrev pub same : Bool → Bool → Bool
same true b = b
same false b = not b

-- The `switch` of `Validate`.
unfoldable pub check_mode : Config → Result Error (Unit {0})
check_mode c =
    if effective_mode c == node_mode_server
    then (do
      fail_if (c.cluster_init && not (is_blank c.server_url)) init_with_server_url
      fail_if (not (is_blank c.server_url) && is_blank c.token_file) token_required)
    else if effective_mode c == node_mode_agent
    then (do
      fail_if c.cluster_init init_on_member
      fail_if (is_blank c.server_url) server_url_required
      fail_if (is_blank c.token_file) agent_token_required)
    else err bad_mode

module _ (parse_addr : String → Option Addr) where
  -- `err == nil && address.Is4()`
  unfoldable pub is_ipv4 : String → Bool
  is_ipv4 address = elim (parse_addr address) [ none ↦ false | some a ↦ a.is4 ]

  -- The checks of `Validate` for a deployment topology.
  unfoldable pub check_topology : Config → Result Error (Unit {0})
  check_topology c = do
    fail_if (not (c.deployment_topology == embedded_etcd_v1)) bad_topology
    fail_if (not (effective_mode c == node_mode_server)) agent_in_topology
    fail_if (not (is_ipv4 c.node_ip)) node_ip_required
    fail_if (same c.cluster_init (not (is_blank c.server_url))) init_or_server_url
    fail_if (is_nil c.tls_sans) sans_required

  -- `Config.Validate`
  unfoldable pub validate : Config → Result Error (Unit {0})
  unfolding check_topology check_mode
  validate c = do
    fail_if (is_blank c.node_name) node_name_required
    fail_if (is_blank c.data_dir) data_dir_required
    if c.deployment_topology == "" then ok tt else check_topology c
    check_mode c

  -- The literal in `EmbeddedEtcdConfig`, with the join fields of a peer.
  unfoldable pub derive : Inventory → String → String → String → String → Config
  derive inv node_name data_dir token_file node_ip =
      let bootstrap = node_name == inv.bootstrap_node in
      record {
        mode = node_mode_server;
        node_name = node_name;
        data_dir = data_dir;
        tls_sans = api_sans parse_addr inv;
        deployment_topology = embedded_etcd_v1;
        node_ip = node_ip;
        server_url = if bootstrap then "" else bootstrap_api_endpoint parse_addr inv;
        token_file = if bootstrap then "" else token_file;
        cluster_init = bootstrap;
        cluster_cidr = default_cluster_cidr;
        service_cidr = default_service_cidr;
      }

  from_inventory : Result Inventory.Error (Unit {0}) → Result Error (Unit {0})
  from_inventory (ok a) = ok a
  from_inventory (err e) = err (inventory_error e)

  -- `EmbeddedEtcdConfig`
  unfoldable pub embedded_etcd_config : Inventory → String → String → String → Result Error Config
  unfolding from_inventory
  embedded_etcd_config inv node_name data_dir token_file = do
    from_inventory (Inventory.validate parse_addr inv)
    let node_ip = address_of node_name inv.nodes
    fail_if (node_ip == "") not_in_inventory
    let config = derive inv node_name data_dir token_file node_ip
    validate config
    ok config

module _ (quote : String → String) where
  abbrev line : String → String → String
  line key value = key <> ": " <> quote value <> "\n"

  abbrev when : Bool → String → String
  when test text = if test then text else ""

  render_sans : List String → String
  render_sans [] = ""
  render_sans (san ∷ rest) = "  - " <> quote san <> "\n" <> render_sans rest

  -- `Config.Render`, the text of config.yaml.
  unfoldable pub render : Config → String
  unfolding render_sans
  render c =
      let server = effective_mode c == node_mode_server in
      let embedded = c.deployment_topology == embedded_etcd_v1 in
      let joins = not (is_blank c.server_url) in
      "# Generated by appliance install; do not edit by hand.\n"
      <> when server (
          when embedded (line "node-ip" c.node_ip <> line "advertise-address" c.node_ip)
          <> when (not (is_blank c.cluster_cidr)) (line "cluster-cidr" (trim_space c.cluster_cidr))
          <> when (not (is_blank c.service_cidr)) (line "service-cidr" (trim_space c.service_cidr)))
      <> line "node-name" c.node_name
      <> line "data-dir" c.data_dir
      <> when server "write-kubeconfig-mode: \"0640\"\n"
      <> when (server && (not joins || embedded))
          "node-label:\n  - \"svccontroller.k3s.cattle.io/enablelb=true\"\n"
      <> when c.cluster_init "cluster-init: true\n"
      <> when (effective_mode c == node_mode_agent || joins)
          (line "server" c.server_url <> line "token-file" c.token_file)
      <> when (server && not (is_nil c.tls_sans)) ("tls-san:\n" <> render_sans c.tls_sans)
