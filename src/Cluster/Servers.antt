-- ===== src/Cluster/Servers.antt =====
-- internal/cluster/three_server.go: the embedded-etcd servers, as Kubernetes reports them. A
-- result `ok tt` is `InventoryHealth{Healthy: true}`, and an error stands for its message.
-- netip.ParseAddr is the parameter `parse_addr`; `recordedUIDs` is a function that gives "" for a
-- missing key.
pub mod Complete
pub mod Reachable
use appliance_ctl.Common.{
  String, ◌==◌, ℕ, eqb, length, Bool, true, false, not, ◌&&◌, ◌||◌, Option, none, some, List, [],
  ◌∷◌, Result, ok, err, ◌>>=◌, ◌>>◌, fail_if, from_option, contains, if◌then◌else◌,
}
use appliance_ctl.Common.Text.{trim_space, is_blank}
use appliance_ctl.Topology.Inventory
use appliance_ctl.Topology.Inventory.{Inventory, Node, Addr, api_endpoints}
use appliance_ctl.Cluster.Nodes.{
  ObservedNode, Condition, Address, Kubectl, Reply, failed, undecodable, items,
}

pub data Problem : Type 0 where
  invalid_inventory : Inventory.Error → Problem
  not_configured query_failed not_decoded wrong_count : Problem
  unavailable not_ok unplanned duplicate uid_differs no_control_plane no_etcd cordoned :
      String → Problem
  tainted wrong_version not_ready : String → Problem

pub from_inventory : Result Inventory.Error (Unit {0}) → Result Problem (Unit {0})
from_inventory (ok a) = ok a
from_inventory (err e) = err (invalid_inventory e)

-- The loop over the endpoints.
unfoldable pub check_endpoints : Kubectl → List String → Result Problem (Unit {0})
check_endpoints kubectl [] = ok tt
check_endpoints kubectl (e ∷ rest) = do
  raw ← from_option (unavailable e) (kubectl.get_readyz e)
  fail_if (not (trim_space raw == "ok")) (not_ok e)
  check_endpoints kubectl rest

-- `run == nil`, and the texts that must not be blank.
unfoldable pub configured : Option Kubectl → Bool → Result Problem Kubectl
configured none blank = err not_configured
configured (some run) blank = do fail_if blank not_configured; ok run

unfoldable pub decode : Reply → Result Problem (List ObservedNode)
decode failed = err query_failed
decode undecodable = err not_decoded
decode (items nodes) = ok nodes

-- `expected[name]`, from the names of the inventory, which differ, to their addresses.
unfoldable pub planned : String → List Node → Option String
planned name [] = none
planned name (node ∷ rest) =
    let later = planned name rest in if name == node.name then some node.address else later

abbrev pub observed_name : ObservedNode → String
observed_name o = trim_space o.name

-- The loop over the taints.
abbrev pub is_blocked : List String → Bool
is_blocked [] = false
is_blocked (effect ∷ rest) = effect == "NoSchedule" || effect == "NoExecute" || is_blocked rest

-- The loop over the conditions.
abbrev pub is_ready : List Condition → Bool
is_ready [] = false
is_ready (c ∷ rest) = (c.type == "Ready" && c.status == "True") || is_ready rest

-- The loop over the addresses.
abbrev pub has_internal_ip : String → List Address → Bool
has_internal_ip ip [] = false
has_internal_ip ip (a ∷ rest) =
    (a.type == "InternalIP" && a.address == ip) || has_internal_ip ip rest

abbrev pub control_plane_label : String
control_plane_label = "node-role.kubernetes.io/control-plane"

abbrev pub etcd_label : String
etcd_label = "node-role.kubernetes.io/etcd"

-- The checks of one server once its planned address is known and it is no duplicate.
unfoldable pub check_server :
    (String → String) → String → ObservedNode → String → Result Problem (Unit {0})
check_server recorded_uids k3s_version o server_ip = do
  let name = observed_name o
  fail_if (o.uid == "" || (not (recorded_uids name == "") && not (recorded_uids name == o.uid)))
      (uid_differs name)
  fail_if (not (contains control_plane_label o.labels)) (no_control_plane name)
  fail_if (not (contains etcd_label o.labels)) (no_etcd name)
  fail_if o.unschedulable (cordoned name)
  fail_if (is_blocked o.taints) (tainted name)
  fail_if (not (o.kubelet_version == k3s_version)) (wrong_version name)
  fail_if (not (is_ready o.conditions) || not (has_internal_ip server_ip o.addresses))
      (not_ready name)

-- The loop over the observed nodes, with the names seen.
unfoldable pub check_servers :
    (String → String)
    → String
    → List Node
    → List ObservedNode
    → List String
    → Result Problem (Unit {0})
check_servers recorded_uids k3s_version nodes [] seen = ok tt
check_servers recorded_uids k3s_version nodes (o ∷ rest) seen = do
  server_ip ← from_option (unplanned (observed_name o)) (planned (observed_name o) nodes)
  fail_if (contains (observed_name o) seen) (duplicate (observed_name o))
  check_server recorded_uids k3s_version o server_ip
  check_servers recorded_uids k3s_version nodes rest (observed_name o ∷ seen)

module _ (parse_addr : String → Option Addr) where
  -- `ValidateEmbeddedEtcdAPIEndpoints`
  unfoldable pub validate_api_endpoints :
      Option Kubectl → String → Inventory → Result Problem (Unit {0})
  unfolding from_inventory
  validate_api_endpoints run kubeconfig inv = do
    from_inventory (Inventory.validate parse_addr inv)
    kubectl ← configured run (is_blank kubeconfig)
    check_endpoints kubectl (api_endpoints parse_addr inv)

  -- `ValidateEmbeddedEtcdNodeReadiness`
  unfoldable pub validate_node_readiness :
      Option Kubectl → String → Inventory → String → (String → String) → Result Problem (Unit {0})
  unfolding from_inventory
  validate_node_readiness run kubeconfig inv k3s_version recorded_uids = do
    from_inventory (Inventory.validate parse_addr inv)
    kubectl ← configured run (is_blank kubeconfig || is_blank k3s_version)
    observed ← decode kubectl.get_nodes
    fail_if (not (eqb (length observed) (length inv.nodes))) wrong_count
    check_servers recorded_uids k3s_version inv.nodes observed []
