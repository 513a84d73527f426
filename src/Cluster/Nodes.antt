-- ===== src/Cluster/Nodes.antt =====
-- internal/cluster/nodes.go: the enrolled nodes against the nodes that Kubernetes reports.
-- `Kubectl` holds the answers of the commands that the code runs; a result `ok tt` is
-- `InventoryHealth{Healthy: true}`, and an error stands for its message.
pub mod Agreement
pub mod Commands
pub mod Upgrade
use appliance_ctl.Common.{
  String, ◌==◌, Bool, true, false, not, ◌&&◌, ◌||◌, Option, none, some, List, [], ◌∷◌, Result, ok,
  err, ◌>>=◌, ◌>>◌, fail_if, from_option, contains, if◌then◌else◌,
}
use appliance_ctl.Common.Text.{trim_space, is_blank}
use appliance_ctl.State.{ClusterNode, node_role_control_plane}

pub record Condition : Type 0 where
  pub type : String
  pub status : String

pub record Address : Type 0 where
  pub type : String
  pub address : String

-- The fields of a Node object that the checks read; of the labels only the keys, of the taints
-- only the effects.
pub record ObservedNode : Type 0 where
  pub name : String
  pub uid : String
  pub labels : List String
  pub unschedulable : Bool
  pub taints : List String
  pub addresses : List Address
  pub conditions : List Condition
  pub kubelet_version : String

-- `kubectl get nodes -o json`: the command failed, its output did not decode, or the items.
pub data Reply : Type 0 where
  failed undecodable : Reply
  items : List ObservedNode → Reply

pub record Kubectl : Type 0 where
  pub get_nodes : Reply
  pub get_kubelet_version : String → Option String
  pub get_readyz : String → Option String

pub data Problem : Type 0 where
  not_configured query_failed not_decoded empty_inventory nameless_node : Problem
  not_enrolled missing_uid uid_mismatch not_ready absent : String → Problem
  target_required : Problem
  version_query_failed wrong_version : String → Problem

-- The parse of the reply.
unfoldable pub decode : Reply → Result Problem (List ObservedNode)
decode failed = err query_failed
decode undecodable = err not_decoded
decode (items nodes) = ok nodes

-- `recorded`, the first enrolled node of the name.
unfoldable pub recorded : String → List ClusterNode → Option ClusterNode
recorded name [] = none
recorded name (node ∷ rest) =
    let later = recorded name rest in if node.name == name then some node else later

-- The loop over the conditions, which ends at the first of type Ready.
unfoldable pub is_ready : List Condition → Bool
is_ready [] = false
is_ready (c ∷ rest) =
    let later = is_ready rest in if c.type == "Ready" then c.status == "True" else later

abbrev pub observed_name : ObservedNode → String
observed_name o = trim_space o.name

-- The body of the loop over the observed nodes; it returns the name that it adds to `seen`.
unfoldable pub check_observed : List ClusterNode → ObservedNode → Result Problem String
check_observed expected o = do
  fail_if (observed_name o == "" || trim_space o.uid == "") nameless_node
  node ← from_option (not_enrolled (observed_name o)) (recorded (observed_name o) expected)
  fail_if (is_blank node.node_uid) (missing_uid (observed_name o))
  fail_if (not (node.node_uid == trim_space o.uid)) (uid_mismatch (observed_name o))
  fail_if (not (is_ready o.conditions)) (not_ready (observed_name o))
  ok (observed_name o)

-- The loop over the observed nodes, with the names seen.
unfoldable pub check_all :
    List ClusterNode → List ObservedNode → List String → Result Problem (List String)
check_all expected [] seen = ok seen
check_all expected (o ∷ rest) seen = do
  name ← check_observed expected o
  check_all expected rest (name ∷ seen)

-- The loop over the enrolled nodes.
unfoldable pub check_present : List ClusterNode → List String → Result Problem (Unit {0})
check_present [] seen = ok tt
check_present (node ∷ rest) seen = do
  fail_if (not (contains node.name seen)) (absent node.name)
  check_present rest seen

abbrev pub is_nil {ℓ} : {A : Type ℓ} → List A → Bool
is_nil [] = true
is_nil (x ∷ xs) = false

-- `run == nil || kubeconfig == ""`
unfoldable pub configured : Option Kubectl → String → Result Problem Kubectl
configured none kubeconfig = err not_configured
configured (some run) kubeconfig = do fail_if (is_blank kubeconfig) not_configured; ok run

-- `ValidateInventory`
unfoldable pub validate_inventory :
    Option Kubectl → String → List ClusterNode → Result Problem (Unit {0})
validate_inventory run kubeconfig expected = do
  kubectl ← configured run kubeconfig
  nodes ← decode kubectl.get_nodes
  fail_if (is_nil expected) empty_inventory
  seen ← check_all expected nodes []
  check_present expected seen

-- The body of the loop of `ValidateWorkerUpgradeReadiness`; a node that is no worker is skipped.
unfoldable pub check_worker : Kubectl → String → ClusterNode → Result Problem (Unit {0})
check_worker kubectl target node =
    if node.role == node_role_control_plane || node.name == "" then ok tt else (do
      observed ←
          from_option (version_query_failed node.name) (kubectl.get_kubelet_version node.name)
      fail_if (not (trim_space observed == target)) (wrong_version node.name))

unfoldable pub check_workers : Kubectl → String → List ClusterNode → Result Problem (Unit {0})
check_workers kubectl target [] = ok tt
check_workers kubectl target (node ∷ rest) = do
  check_worker kubectl target node
  check_workers kubectl target rest

-- `ValidateWorkerUpgradeReadiness`
unfoldable pub validate_worker_upgrade_readiness :
    Option Kubectl → String → List ClusterNode → String → Result Problem (Unit {0})
validate_worker_upgrade_readiness run kubeconfig expected target = do
  fail_if (is_blank target) target_required
  validate_inventory run kubeconfig expected
  kubectl ← configured run kubeconfig
  check_workers kubectl (trim_space target) expected
