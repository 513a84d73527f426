-- ===== src/Tests/Cluster.antt =====
-- internal/cluster on concrete inputs.
use appliance_ctl.Common.{
  String, ◌==◌, false, some, List, [], ◌∷◌, ok, err, ◌≡◌, refl, inl, inr, if◌then◌else◌,
}
use appliance_ctl.Common.Text.{is_blank, trim_space, is_node_name}
use appliance_ctl.State.{ClusterNode}
use appliance_ctl.Cluster.Nodes.{
  ObservedNode, Kubectl, Reply, items, Condition, Address, validate_inventory,
  validate_worker_upgrade_readiness, uid_mismatch,
}
use appliance_ctl.Cluster.Nodes.Agreement.{Agrees, validate_inventory_iff}
use appliance_ctl.Cluster.Nodes.Upgrade.{validate_worker_upgrade_readiness_iff}
use appliance_ctl.Cluster.Nodes.Commands.{Runner, read_uid, label_inference_node, node_uid}
use appliance_ctl.Cluster.Servers
use appliance_ctl.Cluster.Nodes
use appliance_ctl.Cluster.Servers.{validate_node_readiness, duplicate}
use appliance_ctl.Cluster.Servers.Complete.{AllHealthy, validate_node_readiness-AllHealthy}
use appliance_ctl.Topology.Inventory.{Inventory, Node, embedded_etcd_v1}
use appliance_ctl.Topology.Inventory
use appliance_ctl.Tests.Data.{parse_addr, three_servers}

abbrev kubeconfig : String
kubeconfig = "/etc/rancher/k3s/k3s.yaml"

-- A server as Kubernetes reports it.
abbrev server : String → String → String → ObservedNode
server name uid address = record {
  name = name;
  uid = uid;
  labels = "node-role.kubernetes.io/control-plane" ∷ "node-role.kubernetes.io/etcd" ∷ [];
  unschedulable = false;
  taints = "PreferNoSchedule" ∷ [];
  addresses =
      record { type = "Hostname"; address = name }
      ∷ record { type = "InternalIP"; address = address }
      ∷ [];
  conditions =
      record { type = "MemoryPressure"; status = "False" }
      ∷ record { type = "Ready"; status = "True" }
      ∷ [];
  kubelet_version = "v1.30.2+k3s1";
}

abbrev kubectl : Kubectl
kubectl = record {
  get_nodes = items (
      server "charlie" "u3" "10.0.0.3"
      ∷ server "alpha" "u1" "10.0.0.1"
      ∷ server "bravo" "u2" "10.0.0.2"
      ∷ []);
  get_kubelet_version = λ name. some " v1.30.2+k3s1\n";
  get_readyz = λ endpoint. some "ok";
}

abbrev enrolled : String → String → String → ClusterNode
enrolled name uid role = record {
  id = name;
  node_uid = uid;
  name = name;
  role = role;
  roles = role ∷ [];
}

abbrev cluster_record : List ClusterNode
cluster_record =
    enrolled "alpha" "u1" "control-plane"
    ∷ enrolled "bravo" "u2" "worker"
    ∷ enrolled "charlie" "u3" "worker"
    ∷ []

inventory_healthy : validate_inventory (some kubectl) kubeconfig cluster_record ≡ ok tt
unfolding validate_inventory is_blank trim_space Nodes.configured Nodes.decode Nodes.check_all
    Nodes.check_observed Nodes.recorded Nodes.is_ready Nodes.check_present
inventory_healthy = refl

validate_inventory_iff_example :
    (nodes : List ObservedNode) × (kubectl.get_nodes ≡ items nodes) × Agrees cluster_record nodes
unfolding is_blank
validate_inventory_iff_example =
    (validate_inventory_iff kubectl kubeconfig cluster_record refl).0 inventory_healthy

-- A node that came back under another UID is refused.
replaced_node :
    validate_inventory (some kubectl) kubeconfig (
      enrolled "alpha" "u1" "control-plane"
      ∷ enrolled "bravo" "u2" "worker"
      ∷ enrolled "charlie" "u9" "worker"
      ∷ [])
    ≡ err (uid_mismatch "charlie")
unfolding validate_inventory is_blank trim_space Nodes.configured Nodes.decode Nodes.check_all
    Nodes.check_observed Nodes.recorded Nodes.is_ready Nodes.check_present
replaced_node = refl

validate_worker_upgrade_readiness_iff_example :
    validate_worker_upgrade_readiness (some kubectl) kubeconfig cluster_record "v1.30.2+k3s1"
    ≡ ok tt
unfolding is_blank trim_space
validate_worker_upgrade_readiness_iff_example =
    (validate_worker_upgrade_readiness_iff kubectl kubeconfig cluster_record "v1.30.2+k3s1").1 (
      refl,
      inventory_healthy,
      (
        inl (inl refl),
        (inr (" v1.30.2+k3s1\n", refl, refl), (inr (" v1.30.2+k3s1\n", refl, refl), tt)),
      ),
    )

-- The UID that an earlier run recorded for alpha.
abbrev recorded_uids : String → String
recorded_uids name = if name == "alpha" then "u1" else ""

servers_ready :
    validate_node_readiness parse_addr
      (some kubectl)
      kubeconfig
      three_servers
      "v1.30.2+k3s1"
      recorded_uids
    ≡ ok tt
unfolding validate_node_readiness Inventory.validate is_blank trim_space is_node_name
    Servers.configured Servers.decode Servers.check_servers Servers.planned Servers.check_server
servers_ready = refl

validate_node_readiness-AllHealthy_example :
    (observed : List ObservedNode) × (kubectl.get_nodes ≡ items observed)
    × AllHealthy parse_addr three_servers "v1.30.2+k3s1" recorded_uids observed
validate_node_readiness-AllHealthy_example =
    validate_node_readiness-AllHealthy parse_addr kubectl kubeconfig three_servers "v1.30.2+k3s1"
      recorded_uids servers_ready

-- One server listed twice does not make up for one that is missing.
listed_twice :
    validate_node_readiness parse_addr
      (some (record kubectl {
        get_nodes = items (
            server "charlie" "u3" "10.0.0.3"
            ∷ server "alpha" "u1" "10.0.0.1"
            ∷ server "charlie" "u3" "10.0.0.3"
            ∷ []);
      }))
      kubeconfig
      three_servers
      "v1.30.2+k3s1"
      recorded_uids
    ≡ err (duplicate "charlie")
unfolding validate_node_readiness Inventory.validate is_blank trim_space is_node_name
    Servers.configured Servers.decode Servers.check_servers Servers.planned Servers.check_server
listed_twice = refl

abbrev uid_reply : String → Runner
uid_reply out command = ok out

read_of_uid :
    ((node_uid (λ s. s) (some (uid_reply "uid-1\n")) "/k" "box-1").result ≡ ok "uid-1")
    × ((node_uid (λ s. s) (some (uid_reply "uid 1")) "/k" "box-1").result
        ≡ err "cluster: node box-1 returned an invalid UID")
    × ((label_inference_node (λ s. s) (some (uid_reply "")) " " "box-1").calls ≡ [])
unfolding node_uid read_uid label_inference_node is_blank
read_of_uid = (refl, refl, refl)
