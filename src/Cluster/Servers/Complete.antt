-- ===== src/Cluster/Servers/Complete.antt =====
-- A healthy verdict covers every server of the inventory.
use appliance_ctl.Common.{
  String, eq_iff, eqb, length, Bool, true, false, not, ◌||◌, Option, some, List, [], ◌∷◌, map,
  Result, ok, err, ◌>>=◌, ◌>>◌, fail_if, from_option, contains, Distinct, Subset, Subset-full, All,
  ◌≡◌, refl, sym, ap, ◌∙◌, ◌⊎◌, arith, >>=-eq-ok, fail_if->>, length-map, from_option-eq-ok,
  DistinctFrom, DistinctFrom-iff, All-of_Memᴰ, All-Memᴰ, Memᴰ_of_contains, contains_of_Memᴰ,
  eqb_iff, not-eq-false,
}
use mathlib.Core.List.{Memᴰ}
use mathlib.Core.Path.{subst}
use appliance_ctl.Common.Text.{is_blank}
use appliance_ctl.Topology.Inventory.{Inventory, Node, Addr}
use appliance_ctl.Topology.Inventory
use appliance_ctl.Topology.Inventory.Valid.{names_of, inventory_validate_iff}
use appliance_ctl.Cluster.Nodes.{ObservedNode, Kubectl, Reply, items, failed, undecodable}
use appliance_ctl.Cluster.Servers.{
  observed_name, planned, is_blocked, is_ready, has_internal_ip, control_plane_label, etcd_label,
  check_server, check_servers, configured, decode, validate_node_readiness, from_inventory,
  wrong_count, unplanned, duplicate,
}

module _ (recorded_uids : String → String) (k3s_version : String) where
  -- What the product wants of a server: an identity that no record contradicts, both labels, no
  -- cordon and no blocking taint, the signed K3s version, and readiness on the planned address.
  pub record IsHealthy (server_ip : String) (o : ObservedNode) : Type 0 where
    pub has_uid : (o.uid ≡ "") → ⊥
    pub same_uid :
        (recorded_uids (observed_name o) ≡ "") ⊎ (recorded_uids (observed_name o) ≡ o.uid)
    pub is_control_plane : contains control_plane_label o.labels ≡ true
    pub is_etcd : contains etcd_label o.labels ≡ true
    pub schedulable : o.unschedulable ≡ false
    pub not_blocked : is_blocked o.taints ≡ false
    pub on_version : o.kubelet_version ≡ k3s_version
    pub ready : is_ready o.conditions ≡ true
    pub on_address : has_internal_ip server_ip o.addresses ≡ true

  check_server-IsHealthy :
      (server_ip : String) (o : ObservedNode)
      → check_server recorded_uids k3s_version o server_ip ≡ ok tt
      → IsHealthy server_ip o
  unfolding check_server
  check_server-IsHealthy server_ip o h = ground (
    arith,
    eq_iff o.uid "",
    eq_iff (recorded_uids (observed_name o)) "",
    eq_iff (recorded_uids (observed_name o)) o.uid,
    eq_iff o.kubelet_version k3s_version,
  )

  -- The node is planned and healthy on its planned address.
  abbrev IsPlanned : List Node → ObservedNode → Type 0
  IsPlanned nodes o = (ip : String) × (planned (observed_name o) nodes ≡ some ip) × IsHealthy ip o

  check_servers-ok :
      (nodes : List Node) (observed : List ObservedNode) (seen : List String)
      → check_servers recorded_uids k3s_version nodes observed seen ≡ ok tt
      → All (IsPlanned nodes) observed × DistinctFrom (map observed_name observed) seen
  unfolding check_servers
  check_servers-ok nodes [] seen h = (tt, tt)
  check_servers-ok nodes (o ∷ rest) seen h =
      let (ip, p, h1) =
        >>=-eq-ok (from_option (unplanned (observed_name o)) (planned (observed_name o) nodes))
          (λ ip.
            fail_if (contains (observed_name o) seen) (duplicate (observed_name o))
            >> (check_server recorded_uids k3s_version o ip
                >> check_servers recorded_uids k3s_version nodes rest (observed_name o ∷ seen)))
          h in
      let (new, h2) =
        fail_if->> (contains (observed_name o) seen) (duplicate (observed_name o)) _ h1 in
      let (_, healthy, h3) =
        >>=-eq-ok (check_server recorded_uids k3s_version o ip)
          (λ _. check_servers recorded_uids k3s_version nodes rest (observed_name o ∷ seen)) h2 in
      let (all, distinct) = check_servers-ok nodes rest (observed_name o ∷ seen) h3 in
      (((ip, from_option-eq-ok _ _ p, check_server-IsHealthy ip o healthy), all), (new, distinct))

pub from_inventory-eq-ok :
    (m : Result Inventory.Error (Unit {0})) → from_inventory m ≡ ok tt → m ≡ ok tt
unfolding from_inventory
from_inventory-eq-ok (ok a) h = refl
from_inventory-eq-ok (err e) h = cc

configured-eq-ok :
    (kubectl : Kubectl) (blank : Bool) {k : Kubectl}
    → configured (some kubectl) blank ≡ ok k
    → kubectl ≡ k
unfolding configured
configured-eq-ok kubectl true h = cc
configured-eq-ok kubectl false h = cc

decode-eq-ok :
    (reply : Reply) {observed : List ObservedNode}
    → decode reply ≡ ok observed
    → reply ≡ items observed
unfolding decode
decode-eq-ok failed h = cc
decode-eq-ok undecodable h = cc
decode-eq-ok (items nodes) h = cc

planned-contains :
    (name : String) (nodes : List Node) {ip : String}
    → planned name nodes ≡ some ip
    → contains name (names_of nodes) ≡ true
unfolding planned
planned-contains name [] h = cc
planned-contains name (node ∷ rest) {ip} h = ground (arith, planned-contains name rest {ip = ip})

-- Names that differ lead to the node's own address.
planned-Memᴰ :
    {node : Node} {nodes : List Node}
    → Distinct (names_of nodes)
    → Memᴰ node nodes
    → planned node.name nodes ≡ some node.address
unfolding planned
planned-Memᴰ {node} d (Memᴰ.head {x = first} e) = ground (arith, e, eq_iff node.name first.name)
planned-Memᴰ {node} d (Memᴰ.tail {x = first} m) = ground (
  arith,
  planned-Memᴰ d.1 m,
  contains_of_Memᴰ (λ (n : Node). n.name) m,
  eq_iff node.name first.name,
)

module _ (parse_addr : String → Option Addr) where
  -- The servers of the inventory are exactly the observed nodes, and each of them is healthy.
  pub record AllHealthy (inv : Inventory) (k3s_version : String) (recorded_uids : String → String)
      (observed : List ObservedNode) : Type 0 where
    pub same_count : length observed ≡ length inv.nodes
    pub names_distinct : Distinct (map observed_name observed)
    pub none_unplanned : Subset (map observed_name observed) (names_of inv.nodes)
    pub every_server :
        All
          (λ node.
            (o : ObservedNode) × Memᴰ o observed
            × (observed_name o ≡ node.name)
            × IsHealthy recorded_uids k3s_version node.address o)
          inv.nodes

  module _ (inv : Inventory) (k3s_version : String) (recorded_uids : String → String)
      (observed : List ObservedNode) (distinct : Distinct (names_of inv.nodes))
      (count : length observed ≡ length inv.nodes)
      (checked : check_servers recorded_uids k3s_version inv.nodes observed [] ≡ ok tt) where
    IsPlanned-All : All (IsPlanned recorded_uids k3s_version inv.nodes) observed
    IsPlanned-All = (check_servers-ok recorded_uids k3s_version inv.nodes observed [] checked).0

    observed-Distinct : Distinct (map observed_name observed)
    observed-Distinct =
        ((DistinctFrom-iff _ []).0
          (check_servers-ok recorded_uids k3s_version inv.nodes observed [] checked).1).0

    observed_planned : Subset (map observed_name observed) (names_of inv.nodes)
    observed_planned x m =
        let (o, mem, e) = Memᴰ_of_contains observed_name observed x m in
        let (ip, p, _) =
          All-Memᴰ (IsPlanned recorded_uids k3s_version inv.nodes) IsPlanned-All mem in
        subst (λ n. contains n (names_of inv.nodes) ≡ true) e
          (planned-contains (observed_name o) inv.nodes p)

    same_length : length (map observed_name observed) ≡ length (names_of inv.nodes)
    same_length =
        length-map observed observed_name
        ∙ count
        ∙ sym (length-map inv.nodes (λ (n : Node). n.name))

    server_of :
        (node : Node)
        → Memᴰ node inv.nodes
        → (o : ObservedNode) × Memᴰ o observed
          × (observed_name o ≡ node.name)
          × IsHealthy recorded_uids k3s_version node.address o
    server_of node m =
        let seen =
          Subset-full (map observed_name observed) (names_of inv.nodes) observed-Distinct
            observed_planned same_length node.name (contains_of_Memᴰ (λ (n : Node). n.name) m) in
        let (o, mem, e) = Memᴰ_of_contains observed_name observed node.name seen in
        let (ip, p, healthy) =
          All-Memᴰ (IsPlanned recorded_uids k3s_version inv.nodes) IsPlanned-All mem in
        let same : ip ≡ node.address =
          cc (p, ap (λ (n : String). planned n inv.nodes) e, planned-Memᴰ distinct m) in
        (o, mem, e, subst (λ a. IsHealthy recorded_uids k3s_version a o) same healthy)

    pub check-AllHealthy : AllHealthy inv k3s_version recorded_uids observed
    check-AllHealthy = record {
      same_count = count;
      names_distinct = observed-Distinct;
      none_unplanned = observed_planned;
      every_server = All-of_Memᴰ _ inv.nodes server_of;
    }

  -- When the readiness check is passed, Kubernetes listed as many nodes as the inventory has
  -- servers, their names differ and are all planned, and every server of the inventory is among
  -- them: a schedulable control-plane and etcd node under an identity that no record contradicts,
  -- on the signed K3s version, Ready on its planned address.
  pub validate_node_readiness-AllHealthy :
      (kubectl : Kubectl) (kubeconfig : String) (inv : Inventory) (k3s_version : String)
      (recorded_uids : String → String)
      → validate_node_readiness parse_addr (some kubectl) kubeconfig inv k3s_version recorded_uids
        ≡ ok tt
      → (observed : List ObservedNode) × (kubectl.get_nodes ≡ items observed)
        × AllHealthy inv k3s_version recorded_uids observed
  unfolding validate_node_readiness
  validate_node_readiness-AllHealthy kubectl kubeconfig inv k3s_version recorded_uids h =
      let body = λ (observed : List ObservedNode).
        fail_if (not (eqb (length observed) (length inv.nodes))) wrong_count
        >> check_servers recorded_uids k3s_version inv.nodes observed [] in
      let (_, v, h1) =
        >>=-eq-ok (from_inventory (Inventory.validate parse_addr inv))
          (λ _. configured (some kubectl) (is_blank kubeconfig || is_blank k3s_version) >>= λ k.
            decode k.get_nodes >>= body)
          h in
      let (k, c, h2) =
        >>=-eq-ok (configured (some kubectl) (is_blank kubeconfig || is_blank k3s_version))
          (λ k. decode k.get_nodes >>= body) h1 in
      let (observed, d, h3) = >>=-eq-ok (decode k.get_nodes) body h2 in
      let (counted, checked) =
        fail_if->> (not (eqb (length observed) (length inv.nodes))) wrong_count _ h3 in
      let valid = (inventory_validate_iff parse_addr inv).0 (from_inventory-eq-ok _ v) in
      (
        observed,
        ap (λ (k : Kubectl). k.get_nodes) (configured-eq-ok kubectl _ c) ∙ decode-eq-ok _ d,
        check-AllHealthy inv k3s_version recorded_uids observed valid.names_distinct
            ((eqb_iff _ _).0 (not-eq-false _ counted)) checked,
      )
