-- ===== src/Cluster/Servers/Reachable.antt =====
-- What `ValidateEmbeddedEtcdAPIEndpoints` shows of the servers.
use appliance_ctl.Common.{
  String, eq_iff, Option, some, List, [], ◌∷◌, map, ok, All, ◌≡◌, inl, inr, arith, >>=-eq-ok,
  Option-cases,
}
use appliance_ctl.Common.Permutations.{All-Permᴰ}
use appliance_ctl.Common.Text.{trim_space}
use appliance_ctl.Topology.Inventory.{Inventory, Node, Addr, api_endpoints, endpoint}
use appliance_ctl.Topology.Inventory
use appliance_ctl.Topology.Inventory.Valid.{inventory_validate_iff}
use appliance_ctl.Topology.Inventory.Endpoints.{api_endpoints-perm}
use appliance_ctl.Cluster.Nodes.{Kubectl}
use appliance_ctl.Cluster.Servers.{
  check_endpoints, configured, validate_api_endpoints, from_inventory,
}
use appliance_ctl.Cluster.Servers.Complete.{from_inventory-eq-ok}

-- The endpoint accepts the credential and reports that it is ready.
abbrev pub Answers : Kubectl → String → Type 0
Answers kubectl e = (raw : String) × (kubectl.get_readyz e ≡ some raw) × (trim_space raw ≡ "ok")

check_endpoints-All :
    (kubectl : Kubectl) (endpoints : List String)
    → check_endpoints kubectl endpoints ≡ ok tt
    → All (Answers kubectl) endpoints
unfolding check_endpoints
check_endpoints-All kubectl [] h = tt
check_endpoints-All kubectl (e ∷ rest) h = elim (Option-cases (kubectl.get_readyz e)) [
  | inl down ↦ ground (arith, down)
  | inr (raw, up) ↦ (
    (raw, up, ground (arith, up, eq_iff (trim_space raw) "ok")),
    check_endpoints-All kubectl rest (ground (arith, up)),
  )
]

All-map :
    (P : String → Type 0) (f : Node → String) (nodes : List Node)
    → All P (map f nodes)
    → All (λ n. P (f n)) nodes
All-map P f [] h = tt
All-map P f (n ∷ rest) h = (h.0, All-map P f rest h.1)

module _ (parse_addr : String → Option Addr) where
  -- When the check of the API endpoints is passed, every server of the inventory answers on its own
  -- address that it is ready, not only the one that the kubeconfig names.
  pub validate_api_endpoints-Answers :
      (kubectl : Kubectl) (kubeconfig : String) (inv : Inventory)
      → validate_api_endpoints parse_addr (some kubectl) kubeconfig inv ≡ ok tt
      → All (λ node. Answers kubectl (endpoint node)) inv.nodes
  unfolding validate_api_endpoints configured
  validate_api_endpoints-Answers kubectl kubeconfig inv h =
      let (_, v, h1) = >>=-eq-ok (from_inventory (Inventory.validate parse_addr inv)) _ h in
      let valid = (inventory_validate_iff parse_addr inv).0 (from_inventory-eq-ok _ v) in
      let checked : check_endpoints kubectl (api_endpoints parse_addr inv) ≡ ok tt =
        ground (arith, h1) in
      All-map (Answers kubectl) endpoint inv.nodes (
        All-Permᴰ (Answers kubectl) (api_endpoints-perm parse_addr inv valid).0
          (check_endpoints-All kubectl (api_endpoints parse_addr inv) checked))
