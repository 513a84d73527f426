-- ===== src/Topology/Inventory/Endpoints.antt =====
-- What the endpoint lists of a valid inventory hold: `APIEndpoints`, `BootstrapAPIEndpoint` and
-- `APISANs`.
use mathlib.Core.List.{Permᴰ}
use mathlib.Core.List.Permᴰ
use mathlib.Core.Path.{subst}
use appliance_ctl.Common.{
  String, ◌<>◌, ◌==◌, eq_iff, true, false, Option, List, [], ◌∷◌, ◌++◌, map, contains, Distinct,
  ◌≡◌, refl, arith, inl, inr, Bool-cases,
}
use appliance_ctl.Topology.Inventory.{
  Node, Inventory, Addr, endpoint, first_named, others, api_endpoints, bootstrap_api_endpoint,
  address_of,
}
use appliance_ctl.Topology.Inventory.Valid.{names_of, IsValid, inventory_validate_iff}

others_of_absent :
    (name : String) (nodes : List Node)
    → contains name (names_of nodes) ≡ false
    → others name nodes ≡ map endpoint nodes
unfolding others
others_of_absent name [] h = refl
others_of_absent name (node ∷ rest) h =
    ground (arith, others_of_absent name rest, eq_iff node.name name, eq_iff name node.name)

first_named_lem :
    (name : String) (nodes : List Node)
    → contains name (names_of nodes) ≡ true
    → first_named name nodes ≡ ("https://" <> address_of name nodes <> ":6443") ∷ []
unfolding first_named address_of
first_named_lem name [] h = cc
first_named_lem name (node ∷ rest) h =
    ground (arith, first_named_lem name rest, eq_iff node.name name, eq_iff name node.name)

split_perm :
    (name : String) (nodes : List Node)
    → Distinct (names_of nodes)
    → contains name (names_of nodes) ≡ true
    → Permᴰ (first_named name nodes ++ others name nodes) (map endpoint nodes)
unfolding first_named others
split_perm name [] d h = cc
split_perm name (node ∷ rest) (fresh, d) h = elim (Bool-cases (node.name == name)) [
  | inl same ↦ rw same (
      rw
        (others_of_absent name rest
          (subst (λ n. contains n (names_of rest) ≡ false) ((eq_iff _ _).0 same) fresh))
        (Permᴰ.refl _))
  | inr other ↦
      let listed : contains name (names_of rest) ≡ true =
        ground (arith, eq_iff node.name name, eq_iff name node.name) in
      rw other (
        Permᴰ.trans (Permᴰ.middle (endpoint node) (first_named name rest) (others name rest))
          (Permᴰ.cons refl (split_perm name rest d listed)))
]

module _ (parse_addr : String → Option Addr) where
  api_endpoints_of_IsValid :
      (inv : Inventory)
      → IsValid parse_addr inv
      → api_endpoints parse_addr inv
        ≡ first_named inv.bootstrap_node inv.nodes ++ others inv.bootstrap_node inv.nodes
  unfolding api_endpoints
  api_endpoints_of_IsValid inv v = rw ((inventory_validate_iff parse_addr inv).1 v, api_endpoints)

  -- For a valid inventory the endpoints are those of all its nodes, each once, in some order,
  -- and the first is the bootstrap node's.
  pub api_endpoints-perm :
      (inv : Inventory)
      → IsValid parse_addr inv
      → Permᴰ (api_endpoints parse_addr inv) (map endpoint inv.nodes)
        × (bootstrap_api_endpoint parse_addr inv
            ≡ "https://" <> address_of inv.bootstrap_node inv.nodes <> ":6443")
  unfolding bootstrap_api_endpoint
  api_endpoints-perm inv v = (
    rw (api_endpoints_of_IsValid inv v)
        (split_perm inv.bootstrap_node inv.nodes v.names_distinct v.bootstrap_listed),
    rw (api_endpoints_of_IsValid inv v, bootstrap_api_endpoint)
        (rw (first_named_lem inv.bootstrap_node inv.nodes v.bootstrap_listed)),
  )
