-- ===== src/Topology/Inventory/Valid.antt =====
-- What `Inventory.Validate` accepts, described without its loop and its maps.
use appliance_ctl.Common.{
  not, String, ◌==◌, eq_iff, true, false, ◌&&◌, ◌||◌, Option, none, some, List, [], ◌∷◌, map, eqb,
  contains, Distinct, DistinctFrom, DistinctFrom-iff, NoneOf-nil, All, length, ok, fail_if, ◌≡◌,
  refl, ◌⊎◌, ◌↔◌, arith, inl, inr, >>=-eq-ok, fail_if-ok, ap, fail_if->>, not-eq-false, sym,
  Option-cases,
}
use mathlib.Core.Path.{subst}
use appliance_ctl.Common.Text.{is_node_name}
use appliance_ctl.Topology.Inventory.{
  bad_topology, bad_count, bad_bootstrap, unknown_bootstrap, Node, Inventory, Addr,
  embedded_etcd_v1, server_address, check_nodes, validate,
}

abbrev pub names_of : List Node → List String
names_of = map (λ node. node.name)

-- The names of the nodes, put one by one in front of others.
names_onto : List Node → List String → List String
names_onto [] acc = acc
names_onto (node ∷ rest) acc = names_onto rest (node.name ∷ acc)

contains-names_onto :
    (x : String) (nodes : List Node) (acc : List String)
    → contains x (names_onto nodes acc) ≡ (contains x (names_of nodes) || contains x acc)
unfolding names_onto
contains-names_onto x [] acc = refl
contains-names_onto x (node ∷ rest) acc =
    ground (arith, contains-names_onto x rest (node.name ∷ acc))

abbrev pub Named : Node → Type 0
Named node = is_node_name node.name ≡ true

module _ (parse_addr : String → Option Addr) where
  -- The address is a global unicast IPv4 address.
  abbrev pub IsReachable : Node → Type 0
  IsReachable node =
      (a : Addr) × (parse_addr node.address ≡ some a)
      × (a.is4 ≡ true)
      × (a.is_global_unicast ≡ true)

  -- The address as netip prints it; what does not parse stands for itself.
  abbrev pub canonical : Node → String
  canonical node = elim (parse_addr node.address) [ none ↦ node.address | some a ↦ a.text ]

  -- The product's rules for an inventory, each on its own.
  pub record IsValid (inv : Inventory) : Type 0 where
    pub topology_ok : inv.topology ≡ embedded_etcd_v1
    pub one_or_three : (length inv.nodes ≡ 1) ⊎ (length inv.nodes ≡ 3)
    pub bootstrap_named : is_node_name inv.bootstrap_node ≡ true
    pub all_named : All Named inv.nodes
    pub names_distinct : Distinct (names_of inv.nodes)
    pub all_reachable : All IsReachable inv.nodes
    pub addresses_distinct : Distinct (map canonical inv.nodes)
    pub bootstrap_listed : contains inv.bootstrap_node (names_of inv.nodes) ≡ true

  pub server_address-ok :
      (node : Node) {text : String}
      → server_address parse_addr node ≡ ok text
      → IsReachable node × (canonical node ≡ text)
  unfolding server_address
  server_address-ok node h = elim (Option-cases (parse_addr node.address)) [
    | inl e ↦ ground arith
    | inr (a, e) ↦ ((a, e, ground arith, ground arith), ground arith)
  ]

  server_address_of_IsReachable :
      (node : Node) → IsReachable node → server_address parse_addr node ≡ ok (canonical node)
  unfolding server_address
  server_address_of_IsReachable node (a, e, four, global) = ground arith

  -- What the loop checks, with the maps that it has on entry.
  Fits : List Node → List String → List String → Type 0
  Fits [] names addresses = Unit
  Fits (node ∷ rest) names addresses =
      Named node
      × (contains node.name names ≡ false)
      × IsReachable node
      × (contains (canonical node) addresses ≡ false)
      × Fits rest (node.name ∷ names) (canonical node ∷ addresses)

  check_nodes-ok :
      (nodes : List Node) (names addresses : List String) {found : List String}
      → check_nodes parse_addr nodes names addresses ≡ ok found
      → Fits nodes names addresses × (names_onto nodes names ≡ found)
  unfolding check_nodes Fits names_onto
  check_nodes-ok [] names addresses h = (tt, ground arith)
  check_nodes-ok (node ∷ rest) names addresses h =
      let (named, h1) = fail_if->> _ _ _ h in
      let (new, h2) = fail_if->> _ _ _ h1 in
      let (text, t, h3) = >>=-eq-ok (server_address parse_addr node) _ h2 in
      let (reach, same) = server_address-ok node t in
      let (new_text, h4) = fail_if->> _ _ _ h3 in
      let (fits, found) = check_nodes-ok rest (node.name ∷ names) (text ∷ addresses) h4 in
      (
        (
          not-eq-false _ named,
          new,
          reach,
          subst (λ a. contains a addresses ≡ false) (sym same) new_text,
          subst (λ a. Fits rest (node.name ∷ names) (a ∷ addresses)) (sym same) fits,
        ),
        found,
      )

  check_nodes_of_Fits :
      (nodes : List Node) (names addresses : List String)
      → Fits nodes names addresses
      → check_nodes parse_addr nodes names addresses ≡ ok (names_onto nodes names)
  unfolding check_nodes Fits names_onto
  check_nodes_of_Fits [] names addresses h = refl
  check_nodes_of_Fits (node ∷ rest) names addresses (named, new, reach, new_address, fits) =
      rw (named, new, server_address_of_IsReachable node reach, new_address)
        (check_nodes_of_Fits rest (node.name ∷ names) (canonical node ∷ addresses) fits)

  Fits-iff :
      (nodes : List Node) (names addresses : List String)
      → Fits nodes names addresses ↔ (
          All Named nodes
          × All IsReachable nodes
          × DistinctFrom (names_of nodes) names
          × DistinctFrom (map canonical nodes) addresses)
  unfolding Fits
  Fits-iff [] names addresses = (λ h. (tt, tt, tt, tt), λ h. tt)
  Fits-iff (node ∷ rest) names addresses =
      let ih = Fits-iff rest (node.name ∷ names) (canonical node ∷ addresses) in
      (
        λ h. let t = ih.0 h.4 in ((h.0, t.0), (h.2, t.1), (h.1, t.2), (h.3, t.3)),
        λ h. (h.0.0, h.2.0, h.1.0, h.3.0, ih.1 (h.0.1, h.1.1, h.2.1, h.3.1)),
      )

  Fits-Distinct :
      (nodes : List Node)
      → Fits nodes [] [] ↔ (
          All Named nodes
          × All IsReachable nodes
          × Distinct (names_of nodes)
          × Distinct (map canonical nodes))
  Fits-Distinct nodes =
      let f = Fits-iff nodes [] [] in
      let n = DistinctFrom-iff (names_of nodes) [] in
      let a = DistinctFrom-iff (map canonical nodes) [] in
      (
        λ h. let t = f.0 h in (t.0, t.1, (n.0 t.2).0, (a.0 t.3).0),
        λ h. f.1 (h.0, h.1, n.1 (h.2, NoneOf-nil _), a.1 (h.3, NoneOf-nil _)),
      )

  validate-IsValid : (inv : Inventory) → validate parse_addr inv ≡ ok tt → IsValid inv
  unfolding validate
  validate-IsValid inv h =
      let (t, h1) = fail_if->> (not (inv.topology == embedded_etcd_v1)) bad_topology _ h in
      let (n, h2) =
        fail_if->> (not (eqb (length inv.nodes) 1) && not (eqb (length inv.nodes) 3)) bad_count _
          h1 in
      let (b, h3) = fail_if->> (not (is_node_name inv.bootstrap_node)) bad_bootstrap _ h2 in
      let (found, c, h4) =
        >>=-eq-ok (check_nodes parse_addr inv.nodes [] [])
          (λ names. fail_if (not (contains inv.bootstrap_node names)) unknown_bootstrap) h3 in
      let (fits, same) = check_nodes-ok inv.nodes [] [] c in
      let rules = (Fits-Distinct inv.nodes).0 fits in
      let listed =
        not-eq-false _
          (fail_if-ok (not (contains inv.bootstrap_node found)) unknown_bootstrap h4) in
      record {
        topology_ok = (eq_iff _ _).0 (not-eq-false _ t);
        one_or_three = ground arith;
        bootstrap_named = not-eq-false _ b;
        all_named = rules.0;
        names_distinct = rules.2;
        all_reachable = rules.1;
        addresses_distinct = rules.3;
        bootstrap_listed = ground (
          arith,
          listed,
          ap (contains inv.bootstrap_node) same,
          contains-names_onto inv.bootstrap_node inv.nodes [],
        );
      }

  validate_of_IsValid : (inv : Inventory) → IsValid inv → validate parse_addr inv ≡ ok tt
  unfolding validate
  validate_of_IsValid inv v =
      let fits =
        (Fits-Distinct inv.nodes).1
          (v.all_named, v.all_reachable, v.names_distinct, v.addresses_distinct) in
      ground (
        arith,
        eq_iff inv.topology embedded_etcd_v1,
        check_nodes_of_Fits inv.nodes [] [] fits,
        contains-names_onto inv.bootstrap_node inv.nodes [],
      )

  -- `Validate` accepts an inventory exactly when it meets the product's rules: the topology's
  -- name, one or three nodes, names that are DNS labels and differ, reachable addresses that
  -- differ, and a bootstrap node that is a label and one of them.
  pub inventory_validate_iff : (inv : Inventory) → (validate parse_addr inv ≡ ok tt) ↔ IsValid inv
  inventory_validate_iff inv = (validate-IsValid inv, validate_of_IsValid inv)
