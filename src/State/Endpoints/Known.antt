-- ===== src/State/Endpoints/Known.antt =====
-- Which API endpoints a cluster receipt knows.
use appliance_ctl.Common.{
  String, eq_iff, true, false, Option, none, some, List, [], ◌∷◌, ◌++◌, map, ◌≡◌, refl, sym, ap,
  ◌∙◌, ◌↔◌, ◌⊎◌, inl, inr, arith, contains, Distinct, Bool-cases,
}
use appliance_ctl.State.{Cluster, ClusterNode}
use appliance_ctl.State.Endpoints.{
  Url, add, normalize_api_endpoint, add_endpoints, node_endpoint, add_nodes, known_api_endpoints,
}

-- One of the entries is this text.
abbrev pub Offers : String → List (Option String) → Type 0
Offers e [] = ⊥
Offers e (x ∷ xs) = (x ≡ some e) ⊎ Offers e xs

-- All entries, added one after the other.
collect : List (Option String) → List String → List String
collect [] out = out
collect (x ∷ xs) out = collect xs (add x out)

pub contains-snoc :
    (z x : String) (out : List String)
    → (contains z (out ++ x ∷ []) ≡ true) ↔ ((contains z out ≡ true) ⊎ (z ≡ x))
contains-snoc z x [] = (λ h. ground (arith, eq_iff z x), λ h. ground (arith, eq_iff z x))
contains-snoc z x (y ∷ out) =
    let ih = contains-snoc z x out in (λ h. ground (arith, ih.0), λ h. ground (arith, ih.1))

Distinct-snoc :
    (x : String) (out : List String)
    → contains x out ≡ false
    → Distinct out
    → Distinct (out ++ x ∷ [])
Distinct-snoc x [] n d = (refl, tt)
Distinct-snoc x (y ∷ out) n d = (
  ground (arith, (contains-snoc y x out).0, eq_iff y x, eq_iff x y),
  Distinct-snoc x out (ground arith) d.1,
)

contains-add :
    (z : String) (x : Option String) (out : List String)
    → (contains z (add x out) ≡ true) ↔ ((x ≡ some z) ⊎ (contains z out ≡ true))
unfolding add
contains-add z none out = (λ h. inr h, λ h. ground arith)
contains-add z (some x) out = (
  λ h. ground (arith, (contains-snoc z x out).0, eq_iff z x),
  λ h. ground (arith, (contains-snoc z x out).1, eq_iff z x),
)

Distinct-add : (x : Option String) (out : List String) → Distinct out → Distinct (add x out)
unfolding add
Distinct-add none out d = d
Distinct-add (some x) out d = elim (Bool-cases (contains x out)) [
  | inl known ↦ rw known d
  | inr new ↦ rw new (Distinct-snoc x out new d)
]

contains-collect :
    (z : String) (xs : List (Option String)) (out : List String)
    → (contains z (collect xs out) ≡ true) ↔ (Offers z xs ⊎ (contains z out ≡ true))
unfolding collect
contains-collect z [] out = (λ h. inr h, λ h. ground arith)
contains-collect z (x ∷ xs) out =
    let ih = contains-collect z xs (add x out) in
    let one = contains-add z x out in
    (λ h. ground (arith, ih.0 h, one.0), λ h. ground (arith, ih.1, one.1))

Distinct-collect :
    (xs : List (Option String)) (out : List String) → Distinct out → Distinct (collect xs out)
unfolding collect
Distinct-collect [] out d = d
Distinct-collect (x ∷ xs) out d = Distinct-collect xs (add x out) (Distinct-add x out d)

collect-append :
    (xs ys : List (Option String)) (out : List String)
    → collect (xs ++ ys) out ≡ collect ys (collect xs out)
unfolding collect
collect-append [] ys out = refl
collect-append (x ∷ xs) ys out = collect-append xs ys (add x out)

module _ (parse_ipv4 : String → Option String) (parse_url : String → Option Url) where
  abbrev normalize : String → Option String
  normalize endpoint = normalize_api_endpoint parse_ipv4 parse_url endpoint

  abbrev from_node : ClusterNode → Option String
  from_node node = node_endpoint parse_ipv4 parse_url node

  -- What a receipt records of endpoints: the preferred one, the listed ones, and those of its
  -- control-plane nodes, in this order, each in its comparable form if it has one.
  abbrev pub recorded : Cluster → List (Option String)
  recorded c =
      normalize_api_endpoint parse_ipv4 parse_url c.control_endpoint
        ∷ map (normalize_api_endpoint parse_ipv4 parse_url) c.control_endpoints
      ++ map (node_endpoint parse_ipv4 parse_url) c.nodes

  add_endpoints-collect :
      (xs out : List String)
      → add_endpoints parse_ipv4 parse_url xs out ≡ collect (map normalize xs) out
  unfolding add_endpoints collect
  add_endpoints-collect [] out = refl
  add_endpoints-collect (x ∷ xs) out = add_endpoints-collect xs (add (normalize x) out)

  add_nodes-collect :
      (xs : List ClusterNode) (out : List String)
      → add_nodes parse_ipv4 parse_url xs out ≡ collect (map from_node xs) out
  unfolding add_nodes collect
  add_nodes-collect [] out = refl
  add_nodes-collect (x ∷ xs) out = add_nodes-collect xs (add (from_node x) out)

  known_api_endpoints-collect :
      (c : Cluster) → known_api_endpoints parse_ipv4 parse_url c ≡ collect (recorded c) []
  unfolding known_api_endpoints collect
  known_api_endpoints-collect c =
      let first = add (normalize c.control_endpoint) [] in
      add_nodes-collect c.nodes (add_endpoints parse_ipv4 parse_url c.control_endpoints first)
      ∙ ap (collect (map from_node c.nodes)) (add_endpoints-collect c.control_endpoints first)
      ∙ sym (collect-append (map normalize c.control_endpoints) (map from_node c.nodes) first)

  -- The known endpoints are those that the receipt records, and none is listed twice.
  pub known_api_endpoints_iff :
      (c : Cluster)
      → ((e : String)
          → (contains e (known_api_endpoints parse_ipv4 parse_url c) ≡ true)
            ↔ Offers e (recorded c))
        × Distinct (known_api_endpoints parse_ipv4 parse_url c)
  known_api_endpoints_iff c = rw (known_api_endpoints-collect c) (
    λ e.
        let one = contains-collect e (recorded c) [] in
        (λ h. ground (arith, one.0 h), λ h. one.1 (inl h)),
    Distinct-collect (recorded c) [] tt,
  )
