-- ===== src/K3s/Inspect.antt =====
-- internal/k3s/inspect.go and status.go: the health of the cluster and the namespaces on it that
-- are not the appliance's. The answers of kubectl are arguments, an error as its text.
pub mod Foreign
use Prim.Native.Char.{code}
use appliance_ctl.Common.{
  String, ◌<>◌, ◌==◌, Bool, true, false, not, ◌&&◌, ◌||◌, if◌then◌else◌, List, [], ◌∷◌, ◌++◌,
  contains, Result, ok, err, ◌>>=◌,
}
use appliance_ctl.Common.Order.{text_lt}
use appliance_ctl.Common.Split.{split, onto_first}
use appliance_ctl.Common.Text.{is_space, is_empty, is_blank, trim_space}

abbrev pub system_namespaces : List String
system_namespaces = "kube-system" ∷ "kube-public" ∷ "kube-node-lease" ∷ "traefik" ∷ []

abbrev pub platform_namespaces : List String
platform_namespaces =
    "ace-apps" ∷ "ace-system" ∷ "artifacts" ∷ "dns" ∷ "inference" ∷ "video" ∷ "workflows" ∷ []

abbrev pub starts_field : String → Bool
starts_field String.[] = false
starts_field (String.◌∷◌ c s) = not (is_space (code c))

-- `strings.Fields`
unfoldable pub fields : String → List String
unfolding is_space
fields String.[] = []
fields (String.◌∷◌ c s) =
    let rest = fields s in
    if is_space (code c)
    then rest
    else if starts_field s
    then onto_first c rest
    else String.◌∷◌ c String.[] ∷ rest

-- The second field of a line is "Ready".
abbrev pub is_ready_line : List String → Bool
is_ready_line [] = false
is_ready_line (name ∷ []) = false
is_ready_line (name ∷ status ∷ rest) = status == "Ready"

unfoldable pub ready_lines : List String → Bool
unfolding fields
ready_lines [] = true
ready_lines (line ∷ rest) = is_ready_line (fields line) && ready_lines rest

-- `len(lines) == 0 || lines[0] == ""`
abbrev pub no_lines : List String → Bool
no_lines [] = true
no_lines (line ∷ rest) = is_empty line

-- `allNodesReady`
unfoldable pub all_nodes_ready : String → Bool
unfolding trim_space split ready_lines
all_nodes_ready output =
    let lines = split b'\n' (trim_space output) in not (no_lines lines) && ready_lines lines

-- The test of the loop that leaves a namespace out.
unfoldable pub is_known : String → String → Bool
is_known owned ns =
    is_empty ns || contains ns system_namespaces || contains ns platform_namespaces || ns == owned

-- The keys of `seen` behind the loop.
unfoldable pub collect : String → List String → List String → List String
unfolding is_known
collect owned [] seen = seen
collect owned (ns ∷ rest) seen =
    collect owned rest (if is_known owned ns || contains ns seen then seen else ns ∷ seen)

unfoldable pub insert_text : String → List String → List String
unfolding text_lt
insert_text x [] = x ∷ []
insert_text x (y ∷ ys) = let rest = insert_text x ys in if text_lt x y then x ∷ y ∷ ys else y ∷ rest

-- `sort.Strings`
unfoldable pub sort_texts : List String → List String
unfolding insert_text
sort_texts [] = []
sort_texts (x ∷ xs) = insert_text x (sort_texts xs)

-- `foreignNamespacesFrom`
unfoldable pub foreign_namespaces_from : String → String → List String
unfolding fields is_known collect sort_texts
foreign_namespaces_from output owned = sort_texts (collect owned (fields output) [])

-- `InspectCluster`: an error beside what was found before it.
unfoldable pub inspect_cluster :
    Result String String
    → Result String String
    → String
    → (Bool × List String) × Result String (Unit {0})
unfolding all_nodes_ready foreign_namespaces_from
inspect_cluster (err e) pods owned = ((false, []), err ("k3s: inspect cluster nodes: " <> e))
inspect_cluster (ok nodes) (err e) owned =
    ((all_nodes_ready nodes, []), err ("k3s: inspect cluster workloads: " <> e))
inspect_cluster (ok nodes) (ok pods) owned =
    ((all_nodes_ready nodes, foreign_namespaces_from pods owned), ok tt)

-- `IngressRouteExists`
unfoldable pub ingress_route_exists : Result String String → Result String Bool
unfolding is_blank
ingress_route_exists (err e) = err ("k3s: list ingressroutes: " <> e)
ingress_route_exists (ok out) = ok (not (is_blank out))

pub record HealthSignal : Type 0 where
  pub service_active : Bool
  pub api_server_reachable : Bool
  pub version : String
  pub expected_version : String

pub record HealthStatus : Type 0 where
  pub healthy : Bool
  pub reasons : List String

-- `EvaluateHealth`, where `quote` is fmt's %q.
unfoldable pub evaluate_health : (String → String) → HealthSignal → HealthStatus
evaluate_health quote s =
    let reasons : List String =
      (if s.service_active then [] else "k3s service is not active" ∷ [])
      ++ (if s.api_server_reachable then [] else "kubernetes API server is not reachable" ∷ [])
      ++ (if not (is_empty s.expected_version) && not (s.version == s.expected_version)
          then ("running version " <> quote s.version <> ", expected " <> quote s.expected_version)
            ∷ []
          else []) in
    record { healthy = elim reasons [ [] ↦ true | _ ∷ _ ↦ false ]; reasons = reasons }
