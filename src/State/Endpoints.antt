-- ===== src/State/Endpoints.antt =====
-- internal/state/endpoints.go: the API endpoints of a cluster receipt. net.ParseIP with To4 and
-- url.Parse are the section's parameters; of a URL they give the scheme, the host without its
-- port, and the port. A `map[string]struct{}` is the list of its keys.
pub mod Known
pub mod Enrolled
use appliance_ctl.Common.{
  String, ◌<>◌, ◌==◌, Bool, true, false, not, ◌&&◌, ◌||◌, Option, none, some, List, [], ◌∷◌, ◌++◌,
  eqb, length, contains, if◌then◌else◌,
}
use appliance_ctl.Common.Text.{trim_space, is_empty, join}
use appliance_ctl.Common.Split.{split}
use appliance_ctl.State.{Cluster, ClusterNode, node_role_control_plane}

-- What `url.Parse` gives of a text: Scheme, Host, Hostname() and Port().
pub record Url : Type 0 where
  pub scheme : String
  pub host : String
  pub hostname : String
  pub port : String

abbrev pub default_k3s_api_port : String
default_k3s_api_port = "6443"

-- `APIURL`
unfoldable pub api_url : String → String
api_url ip =
    let ip = trim_space ip in
    if is_empty ip then "" else "https://" <> ip <> ":" <> default_k3s_api_port

unfoldable pub has_role : List String → String → Bool
has_role roles want = contains want roles

-- A list with an entry at its end that it does not hold yet; none holds for a text to skip.
unfoldable pub add : Option String → List String → List String
add none out = out
add (some entry) out = if contains entry out then out else out ++ entry ∷ []

-- `seen[entry] = struct{}{}`, where there is an entry.
unfoldable pub mark : Option String → List String → List String
mark none seen = seen
mark (some entry) seen = if contains entry seen then seen else entry ∷ seen

-- The entry at the end of the list, unless it was seen.
unfoldable pub append_new : Option String → List String → List String → List String
append_new none seen out = out
append_new (some entry) seen out = if contains entry seen then out else out ++ entry ∷ []

module _ (parse_ipv4 : String → Option String) (parse_url : String → Option Url) where
  -- `IPv4FromNodeName`
  unfoldable pub ipv4_from_node_name : String → Option String
  ipv4_from_node_name raw =
      let name = trim_space raw in
      if is_empty name then none else elim (parse_ipv4 name) [
        | some ip ↦ some ip
        | none ↦
            let parts = split b'-' name in
            if eqb (length parts) 4 then parse_ipv4 (join "." parts) else none
      ]

  -- The host of a URL in its comparable form.
  abbrev pub canonical_host : String → String
  canonical_host host = elim (parse_ipv4 host) [ some ip ↦ ip | none ↦ host ]

  -- `NormalizeAPIEndpoint`, with none where it returns the empty text.
  unfoldable pub normalize_api_endpoint : String → Option String
  normalize_api_endpoint raw =
      let endpoint = trim_space raw in
      if is_empty endpoint then none else elim (parse_url endpoint) [
        | none ↦ none
        | some url ↦
            if not (url.scheme == "https") || is_empty url.host
            then none
            else some (
                "https://"
                <> canonical_host url.hostname
                <> ":"
                <> (if is_empty url.port then default_k3s_api_port else url.port))
      ]

  -- The loop of `KnownAPIEndpoints` over the recorded endpoints.
  unfoldable pub add_endpoints : List String → List String → List String
  add_endpoints [] out = out
  add_endpoints (endpoint ∷ rest) out =
      add_endpoints rest (add (normalize_api_endpoint endpoint) out)

  -- The endpoint that a recorded node stands for.
  unfoldable pub node_endpoint : ClusterNode → Option String
  unfolding has_role ipv4_from_node_name api_url normalize_api_endpoint
  node_endpoint node =
      if not (node.role == node_role_control_plane)
        && not (has_role node.roles node_role_control_plane)
      then none
      else elim (ipv4_from_node_name node.name) [
        | none ↦ none
        | some ip ↦ normalize_api_endpoint (api_url ip)
      ]

  -- The loop of `KnownAPIEndpoints` over the nodes.
  unfoldable pub add_nodes : List ClusterNode → List String → List String
  add_nodes [] out = out
  add_nodes (node ∷ rest) out = add_nodes rest (add (node_endpoint node) out)

  -- `KnownAPIEndpoints`
  unfoldable pub known_api_endpoints : Cluster → List String
  unfolding add_endpoints add_nodes add
  known_api_endpoints c =
      add_nodes c.nodes
        (add_endpoints c.control_endpoints (add (normalize_api_endpoint c.control_endpoint) []))

  -- `AcceptsAPIEndpoint`
  unfoldable pub accepts_api_endpoint : Cluster → String → Bool
  unfolding known_api_endpoints
  accepts_api_endpoint c endpoint = elim (normalize_api_endpoint endpoint) [
    | none ↦ false
    | some normalized ↦ elim (known_api_endpoints c) [
      | [] ↦ true
      | known ∷ rest ↦ contains normalized (known ∷ rest)
    ]
  ]

  -- What one text adds to the addresses of `PrimeIPv4s`.
  abbrev pub prime_ipv4 : String → Option String
  prime_ipv4 endpoint = elim (parse_url endpoint) [
    | none ↦ none
    | some url ↦ parse_ipv4 (trim_space url.hostname)
  ]

  -- The loop of `PrimeIPv4s`.
  unfoldable pub add_prime_ipv4s : List String → List String → List String
  add_prime_ipv4s [] out = out
  add_prime_ipv4s (endpoint ∷ rest) out = add_prime_ipv4s rest (add (prime_ipv4 endpoint) out)

  -- `PrimeIPv4s`
  unfoldable pub prime_ipv4s : Cluster → List String
  unfolding known_api_endpoints add_prime_ipv4s
  prime_ipv4s c = add_prime_ipv4s (known_api_endpoints c) []

  -- The normalized endpoints of a list: what the first lines of `AddAPIEndpoints` have seen.
  unfoldable pub normalized : List String → List String
  unfolding mark
  normalized [] = []
  normalized (endpoint ∷ rest) = mark (normalize_api_endpoint endpoint) (normalized rest)

  -- The endpoint of a server address.
  unfoldable pub ip_endpoint : String → Option String
  ip_endpoint ip = elim (parse_ipv4 (trim_space ip)) [
    | none ↦ none
    | some ipv4 ↦ some (api_url ipv4)
  ]

  -- The loop of `AddAPIEndpoints` over the addresses, with `seen` and the recorded endpoints.
  unfoldable pub append_endpoints : List String → List String → List String → List String
  unfolding mark append_new ip_endpoint
  append_endpoints [] seen out = out
  append_endpoints (ip ∷ rest) seen out =
      append_endpoints rest (mark (ip_endpoint ip) seen) (append_new (ip_endpoint ip) seen out)

  -- `AddAPIEndpoints`
  unfoldable pub add_api_endpoints : List String → Cluster → Cluster
  unfolding normalized append_endpoints
  add_api_endpoints ips c = record c {
    control_endpoints =
        append_endpoints ips (normalized (c.control_endpoint ∷ c.control_endpoints))
          c.control_endpoints;
  }

  -- `SetPreferredAPI`
  unfoldable pub set_preferred_api : String → Cluster → Cluster
  unfolding add_api_endpoints
  set_preferred_api ip c = elim (parse_ipv4 (trim_space ip)) [
    | none ↦ c
    | some ipv4 ↦
        add_api_endpoints (trim_space ip ∷ []) (record c { control_endpoint = api_url ipv4 })
  ]
