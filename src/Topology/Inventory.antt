-- ===== src/Topology/Inventory.antt =====
-- internal/clustertopology/inventory.go: the inventory of one or three embedded-etcd servers.
-- netip.ParseAddr is the parameter `parse_addr`.
pub mod Valid
pub mod Endpoints
pub mod Fingerprint
use appliance_ctl.Common.{
  String, ◌<>◌, ◌==◌, Bool, false, not, ◌&&◌, ◌||◌, Option, none, some, List, [], ◌∷◌, ◌++◌, map, ℕ,
  eqb, if◌then◌else◌, contains, length, Result, ok, err, ◌>>=◌, ◌>>◌, fail_if, from_option, ltb,
}
use appliance_ctl.Common.Text.{is_node_name, is_blank}

pub record Node : Type 0 where
  pub name : String
  pub address : String

pub record Inventory : Type 0 where
  pub topology : String
  pub bootstrap_node : String
  pub nodes : List Node

-- The messages of the package, each with what it quotes.
pub data Error : Type 0 where
  bad_topology bad_count bad_bootstrap unknown_bootstrap : Error
  invalid_name duplicate_name bad_address duplicate_address : String → Error
  path_required not_opened not_stated not_encoded not_regular_or_too_large not_decoded
        trailing_data :
      Error
  not_in_inventory not_assigned : String → Error

-- What the code reads of a `netip.Addr`: `Is4()`, `IsGlobalUnicast()` and `String()`.
pub record Addr : Type 0 where
  pub is4 : Bool
  pub is_global_unicast : Bool
  pub text : String

abbrev pub embedded_etcd_v1 : String
embedded_etcd_v1 = "embedded-etcd-v1"

abbrev pub max_inventory_bytes : ℕ
max_inventory_bytes = 65536

module _ (parse_addr : String → Option Addr) where
  -- The address test of the loop in `Validate`: the canonical text of a reachable address.
  unfoldable pub server_address : Node → Result Error String
  server_address node = elim (parse_addr node.address) [
    | none ↦ err (bad_address node.name)
    | some a ↦ if a.is4 && a.is_global_unicast then ok a.text else err (bad_address node.name)
  ]

  -- The loop of `Validate` over the nodes, with the two maps; it returns the names seen.
  unfoldable pub check_nodes : List Node → List String → List String → Result Error (List String)
  check_nodes [] names addresses = ok names
  check_nodes (node ∷ rest) names addresses = do
    fail_if (not (is_node_name node.name)) (invalid_name node.name)
    fail_if (contains node.name names) (duplicate_name node.name)
    text ← server_address node
    fail_if (contains text addresses) (duplicate_address text)
    check_nodes rest (node.name ∷ names) (text ∷ addresses)

  -- `Inventory.Validate`
  unfoldable pub validate : Inventory → Result Error (Unit {0})
  unfolding check_nodes server_address
  validate inv = do
    fail_if (not (inv.topology == embedded_etcd_v1)) bad_topology
    fail_if (not (eqb (length inv.nodes) 1) && not (eqb (length inv.nodes) 3)) bad_count
    fail_if (not (is_node_name inv.bootstrap_node)) bad_bootstrap
    names ← check_nodes inv.nodes [] []
    fail_if (not (contains inv.bootstrap_node names)) unknown_bootstrap

abbrev pub endpoint : Node → String
endpoint node = "https://" <> node.address <> ":6443"

-- The first loop of `APIEndpoints`, which ends at the first node of that name.
unfoldable pub first_named : String → List Node → List String
first_named name [] = []
first_named name (node ∷ rest) =
    let later = first_named name rest in if node.name == name then endpoint node ∷ [] else later

-- The second loop of `APIEndpoints`.
unfoldable pub others : String → List Node → List String
others name [] = []
others name (node ∷ rest) =
    let later = others name rest in if node.name == name then later else endpoint node ∷ later

abbrev pub addresses : List Node → List String
addresses = map (λ node. node.address)

module _ (parse_addr : String → Option Addr) where
  -- `Inventory.APIEndpoints`; nil is the empty list.
  unfoldable pub api_endpoints : Inventory → List String
  unfolding first_named others
  api_endpoints inv = elim (validate parse_addr inv) [
    | err _ ↦ []
    | ok _ ↦ first_named inv.bootstrap_node inv.nodes ++ others inv.bootstrap_node inv.nodes
  ]

  -- `Inventory.BootstrapAPIEndpoint`
  unfoldable pub bootstrap_api_endpoint : Inventory → String
  bootstrap_api_endpoint inv = elim (api_endpoints inv) [ [] ↦ "" | e ∷ _ ↦ e ]

  -- `Inventory.APISANs`
  unfoldable pub api_sans : Inventory → List String
  api_sans inv = elim (validate parse_addr inv) [ err _ ↦ [] | ok _ ↦ addresses inv.nodes ]

-- `Inventory.HasNode`
unfoldable pub has_node : String → List Node → Bool
has_node name [] = false
has_node name (node ∷ rest) = node.name == name || has_node name rest

-- The lookup loop of `ValidateLocalAddress` and of k3s.EmbeddedEtcdConfig: the first node of that
-- name, or "".
unfoldable pub address_of : String → List Node → String
address_of name [] = ""
address_of name (node ∷ rest) =
    let later = address_of name rest in if node.name == name then node.address else later

-- The loop of `ValidateLocalAddress` over the interface addresses.
unfoldable pub is_local : String → List Addr → Bool
is_local expected [] = false
is_local expected (a ∷ rest) = (a.is4 && a.text == expected) || is_local expected rest

-- `Inventory.ValidateLocalAddress`
unfoldable pub validate_local_address : Inventory → String → List Addr → Result Error (Unit {0})
unfolding address_of is_local
validate_local_address inv name local = do
  let expected = address_of name inv.nodes
  fail_if (expected == "") (not_in_inventory name)
  fail_if (not (is_local expected local)) (not_assigned name)

-- What `Load` sees of an opened file: what `Stat` reports, the first JSON value that the strict
-- decoder reads in the first 64 KiB and one byte, and whether the second `Decode` returns io.EOF.
pub record InventoryFile : Type 0 where
  pub stated : Bool
  pub is_regular : Bool
  pub size : ℕ
  pub decoded : Option Inventory
  pub at_end : Bool

-- `Load`
unfoldable pub load :
    (String → Option Addr) → (String → Option InventoryFile) → String → Result Error Inventory
unfolding is_blank
load parse_addr open_file path = do
  fail_if (is_blank path) path_required
  file ← from_option not_opened (open_file path)
  fail_if (not file.stated) not_stated
  fail_if (not file.is_regular || ltb max_inventory_bytes file.size) not_regular_or_too_large
  inv ← from_option not_decoded file.decoded
  fail_if (not file.at_end) trailing_data
  validate parse_addr inv
  ok inv
