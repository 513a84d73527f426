-- ===== src/Tests/Topology.antt =====
-- internal/clustertopology on concrete inputs.
use mathlib.Core.List.{Permᴰ}
use appliance_ctl.Common.{String, ◌<>◌, Option, some, List, [], ◌∷◌, map, ok, err, ◌≡◌, refl}
use appliance_ctl.Common.Text.{is_blank, is_node_name, is_digest}
use appliance_ctl.Topology.Inventory.{
  Node, Inventory, Error, endpoint, address_of, api_endpoints, bootstrap_api_endpoint,
  duplicate_address, embedded_etcd_v1,
}
use appliance_ctl.Topology.Inventory
use appliance_ctl.Topology.Inventory.Valid.{inventory_validate_iff}
use appliance_ctl.Topology.Inventory.Endpoints.{api_endpoints-perm}
use appliance_ctl.Topology.Inventory.Fingerprint.{fingerprint}
use appliance_ctl.Topology.Inventory.Fingerprint.Canonical.{fingerprint-Permᴰ}
use appliance_ctl.Topology.Bootstrap.{BootstrapState, Inputs, validate, matches, phase_joined}
use appliance_ctl.Topology.Bootstrap.Rerun.{matches_iff}
use appliance_ctl.Tests.Data.{
  parse_addr, alpha, bravo, charlie, three_servers, three_servers-IsValid,
}

inventory_validate_iff_example : Inventory.validate parse_addr three_servers ≡ ok tt
inventory_validate_iff_example =
    (inventory_validate_iff parse_addr three_servers).1 three_servers-IsValid

-- Two servers may not share an address.
shared_address :
    Inventory.validate parse_addr (record three_servers {
      nodes = alpha ∷ record bravo { address = "10.0.0.1" } ∷ charlie ∷ [];
    })
    ≡ err (duplicate_address "10.0.0.1")
unfolding Inventory.validate is_node_name
shared_address = refl

api_endpoints-perm_example :
    Permᴰ (api_endpoints parse_addr three_servers) (map endpoint (alpha ∷ bravo ∷ charlie ∷ []))
    × (bootstrap_api_endpoint parse_addr three_servers
        ≡ "https://" <> address_of "bravo" (alpha ∷ bravo ∷ charlie ∷ []) <> ":6443")
api_endpoints-perm_example = api_endpoints-perm parse_addr three_servers three_servers-IsValid

-- The bootstrap node's endpoint comes first.
endpoints_in_order :
    api_endpoints parse_addr three_servers
    ≡ "https://10.0.0.2:6443" ∷ "https://10.0.0.1:6443" ∷ "https://10.0.0.3:6443" ∷ []
unfolding api_endpoints Inventory.validate is_node_name
endpoints_in_order = refl

-- An encoding that names the nodes, and a digest of 64 hexadecimal digits.
abbrev names_in : List Node → String
names_in [] = ""
names_in (node ∷ rest) = node.name <> "=" <> node.address <> "," <> names_in rest

abbrev marshal : Inventory → Option String
marshal inv = some (inv.bootstrap_node <> ":" <> names_in inv.nodes)

abbrev digits : String
digits = "0123456789abcdef0123456789abcdef0123456789abcdef0123456789abcdef"

abbrev sha256_hex : String → String
sha256_hex s = digits

abbrev swapped : List Node
swapped = bravo ∷ alpha ∷ charlie ∷ []

fingerprint-Permᴰ_example :
    fingerprint parse_addr marshal sha256_hex (record three_servers { nodes = swapped })
    ≡ fingerprint parse_addr marshal sha256_hex three_servers
fingerprint-Permᴰ_example =
    fingerprint-Permᴰ parse_addr marshal sha256_hex three_servers {nodes = swapped}
      three_servers-IsValid (Permᴰ.swap refl refl)

abbrev receipt : BootstrapState
receipt = record {
  schema_version = 1;
  topology = embedded_etcd_v1;
  inventory_fingerprint = "sha256:" <> digits;
  cluster_id = "c1";
  appliance_name = "box";
  appliance_profile = "edge";
  dns_zone = "box.lan";
  release_id = "r7";
  bundle_version = "1.4.0";
  k3s_version = "v1.30.2+k3s1";
  local_node = "alpha";
  phase = phase_joined;
  node_uid = "uid-1";
  enrollment_signer_fingerprint = "";
  created_at = 10;
  updated_at = 20;
}

abbrev rerun : Inputs
rerun = record {
  release_id = "r7";
  bundle_version = "1.4.0";
  k3s_version = "v1.30.2+k3s1";
  node_name = "alpha";
  appliance_name = "box";
  appliance_profile = "edge";
  dns_zone = "box.lan";
}

receipt_valid : validate receipt ≡ ok tt
unfolding validate is_blank is_node_name is_digest
receipt_valid = refl

matches_iff_example : matches parse_addr marshal sha256_hex receipt three_servers rerun ≡ ok tt
unfolding fingerprint Inventory.validate is_node_name
matches_iff_example = (matches_iff parse_addr marshal sha256_hex receipt three_servers rerun).1 (
  receipt_valid,
  refl,
  record {
    same_k3s = refl;
    same_node = refl;
    same_name = refl;
    same_profile = refl;
    same_zone = refl;
  },
  refl,
  refl,
)
