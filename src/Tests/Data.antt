-- ===== src/Tests/Data.antt =====
-- The inventory that the tests share.
use appliance_ctl.Common.{
  String, ◌==◌, ◌||◌, true, Option, none, some, [], ◌∷◌, if◌then◌else◌, ok, ◌≡◌, refl,
}
use appliance_ctl.Common.Text.{is_node_name}
use appliance_ctl.Topology.Inventory.{Addr, Node, Inventory, validate, embedded_etcd_v1}
use appliance_ctl.Topology.Inventory.Valid.{IsValid, inventory_validate_iff}

-- Three addresses that parse to themselves.
abbrev pub parse_addr : String → Option Addr
parse_addr s =
    if s == "10.0.0.1" || s == "10.0.0.2" || s == "10.0.0.3"
    then some (record { is4 = true; is_global_unicast = true; text = s })
    else none

abbrev pub alpha : Node
alpha = record { name = "alpha"; address = "10.0.0.1" }

abbrev pub bravo : Node
bravo = record { name = "bravo"; address = "10.0.0.2" }

abbrev pub charlie : Node
charlie = record { name = "charlie"; address = "10.0.0.3" }

abbrev pub three_servers : Inventory
three_servers = record {
  topology = embedded_etcd_v1;
  bootstrap_node = "bravo";
  nodes = alpha ∷ bravo ∷ charlie ∷ [];
}

pub three_servers_valid : validate parse_addr three_servers ≡ ok tt
unfolding validate is_node_name
three_servers_valid = refl

pub three_servers-IsValid : IsValid parse_addr three_servers
three_servers-IsValid = (inventory_validate_iff parse_addr three_servers).0 three_servers_valid
