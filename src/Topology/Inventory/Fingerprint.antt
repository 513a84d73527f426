-- ===== src/Topology/Inventory/Fingerprint.antt =====
-- `Inventory.Fingerprint`: the identity of an inventory. json.Marshal of the inventory and the hex
-- text of its SHA-256 are the parameters `marshal` and `sha256_hex`.
pub mod Canonical
use appliance_ctl.Common.{
  String, ◌<>◌, Bool, Option, none, some, List, [], ◌∷◌, Result, ok, err, ◌>>=◌, ◌>>◌,
  if◌then◌else◌, from_option,
}
use appliance_ctl.Common.Order.{text_lt}
use appliance_ctl.Topology.Inventory.{Node, Inventory, Error, Addr, validate, not_encoded}

-- `sort.Slice` by name: the names differ, so every sort gives the same list.
unfoldable pub insert_by_name : Node → List Node → List Node
insert_by_name node [] = node ∷ []
insert_by_name node (first ∷ rest) =
    let later = first ∷ insert_by_name node rest in
    if text_lt node.name first.name then node ∷ first ∷ rest else later

unfoldable pub sort_by_name : List Node → List Node
unfolding insert_by_name
sort_by_name [] = []
sort_by_name (node ∷ rest) = insert_by_name node (sort_by_name rest)

module _ (parse_addr : String → Option Addr) (marshal : Inventory → Option String)
    (sha256_hex : String → String) where
  unfoldable pub fingerprint : Inventory → Result Error String
  fingerprint inv = do
    validate parse_addr inv
    canonical ← from_option not_encoded (marshal (record inv { nodes = sort_by_name inv.nodes }))
    ok ("sha256:" <> sha256_hex canonical)
