-- ===== src/Topology/Inventory/Fingerprint/Canonical.antt =====
-- The fingerprint does not depend on the order in which the operator lists the servers.
use mathlib.Core.List.{Permᴰ}
use mathlib.Core.List.Permᴰ
use mathlib.Core.Path.{subst}
use appliance_ctl.Common.{
  String, ◌==◌, eq_iff, false, Option, List, [], ◌∷◌, Distinct, ◌≡◌, refl, sym, ◌∙◌, ◌⊎◌, arith,
}
use appliance_ctl.Common.Order.{text_lt_asymm, text_lt_trans, text_lt_total}
use appliance_ctl.Common.Permutations.{length-Permᴰ, All-Permᴰ, contains-Permᴰ, Distinct-Permᴰ}
use appliance_ctl.Topology.Inventory.{Node, Inventory, Addr}
use appliance_ctl.Topology.Inventory.Valid.{
  names_of, canonical, Named, IsReachable, IsValid, inventory_validate_iff,
}
use appliance_ctl.Topology.Inventory.Fingerprint.{insert_by_name, sort_by_name, fingerprint}

insert_comm :
    (a b : Node) (nodes : List Node)
    → (a.name == b.name) ≡ false
    → insert_by_name a (insert_by_name b nodes) ≡ insert_by_name b (insert_by_name a nodes)
unfolding insert_by_name
insert_comm a b [] h =
    ground (arith, text_lt_asymm a.name b.name, text_lt_total a.name b.name, eq_iff a.name b.name)
insert_comm a b (x ∷ rest) h = ground (
  arith,
  insert_comm a b rest h,
  text_lt_asymm a.name b.name,
  text_lt_asymm b.name a.name,
  text_lt_total a.name b.name,
  text_lt_trans a.name b.name x.name,
  text_lt_trans b.name a.name x.name,
  eq_iff a.name b.name,
)

-- Sorting forgets the order of nodes whose names differ.
pub sort_by_name-Permᴰ :
    {xs ys : List Node} → Permᴰ xs ys → Distinct (names_of xs) → sort_by_name xs ≡ sort_by_name ys
unfolding sort_by_name
sort_by_name-Permᴰ Permᴰ.nil d = refl
sort_by_name-Permᴰ (Permᴰ.cons e p) d = cc (e, sort_by_name-Permᴰ p d.1)
sort_by_name-Permᴰ (Permᴰ.swap {a = a} {b = b} {l = l} e f) d =
    insert_comm a b (sort_by_name l) (ground arith) ∙ cc (e, f)
sort_by_name-Permᴰ (Permᴰ.trans p q) d =
    sort_by_name-Permᴰ p d
    ∙ sort_by_name-Permᴰ q (Distinct-Permᴰ (Permᴰ.map (λ (node : Node). node.name) p) d)

module _ (parse_addr : String → Option Addr) where
  -- An inventory stays valid when its servers are listed in another order.
  pub IsValid-Permᴰ :
      (inv : Inventory) {nodes : List Node}
      → Permᴰ inv.nodes nodes
      → IsValid parse_addr inv
      → IsValid parse_addr (record inv { nodes = nodes })
  IsValid-Permᴰ inv {nodes} p v = record {
    topology_ok = v.topology_ok;
    one_or_three = subst (λ n. (n ≡ 1) ⊎ (n ≡ 3)) (length-Permᴰ p) v.one_or_three;
    bootstrap_named = v.bootstrap_named;
    all_named = All-Permᴰ Named p v.all_named;
    names_distinct = Distinct-Permᴰ (Permᴰ.map (λ (node : Node). node.name) p) v.names_distinct;
    all_reachable = All-Permᴰ (IsReachable parse_addr) p v.all_reachable;
    addresses_distinct = Distinct-Permᴰ (Permᴰ.map (canonical parse_addr) p) v.addresses_distinct;
    bootstrap_listed =
        sym (contains-Permᴰ inv.bootstrap_node (Permᴰ.map (λ (node : Node). node.name) p))
        ∙ v.bootstrap_listed;
  }

  -- Two inventories that differ only in the order of their servers have one fingerprint, whatever
  -- the encoding and the digest.
  pub fingerprint-Permᴰ :
      (marshal : Inventory → Option String) (sha256_hex : String → String) (inv : Inventory)
      {nodes : List Node}
      → IsValid parse_addr inv
      → Permᴰ inv.nodes nodes
      → fingerprint parse_addr marshal sha256_hex (record inv { nodes = nodes })
        ≡ fingerprint parse_addr marshal sha256_hex inv
  unfolding fingerprint
  fingerprint-Permᴰ marshal sha256_hex inv {nodes} v p =
      let valid = (inventory_validate_iff parse_addr inv).1 v in
      let valid' = (inventory_validate_iff parse_addr _).1 (IsValid-Permᴰ inv p v) in
      rw (valid, valid', sort_by_name-Permᴰ p v.names_distinct)
