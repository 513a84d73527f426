-- ===== src/Topology/Bootstrap/Rerun.antt =====
-- When a rerun of the staged installation is let through.
use mathlib.Core.List.{Permᴰ}
use appliance_ctl.Common.{
  String, eq_iff, false, Option, List, ◌≡◌, refl, ◌∙◌, sym, ap, ◌↔◌, ◌⊎◌, arith, Result, ok, err,
  ◌>>=◌, >>=-eq-ok, ◌≤◌,
}
use appliance_ctl.Common.Text.{is_blank}
use appliance_ctl.Topology.Inventory.{Inventory, Node, Addr}
use appliance_ctl.Topology.Inventory.Valid.{IsValid}
use appliance_ctl.Topology.Inventory.Fingerprint.{fingerprint}
use appliance_ctl.Topology.Inventory.Fingerprint.Canonical.{fingerprint-Permᴰ}
use appliance_ctl.Topology.Bootstrap.{
  BootstrapState, Inputs, validate, lift, matches_substrate, matches, phase_prepared,
  phase_server_ready, phase_joined, phase_finalized, check_substrate, check_release,
}

lift-eq-ok : (m : Result _ String) {found : String} → lift m ≡ ok found → m ≡ ok found
unfolding lift
lift-eq-ok (ok a) h = ground arith
lift-eq-ok (err e) h = cc

-- Every input that the receipt binds is the receipt's.
pub record SameSubstrate (s : BootstrapState) (i : Inputs) : Type 0 where
  pub same_k3s : s.k3s_version ≡ i.k3s_version
  pub same_node : s.local_node ≡ i.node_name
  pub same_name : s.appliance_name ≡ i.appliance_name
  pub same_profile : s.appliance_profile ≡ i.appliance_profile
  pub same_zone : s.dns_zone ≡ i.dns_zone

check_substrate_iff :
    (s : BootstrapState) (i : Inputs) (found : String)
    → (check_substrate s i found ≡ ok tt) ↔ ((s.inventory_fingerprint ≡ found) × SameSubstrate s i)
unfolding check_substrate
check_substrate_iff s i found = (
  λ h. ground (
    arith,
    eq_iff s.inventory_fingerprint found,
    eq_iff s.k3s_version i.k3s_version,
    eq_iff s.local_node i.node_name,
    eq_iff s.appliance_name i.appliance_name,
    eq_iff s.appliance_profile i.appliance_profile,
    eq_iff s.dns_zone i.dns_zone,
  ),
  λ h. ground (
    arith,
    eq_iff s.inventory_fingerprint found,
    eq_iff s.k3s_version i.k3s_version,
    eq_iff s.local_node i.node_name,
    eq_iff s.appliance_name i.appliance_name,
    eq_iff s.appliance_profile i.appliance_profile,
    eq_iff s.dns_zone i.dns_zone,
  ),
)

check_release_iff :
    (s : BootstrapState) (i : Inputs)
    → (check_release s i ≡ ok tt)
      ↔ ((s.release_id ≡ i.release_id) × (s.bundle_version ≡ i.bundle_version))
unfolding check_release
check_release_iff s i = (
  λ h. ground (arith, eq_iff s.release_id i.release_id, eq_iff s.bundle_version i.bundle_version),
  λ h. ground (arith, eq_iff s.release_id i.release_id, eq_iff s.bundle_version i.bundle_version),
)

module _ (parse_addr : String → Option Addr) (marshal : Inventory → Option String)
    (sha256_hex : String → String) where
  -- A rerun is let through exactly when the receipt is valid, the inventory has the recorded
  -- fingerprint, and the K3s version, the node, the appliance's name, profile and zone, the
  -- release and the bundle are the recorded ones.
  pub matches_iff :
      (s : BootstrapState) (inv : Inventory) (i : Inputs)
      → (matches parse_addr marshal sha256_hex s inv i ≡ ok tt) ↔ (
          (validate s ≡ ok tt)
          × (fingerprint parse_addr marshal sha256_hex inv ≡ ok s.inventory_fingerprint)
          × SameSubstrate s i
          × (s.release_id ≡ i.release_id)
          × (s.bundle_version ≡ i.bundle_version))
  unfolding matches matches_substrate lift
  matches_iff s inv i = (
    λ h.
        let (_, m, r) =
          >>=-eq-ok (matches_substrate parse_addr marshal sha256_hex s inv i)
            (λ _. check_release s i) h in
        let (_, v, m') =
          >>=-eq-ok (validate s)
            (λ _. lift (fingerprint parse_addr marshal sha256_hex inv) >>= check_substrate s i) m in
        let (found, f, c) =
          >>=-eq-ok (lift (fingerprint parse_addr marshal sha256_hex inv)) (check_substrate s i)
            m' in
        let (same, rest) = (check_substrate_iff s i found).0 c in
        let release = (check_release_iff s i).0 r in
        (v, lift-eq-ok _ f ∙ ap ok (sym same), rest, release.0, release.1),
    λ h.
        rw (h.0, h.1, (check_substrate_iff s i s.inventory_fingerprint).1 (refl, h.2))
          ((check_release_iff s i).1 (h.3, h.4)),
  )

  -- A rerun with the servers listed in another order is treated alike.
  pub matches-Permᴰ :
      (s : BootstrapState) (inv : Inventory) (i : Inputs) {nodes : List Node}
      → IsValid parse_addr inv
      → Permᴰ inv.nodes nodes
      → matches parse_addr marshal sha256_hex s (record inv { nodes = nodes }) i
        ≡ matches parse_addr marshal sha256_hex s inv i
  unfolding matches matches_substrate
  matches-Permᴰ s inv i v p = rw (fingerprint-Permᴰ parse_addr marshal sha256_hex inv v p)

-- In a valid receipt the phase is one of the four, a node that only has been prepared or started
-- has no UID, one that has joined has a UID that is not blank, and the receipt was not updated
-- before it was created.
pub validate-phase :
    (s : BootstrapState)
    → validate s ≡ ok tt
    → (((s.phase ≡ phase_prepared) ⊎ (s.phase ≡ phase_server_ready)) × (s.node_uid ≡ "")
        ⊎ ((s.phase ≡ phase_joined) ⊎ (s.phase ≡ phase_finalized)) × (is_blank s.node_uid ≡ false))
      × (s.created_at ≤ s.updated_at)
unfolding validate
validate-phase s h = ground (
  arith,
  eq_iff s.phase phase_prepared,
  eq_iff s.phase phase_server_ready,
  eq_iff s.phase phase_joined,
  eq_iff s.phase phase_finalized,
  eq_iff s.node_uid "",
)
