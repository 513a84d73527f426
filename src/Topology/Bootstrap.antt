-- ===== src/Topology/Bootstrap.antt =====
-- internal/clustertopology/bootstrap_state.go: the receipt of a staged, unfinished cluster.
-- A timestamp is its number of nanoseconds since the zero time, which `IsZero` tests.
pub mod Rerun
pub mod Store
use appliance_ctl.Common.{
  String, ◌==◌, Bool, false, not, ◌&&◌, ◌||◌, Option, List, [], ◌∷◌, ℕ, eqb, ltb, Result, ok, err,
  ◌>>=◌, ◌>>◌, fail_if, if◌then◌else◌,
}
use appliance_ctl.Common.Text.{is_blank, is_node_name, is_digest}
use appliance_ctl.Topology.Inventory.{Inventory, Addr, embedded_etcd_v1}
use appliance_ctl.Topology.Inventory
use appliance_ctl.Topology.Inventory.Fingerprint.{fingerprint}

pub record BootstrapState : Type 0 where
  pub schema_version : ℕ
  pub topology : String
  pub inventory_fingerprint : String
  pub cluster_id : String
  pub appliance_name : String
  pub appliance_profile : String
  pub dns_zone : String
  pub release_id : String
  pub bundle_version : String
  pub k3s_version : String
  pub local_node : String
  pub phase : String
  pub node_uid : String
  pub enrollment_signer_fingerprint : String
  pub created_at : ℕ
  pub updated_at : ℕ

abbrev pub bootstrap_state_version : ℕ
bootstrap_state_version = 1

abbrev pub phase_prepared : String
phase_prepared = "prepared"

abbrev pub phase_server_ready : String
phase_server_ready = "server-ready"

abbrev pub phase_joined : String
phase_joined = "joined"

abbrev pub phase_finalized : String
phase_finalized = "finalized"

-- The messages of the file. Which of several blank fields `field_required` quotes follows Go's
-- map order, so it is left out.
pub data Error : Type 0 where
  unsupported_schema bad_inventory_fingerprint field_required bad_local_node : Error
  bad_signer_fingerprint unexpected_uid uid_required unknown_phase bad_timestamps : Error
  inputs_differ : Error
  inventory_error : Inventory.Error → Error

-- The loop over the required fields.
abbrev pub any_blank : List String → Bool
any_blank [] = false
any_blank (value ∷ rest) = is_blank value || any_blank rest

abbrev pub required_fields : BootstrapState → List String
required_fields s =
    s.cluster_id ∷ s.appliance_name ∷ s.appliance_profile ∷ s.dns_zone ∷ s.release_id
    ∷ s.bundle_version ∷ s.k3s_version ∷ s.local_node ∷ []

-- The `switch` on the phase.
unfoldable pub check_phase : BootstrapState → Result Error (Unit {0})
check_phase s =
    if s.phase == phase_prepared || s.phase == phase_server_ready
    then fail_if (not (s.node_uid == "")) unexpected_uid
    else if s.phase == phase_joined || s.phase == phase_finalized
    then fail_if (is_blank s.node_uid) uid_required
    else err unknown_phase

-- `BootstrapState.Validate`
unfoldable pub validate : BootstrapState → Result Error (Unit {0})
unfolding check_phase
validate s = do
  fail_if
      (not (eqb s.schema_version bootstrap_state_version) || not (s.topology == embedded_etcd_v1))
      unsupported_schema
  fail_if (not (is_digest s.inventory_fingerprint)) bad_inventory_fingerprint
  fail_if (any_blank (required_fields s)) field_required
  fail_if (not (is_node_name s.local_node)) bad_local_node
  fail_if
      (not (s.enrollment_signer_fingerprint == "")
        && not (is_digest s.enrollment_signer_fingerprint))
      bad_signer_fingerprint
  check_phase s
  fail_if (eqb s.created_at 0 || eqb s.updated_at 0 || ltb s.updated_at s.created_at) bad_timestamps

-- What a rerun is asked to do on a staged host.
pub record Inputs : Type 0 where
  pub release_id : String
  pub bundle_version : String
  pub k3s_version : String
  pub node_name : String
  pub appliance_name : String
  pub appliance_profile : String
  pub dns_zone : String

pub lift : Result Inventory.Error String → Result Error String
lift (ok a) = ok a
lift (err e) = err (inventory_error e)

-- The comparison in `MatchesSubstrate`, with the inventory's fingerprint.
unfoldable pub check_substrate : BootstrapState → Inputs → String → Result Error (Unit {0})
check_substrate s i found =
    fail_if
      (not (s.inventory_fingerprint == found)
        || not (s.k3s_version == i.k3s_version)
        || not (s.local_node == i.node_name)
        || not (s.appliance_name == i.appliance_name)
        || not (s.appliance_profile == i.appliance_profile)
        || not (s.dns_zone == i.dns_zone))
      inputs_differ

-- The comparison in `Matches`.
unfoldable pub check_release : BootstrapState → Inputs → Result Error (Unit {0})
check_release s i =
    fail_if (not (s.release_id == i.release_id) || not (s.bundle_version == i.bundle_version))
      inputs_differ

module _ (parse_addr : String → Option Addr) (marshal : Inventory → Option String)
    (sha256_hex : String → String) where
  -- `MatchesSubstrate`
  unfoldable pub matches_substrate : BootstrapState → Inventory → Inputs → Result Error (Unit {0})
  matches_substrate s inv i = do
    validate s
    found ← lift (fingerprint parse_addr marshal sha256_hex inv)
    check_substrate s i found

  -- `Matches`
  unfoldable pub matches : BootstrapState → Inventory → Inputs → Result Error (Unit {0})
  matches s inv i = do matches_substrate s inv i; check_release s i
