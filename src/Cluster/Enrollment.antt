-- ===== src/Cluster/Enrollment.antt =====
-- internal/cluster/enrollment.go: the signed authorization of one node to join. `Crypto` holds the
-- calls of crypto/ed25519, encoding/base64, encoding/json, crypto/sha256 and net/url; a byte string
-- is a value of the section's type. A time is a number of nanoseconds.
pub mod Authentic
pub mod Files
pub mod Signer
pub mod Stable
use appliance_ctl.Common.{
  String, ◌<>◌, ◌==◌, ℕ, ◌+◌, ltb, eqb, Bool, true, false, not, ◌&&◌, ◌||◌, Option, none, some,
  List, [], ◌∷◌, Result, ok, err, ◌>>=◌, ◌>>◌, fail_if, from_option, if◌then◌else◌,
}
use appliance_ctl.Common.Text.{is_empty, is_blank, is_hex, has_digest_shape, trim_prefix}
use appliance_ctl.State.Endpoints.{Url}

pub record Enrollment : Type 0 where
  pub version : ℕ
  pub cluster_id : String
  pub appliance_name : String
  pub appliance_profile : String
  pub dns_zone : String
  pub control_plane_node : String
  pub node_role : String
  pub deployment_topology : String
  pub inventory_fingerprint : String
  pub release_id : String
  pub release_version : String
  pub control_endpoint : String
  pub cluster_ca_hash : String
  pub expected_node_name : String
  pub k3s_token : String
  pub token_fingerprint : String
  pub issued_at : ℕ
  pub expires_at : ℕ
  pub nonce : String
  pub signer_public_key : String
  pub signature : String

-- The messages. Which of several empty fields `field_required` quotes follows Go's map order, so
-- it is left out.
pub data Problem : Type 0 where
  not_version_1 not_embedded_etcd invalid_private_key not_marshalled : Problem
  unsupported_version legacy_topology invalid_binding invalid_inventory_fingerprint : Problem
  field_required expired_or_early too_long legacy_role invalid_ca_hash invalid_endpoint : Problem
  token_mismatch invalid_public_key signer_required unexpected_signer invalid_signature : Problem
  verification_failed : Problem

abbrev pub enrollment_version : ℕ
enrollment_version = 1

abbrev pub embedded_etcd_enrollment_version : ℕ
embedded_etcd_enrollment_version = 2

-- Five minutes and 24 hours.
abbrev pub clock_skew : ℕ
clock_skew = 300000000000

abbrev pub max_validity : ℕ
max_validity = 86400000000000

pub record Crypto (Bytes : Type 0) : Type 0 where
  pub size : Bytes → ℕ
  pub public_of : Bytes → Bytes
  pub sign : Bytes → Bytes → Bytes
  pub verify : Bytes → Bytes → Bytes → Bool
  pub encode : Bytes → String
  pub decode : String → Option Bytes
  pub marshal : Enrollment → Option Bytes
  pub hash_bytes : Bytes → String
  pub bytes_of : String → Bytes
  pub parse_url : String → Option Url

-- `Enrollment.unsigned`
unfoldable pub unsigned : Enrollment → Enrollment
unsigned e = record e { signature = "" }

-- The checks of `Validate` on the version and the topology that it binds.
unfoldable pub check_binding : Enrollment → Result Problem (Unit {0})
check_binding e = do
  fail_if
      (not (eqb e.version enrollment_version)
        && not (eqb e.version embedded_etcd_enrollment_version))
      unsupported_version
  fail_if
      (eqb e.version enrollment_version
        && (not (e.deployment_topology == "")
            || not (e.inventory_fingerprint == "")
            || not (e.dns_zone == "")))
      legacy_topology
  fail_if
      (eqb e.version embedded_etcd_enrollment_version
        && (not (e.deployment_topology == "embedded-etcd-v1")
            || not (e.node_role == "server")
            || is_blank e.dns_zone
            || not (has_digest_shape e.inventory_fingerprint)))
      invalid_binding
  fail_if
      (eqb e.version embedded_etcd_enrollment_version
        && not (is_hex (trim_prefix e.inventory_fingerprint "sha256:")))
      invalid_inventory_fingerprint

-- The loop over the required fields.
abbrev pub any_empty : List String → Bool
any_empty [] = false
any_empty (value ∷ rest) = is_empty value || any_empty rest

abbrev pub required_fields : Enrollment → List String
required_fields e =
    e.cluster_id ∷ e.appliance_name ∷ e.appliance_profile ∷ e.control_plane_node ∷ e.node_role
    ∷ e.release_id ∷ e.release_version ∷ e.control_endpoint ∷ e.cluster_ca_hash
    ∷ e.expected_node_name ∷ e.k3s_token ∷ e.token_fingerprint ∷ e.nonce ∷ e.signer_public_key
    ∷ e.signature ∷ []

-- The checks of `Validate` on the fields and the period.
unfoldable pub check_period : Enrollment → ℕ → Result Problem (Unit {0})
check_period e now = do
  fail_if (any_empty (required_fields e)) field_required
  fail_if (not (ltb now e.expires_at) || ltb (now + clock_skew) e.issued_at) expired_or_early
  fail_if (ltb (e.issued_at + max_validity) e.expires_at) too_long

module _ {Bytes : Type 0} (c : Crypto Bytes) where
  -- `Fingerprint`
  unfoldable pub fingerprint : Bytes → String
  fingerprint public = c.hash_bytes public

  -- `TokenFingerprint`
  unfoldable pub token_fingerprint_of : String → String
  token_fingerprint_of token = c.hash_bytes (c.bytes_of token)

  -- `err == nil && endpoint.Scheme == "https" && endpoint.Host != ""`
  abbrev pub is_https : String → Bool
  is_https endpoint = elim (c.parse_url endpoint) [
    | none ↦ false
    | some url ↦ url.scheme == "https" && not (is_empty url.host)
  ]

  -- The checks of `Validate` on what the node joins.
  unfoldable pub check_target : Enrollment → Result Problem (Unit {0})
  unfolding token_fingerprint_of
  check_target e = do
    fail_if
        (eqb e.version enrollment_version
          && not (e.node_role == "worker")
          && not (e.node_role == "inference")
          && not (e.node_role == "prime"))
        legacy_role
    fail_if (not (has_digest_shape e.cluster_ca_hash)) invalid_ca_hash
    fail_if (not (is_hex (trim_prefix e.cluster_ca_hash "sha256:"))) invalid_ca_hash
    fail_if (not (is_https e.control_endpoint)) invalid_endpoint
    fail_if (not (token_fingerprint_of e.k3s_token == e.token_fingerprint)) token_mismatch

  -- The checks of `Validate` on the signer and the signature.
  unfoldable pub check_signature : Enrollment → String → Result Problem (Unit {0})
  unfolding fingerprint
  check_signature e expected_key = do
    public ← from_option invalid_public_key (c.decode e.signer_public_key)
    fail_if (not (eqb (c.size public) 32)) invalid_public_key
    fail_if (is_blank expected_key) signer_required
    fail_if (not (fingerprint public == expected_key)) unexpected_signer
    signature ← from_option invalid_signature (c.decode e.signature)
    fail_if (not (eqb (c.size signature) 64)) invalid_signature
    payload ← from_option not_marshalled (c.marshal (unsigned e))
    fail_if (not (c.verify public payload signature)) verification_failed

  -- `Enrollment.Validate`
  unfoldable pub validate : Enrollment → ℕ → String → Result Problem (Unit {0})
  validate e now expected_key = do
    check_binding e
    check_period e now
    check_target e
    check_signature e expected_key

  -- `Enrollment.sign`
  unfoldable pub sign_with : Bytes → Enrollment → Result Problem Enrollment
  sign_with private e = do
    fail_if (not (eqb (c.size private) 64)) invalid_private_key
    let keyed = record e { signer_public_key = c.encode (c.public_of private) }
    payload ← from_option not_marshalled (c.marshal (unsigned keyed))
    ok (record keyed { signature = c.encode (c.sign private payload) })

  -- `Enrollment.Sign`
  unfoldable pub sign : Bytes → Enrollment → Result Problem Enrollment
  sign private e = do
    fail_if
        (not (e.deployment_topology == "")
          || not (e.inventory_fingerprint == "")
          || not (e.dns_zone == ""))
        not_version_1
    sign_with private (record e { version = enrollment_version })

  -- `Enrollment.SignEmbeddedEtcd`
  unfoldable pub sign_embedded_etcd : Bytes → Enrollment → Result Problem Enrollment
  sign_embedded_etcd private e = do
    fail_if
        (not (e.deployment_topology == "embedded-etcd-v1")
          || e.inventory_fingerprint == ""
          || not (e.node_role == "server"))
        not_embedded_etcd
    sign_with private (record e { version = embedded_etcd_enrollment_version })
