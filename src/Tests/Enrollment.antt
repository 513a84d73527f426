-- ===== src/Tests/Enrollment.antt =====
-- internal/cluster/enrollment.go and the store of the bootstrap receipt on concrete inputs.
use appliance_ctl.Common.{
  String, ◌<>◌, ◌==◌, eq_iff, arith, true, ◌&&◌, Option, none, some, List, [], ◌∷◌, All, ok, err,
  ◌≡◌, ◌≢◌, refl,
}
use appliance_ctl.Common.Text.{
  is_blank, is_hex, has_digest_shape, trim_prefix, count, trim_space, is_node_name, is_digest,
}
use appliance_ctl.Cluster.Enrollment.{
  Enrollment, Crypto, fingerprint, unsigned, check_binding, check_period, check_target,
  check_signature, sign_with, validate, verification_failed,
}
use appliance_ctl.Cluster.Enrollment.Authentic.{
  IsTrusted, signed_artifact, validate-IsTrusted, sign_with-validate,
}
use appliance_ctl.Cluster.Enrollment.Signer.{
  Attempt, Opened, taken, created, invalid_key_file, read_key, generate_key, open_key, attempt,
  load_or_create_signer,
}
use appliance_ctl.Cluster.Enrollment.Stable.{Generates, load_or_create_signer-again}
use appliance_ctl.Cluster.Servers.{validate_api_endpoints}
use appliance_ctl.Cluster.Servers
use appliance_ctl.Cluster.Servers.Reachable.{Answers, validate_api_endpoints-Answers}
use appliance_ctl.Cluster.Nodes.{Kubectl, items}
use appliance_ctl.Topology.Inventory.{endpoint, api_endpoints, embedded_etcd_v1}
use appliance_ctl.Topology.Inventory
use appliance_ctl.Topology.Bootstrap.{BootstrapState, phase_prepared}
use appliance_ctl.Topology.Bootstrap
use appliance_ctl.Topology.Bootstrap.Store.{Parsed, load, save, save-load}
use appliance_ctl.Lifecycle.Atomic.{Disk, Outcomes, write_file_atomic}
use appliance_ctl.Tests.Data.{parse_addr, three_servers}

-- Byte strings as texts: a 64-character private key, of which the public key is a fixed text, and
-- a signature that names what it signs by the digest.
abbrev digits : String
digits = "0123456789abcdef0123456789abcdef0123456789abcdef0123456789abcdef"

abbrev public_key : String
public_key = "public-key-of-32-characters-long"

abbrev crypto : Crypto String
crypto = record {
  size = count;
  public_of = λ private. public_key;
  sign = λ private payload. digits;
  verify = λ public payload signature. public == public_key && signature == digits;
  encode = λ b. b;
  decode = λ s. some s;
  marshal = λ e. some (e.expected_node_name <> e.k3s_token);
  hash_bytes = λ b. "sha256:" <> digits;
  bytes_of = λ s. s;
  parse_url = λ s.
      some
        (record { scheme = "https"; host = "10.0.0.2:6443"; hostname = "10.0.0.2"; port = "6443" });
}

abbrev request : Enrollment
request = record {
  version = 1;
  cluster_id = "c1";
  appliance_name = "box";
  appliance_profile = "edge";
  dns_zone = "";
  control_plane_node = "bravo";
  node_role = "worker";
  deployment_topology = "";
  inventory_fingerprint = "";
  release_id = "r7";
  release_version = "1.4.0";
  control_endpoint = "https://10.0.0.2:6443";
  cluster_ca_hash = "sha256:" <> digits;
  expected_node_name = "delta";
  k3s_token = "K10token";
  token_fingerprint = "sha256:" <> digits;
  issued_at = 1000;
  expires_at = 3600000001000;
  nonce = "n1";
  signer_public_key = "";
  signature = "";
}

abbrev payload : String
payload = "deltaK10token"

abbrev artifact : Enrollment
artifact = signed_artifact crypto digits payload request

abbrev signer : String
signer = "sha256:" <> digits

sign_with-validate_example :
    (sign_with crypto digits request ≡ ok artifact)
    × (validate crypto artifact 2000 (fingerprint crypto public_key) ≡ ok tt)
unfolding check_binding check_period check_target is_hex trim_prefix has_digest_shape is_blank
    unsigned fingerprint
sign_with-validate_example =
    sign_with-validate crypto digits payload request 2000
      (record {
        private_size = refl;
        public_size = refl;
        signature_size = refl;
        public_decodes = refl;
        signature_decodes = refl;
        verifies = refl;
      })
      refl refl refl refl refl

artifact_valid : validate crypto artifact 2000 signer ≡ ok tt
unfolding validate check_binding check_period check_target check_signature is_hex trim_prefix
    has_digest_shape is_blank unsigned fingerprint
artifact_valid = refl

validate-IsTrusted_example : IsTrusted crypto artifact 2000 signer
validate-IsTrusted_example = validate-IsTrusted crypto artifact 2000 signer artifact_valid

-- An artifact with another signature is refused.
forged :
    validate crypto
      (record artifact {
        signature = "f" <> "123456789abcdef0123456789abcdef0123456789abcdef0123456789abcdef";
      })
      2000
      signer
    ≡ err verification_failed
unfolding validate check_binding check_period check_target check_signature is_hex trim_prefix
    has_digest_shape is_blank unsigned fingerprint
forged = refl

abbrev all_answer : Kubectl
all_answer = record {
  get_nodes = items [];
  get_kubelet_version = λ name. none;
  get_readyz = λ e. some "ok\n";
}

endpoints_ready :
    validate_api_endpoints parse_addr (some all_answer) "/etc/kubeconfig" three_servers ≡ ok tt
unfolding validate_api_endpoints Servers.configured Servers.check_endpoints api_endpoints
    Inventory.validate is_blank trim_space is_node_name
endpoints_ready = refl

validate_api_endpoints-Answers_example :
    All (λ node. Answers all_answer (endpoint node)) three_servers.nodes
validate_api_endpoints-Answers_example =
    validate_api_endpoints-Answers parse_addr all_answer "/etc/kubeconfig" three_servers
      endpoints_ready

abbrev receipt : BootstrapState
receipt = record {
  schema_version = 1;
  topology = embedded_etcd_v1;
  inventory_fingerprint = "sha256:" <> digits;
  cluster_id = "c1";
  appliance_name = "box";
  appliance_profile = "edge";
  dns_zone = "box.lan";
  release_id = "r7";
  bundle_version = "1.4.0";
  k3s_version = "v1.30.2+k3s1";
  local_node = "alpha";
  phase = phase_prepared;
  node_uid = "";
  enrollment_signer_fingerprint = "";
  created_at = 10;
  updated_at = 20;
}

abbrev all_work : Outcomes
all_work = record {
  mkdir_ok = true;
  create_ok = true;
  write_ok = true;
  written = "";
  sync_ok = true;
  close_ok = true;
  chmod_ok = true;
  rename_ok = true;
  remove_ok = true;
}

abbrev marshal : BootstrapState → Option String
marshal s = some "{}"

abbrev parse : String → Option Parsed
parse text = some (record { state = receipt; at_end = true })

abbrev empty_disk : Disk
empty_disk p = none

abbrev temporary : String
temporary = "/s/.tmp-1"

abbrev receipt_path : String
receipt_path = "/s/bootstrap.json"

other_name : ◌≢◌ {A = String} temporary receipt_path
other_name = ground (arith, eq_iff temporary receipt_path)

save-load_example :
    load marshal parse true true receipt_path
      (save marshal parse true true all_work temporary receipt_path receipt empty_disk).final
    ≡ ok (some receipt)
unfolding save Bootstrap.validate is_blank is_node_name is_digest write_file_atomic
save-load_example =
    save-load marshal parse true true all_work temporary receipt_path "{}" receipt empty_disk
      other_name (refl, refl) refl

-- The first run of the body finds no file, but cannot create it, since another process has.
abbrev met : Opened → Attempt String
met opened = record {
  readable = true;
  mkdir_ok = true;
  generated = some digits;
  opened = opened;
  write_ok = true;
  written = "";
  close_ok = true;
  remove_ok = true;
}

abbrev racing : List (Attempt String)
racing = met (taken digits) ∷ met created ∷ []

abbrev no_files : Disk
no_files path = none

racing-Generates : Generates crypto "/key" (digits, "sha256:" <> digits) racing
racing-Generates =
    let sized : count digits ≡ 64 = refl in
    ((λ private e. (refl, cc)), ((λ private e. (refl, cc)), tt))

-- A process that dies behind the creation of the file leaves a key file that no call accepts.
empty_key_file :
    (load_or_create_signer crypto racing "/key" (λ path. some "")).1 ≡ some (err invalid_key_file)
unfolding load_or_create_signer attempt read_key
empty_key_file = refl

load_or_create_signer-again_example :
    load_or_create_signer crypto
      (met created ∷ [])
      "/key"
      (load_or_create_signer crypto racing "/key" no_files).0
    ≡ (
      (load_or_create_signer crypto racing "/key" no_files).0,
      some (ok (digits, "sha256:" <> digits)),
    )
unfolding load_or_create_signer attempt read_key generate_key open_key fingerprint
load_or_create_signer-again_example =
    load_or_create_signer-again crypto "/key" (digits, "sha256:" <> digits) racing no_files
      (met created) [] racing-Generates refl refl
