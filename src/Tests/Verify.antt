-- ===== src/Tests/Verify.antt =====
-- The checks of files on concrete inputs.
use appliance_ctl.Common.{
  String, ◌==◌, eqb, ◌&&◌, if◌then◌else◌, Option, none, some, [], ◌∷◌, ok, err, ◌≡◌, refl, inl, inr,
  arith,
}
use Prim.Native.String.{len}
use appliance_ctl.Evidence.Sanitize.{sanitize_id_segment}
use appliance_ctl.Verify.{Host, PublicKey, open_error}
use appliance_ctl.Verify.Artifacts.{Artifact, verify_artifacts}
use appliance_ctl.Verify.Artifacts.Accepted.{verify_artifacts_iff}
use appliance_ctl.Verify.Provenance.{ProvenanceStatement, verify_provenance}
use appliance_ctl.Verify.Provenance.Attested.{verify_provenance_iff}
use appliance_ctl.Verify.Vulnerability.{
  Finding, Exception, severity_high, evaluate_vulnerability_policy,
}
use appliance_ctl.Verify.Vulnerability.Covered.{evaluate_vulnerability_policy_iff}

sanitized_reference : sanitize_id_segment "--Registry.local//App:1.0_" ≡ "registry-local-app-1-0"
unfolding sanitize_id_segment
sanitized_reference = refl

abbrev pub key_bytes : String
key_bytes = "0123456789abcdef0123456789abcdef"

abbrev pub signature_bytes : String
signature_bytes = "0123456789abcdef0123456789abcdef0123456789abcdef0123456789abcdef"

abbrev pub read : String → Option String
read path =
    if path == "/media/app.tar"
    then some "payload"
    else if path == "/media/app.tar.sig"
    then some signature_bytes
    else none

abbrev pub not_found : String
not_found = "no such file or directory"

abbrev pub host_of : (String → Option String) → Host String
host_of files = record {
  contents = λ path. elim (files path) [ none ↦ err (open_error not_found) | some s ↦ ok s ];
  size = λ path. elim (files path) [ none ↦ err not_found | some s ↦ ok (len s) ];
  read_file = λ path. elim (files path) [ none ↦ err not_found | some s ↦ ok s ];
  sha256_hex = λ s. if s == "payload" then "ab12" else "00ff";
  len = len;
  ed25519_verify =
      λ key message sig. key == key_bytes && message == "payload" && sig == signature_bytes;
  ed25519_sign = λ key message. signature_bytes;
  ed25519_key_from_seed = λ seed. seed;
  pem_decode = λ s. some s;
  parse_pkix = λ s. none;
  parse_pkcs8 = λ s. none;
  decimal = λ n. if eqb n 7 then "7" else "many";
  quote = λ s. s;
}

abbrev release_key : PublicKey String
release_key = record { id = "release"; key = key_bytes }

abbrev image : Artifact
image = record {
  name = "app";
  path = "/media/app.tar";
  expected_digest = "sha256:ab12";
  expected_size_bytes = 7;
  signature_path = "/media/app.tar.sig";
}

verify_artifacts_iff_example :
    (verify_artifacts (host_of read) (some release_key) (image ∷ [])).1 ≡ none
verify_artifacts_iff_example =
    (verify_artifacts_iff (host_of read) (some release_key) (image ∷ [])).0.1 (
      (
        ("payload", refl, refl),
        (refl, inr ("payload", signature_bytes, refl, refl, refl, refl, refl)),
      ),
      tt,
    )

abbrev statement : ProvenanceStatement
statement = record {
  builder_id = "ci";
  subjects =
      record {
        name = "app";
        digest = λ algorithm. if algorithm == "sha256" then some "ab12" else none;
      }
      ∷ [];
}

verify_provenance_iff_example :
    verify_provenance (λ s. s) statement ("ci" ∷ []) "app" "sha256:ab12" ≡ ok tt
verify_provenance_iff_example =
    (verify_provenance_iff (λ s. s) "app" "sha256:ab12" statement ("ci" ∷ [])).1
      (refl, inl (refl, refl))

abbrev cve : Finding
cve = record { id = "CVE-2026-1"; package_name = "openssl"; severity = severity_high }

abbrev waiver : Exception
waiver = record {
  id = "CVE-2026-1";
  reason = "not reachable";
  expires_at = 20;
  signed_by = "security";
}

evaluate_vulnerability_policy_iff_example :
    (evaluate_vulnerability_policy
      (λ n. "")
      (λ s. s)
      (λ t. "")
      ("security" ∷ [])
      severity_high
      10
      (cve ∷ [])
      (record waiver { expires_at = 5 } ∷ waiver ∷ [])).1
    ≡ none
evaluate_vulnerability_policy_iff_example =
    (evaluate_vulnerability_policy_iff (λ n. "") (λ s. s) (λ t. "") ("security" ∷ []) severity_high
        10 (cve ∷ []) (record waiver { expires_at = 5 } ∷ waiver ∷ [])).0.1
      (inr (waiver, inl (inr (refl, refl, tt)), (refl, omega arith)), tt)
