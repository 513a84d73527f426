-- ===== src/Verify/Artifacts.antt =====
-- internal/verify/artifacts.go: VerifyArtifacts. The loop returns the checks and the failures that
-- its iterations append.
pub mod Accepted
use appliance_ctl.Common.{
  String, ◌<>◌, ◌==◌, ℕ, Bool, true, false, if◌then◌else◌, Option, none, some, List, [], ◌∷◌, ◌++◌,
  length, Result, ok, err,
}
use appliance_ctl.Common.Text.{join}
use appliance_ctl.Evidence.{Check, Status, pass, fail}
use appliance_ctl.Evidence.Sanitize.{sanitize_id_segment}
use appliance_ctl.Verify.{Host, PublicKey, verify_digest, verify_size, verify_file_signature}

pub record Artifact : Type 0 where
  pub name : String
  pub path : String
  pub expected_digest : String
  pub expected_size_bytes : ℕ
  pub signature_path : String

-- What a function that never stops at a failure returns: the checks, and the joined failures.
pub record Report : Type 0 where
  pub checks : List Check
  pub failures : List String

abbrev pub check_of : String → String → Status → String → Check
check_of id category status message = record {
  id = id;
  category = category;
  status = status;
  message = message;
  remediation = "";
}

-- One check, with a failure when the test of the file failed.
unfoldable pub reported : String → String → String → Result String (Unit {0}) → String → Report
reported name id category (err e) message = record {
  checks = check_of id category fail e ∷ [];
  failures = (name <> ": " <> e) ∷ [];
}
reported name id category (ok _) message = record {
  checks = check_of id category pass message ∷ [];
  failures = [];
}

unfoldable pub also : Report → Report → Report
also r s = record { checks = r.checks ++ s.checks; failures = r.failures ++ s.failures }

unfoldable pub nothing : Report
nothing = record { checks = []; failures = [] }

-- The error of the functions that collect failures: `problem` stands behind their number, behind
-- the name of the package.
unfoldable pub joined_error : (ℕ → String) → String → String → List String → Option String
joined_error decimal package_name problem [] = none
joined_error decimal package_name problem (f ∷ fs) =
    some (package_name <> ": " <> decimal (length (f ∷ fs)) <> problem <> join "\n" (f ∷ fs))

module _ {B : Type 0} (host : Host B) where
  -- The check of the signature, against the key if one was supplied.
  unfoldable pub check_signature : Option (PublicKey B) → Artifact → Report
  unfolding reported
  check_signature none a = record {
    checks =
        check_of (sanitize_id_segment a.name <> "-signature") "security" fail
          (a.name <> " has a signature but no verification key was supplied")
        ∷ [];
    failures = (a.name <> ": no public key supplied to verify signature") ∷ [];
  }
  check_signature (some pub_key) a =
      reported a.name (sanitize_id_segment a.name <> "-signature") "security"
        (verify_file_signature host pub_key a.path a.signature_path)
        (a.name <> " signature verifies against key " <> host.quote pub_key.id)

  -- The check of the digest.
  unfoldable pub check_digest : Artifact → Report
  unfolding reported
  check_digest a =
      reported a.name (sanitize_id_segment a.name <> "-digest") "manifest"
        (verify_digest host a.path a.expected_digest)
        (a.name <> " digest matches " <> a.expected_digest)

  -- The check of the size.
  unfoldable pub check_size : Artifact → Report
  unfolding reported
  check_size a =
      reported a.name (sanitize_id_segment a.name <> "-size") "manifest"
        (verify_size host a.path a.expected_size_bytes)
        (a.name <> " size matches " <> host.decimal a.expected_size_bytes <> " bytes")

  -- The body of the loop.
  unfoldable pub verify_artifact : Option (PublicKey B) → Artifact → Report
  unfolding also nothing check_digest check_size check_signature
  verify_artifact key a =
      also (check_digest a)
        (also (check_size a) (if a.signature_path == "" then nothing else check_signature key a))

  unfoldable pub verify_each : Option (PublicKey B) → List Artifact → Report
  unfolding also nothing verify_artifact
  verify_each key [] = nothing
  verify_each key (a ∷ rest) = also (verify_artifact key a) (verify_each key rest)

  -- `VerifyArtifacts`
  unfoldable pub verify_artifacts :
      Option (PublicKey B) → List Artifact → List Check × Option String
  unfolding verify_each joined_error
  verify_artifacts key artifacts =
      let r = verify_each key artifacts in
      (r.checks, joined_error host.decimal "verify" " artifact check(s) failed: " r.failures)
