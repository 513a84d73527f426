-- ===== src/Verify/Provenance.antt =====
-- internal/verify/provenance.go: LoadProvenanceStatement and VerifyProvenance. The digests of a
-- subject, a map from algorithms, are a function; encoding/json is the argument `unmarshal`.
pub mod Attested
use appliance_ctl.Common.{
  String, ◌<>◌, ◌==◌, Bool, not, if◌then◌else◌, Option, none, some, List, [], ◌∷◌, contains, Result,
  ok, err, ◌>>=◌, ◌>>◌, fail_if,
}
use appliance_ctl.Verify.{Host, wrap}

pub record ProvenanceSubject : Type 0 where
  pub name : String
  pub digest : String → Option String

pub record ProvenanceStatement : Type 0 where
  pub builder_id : String
  pub subjects : List ProvenanceSubject

-- `LoadProvenanceStatement`
unfoldable pub load_provenance_statement :
    {B : Type 0} (host : Host B) (unmarshal : B → Result String ProvenanceStatement)
    → String
    → Result String ProvenanceStatement
load_provenance_statement host unmarshal path = do
  data_ ← wrap ("verify: read provenance " <> path) (host.read_file path)
  wrap ("verify: parse provenance " <> path) (unmarshal data_)

module _ (quote : String → String) where
  -- The body of the loop for the subject of the name.
  unfoldable pub check_subject : String → String → Option String → Result String (Unit {0})
  check_subject name actual none =
      err ("verify: provenance subject " <> quote name <> " has no sha256 digest")
  check_subject name actual (some hex_digest) =
      fail_if (not (("sha256:" <> hex_digest) == actual)) (
        "verify: provenance subject "
        <> quote name
        <> " digest sha256:"
        <> hex_digest
        <> " does not match artifact digest "
        <> actual)

  unfoldable pub check_subjects :
      List ProvenanceSubject → String → String → Result String (Unit {0})
  unfolding check_subject
  check_subjects [] name actual =
      err ("verify: provenance statement has no subject named " <> quote name)
  check_subjects (s ∷ rest) name actual =
      let later = check_subjects rest name actual in
      if s.name == name then check_subject name actual (s.digest "sha256") else later

  -- `VerifyProvenance`
  unfoldable pub verify_provenance :
      ProvenanceStatement → List String → String → String → Result String (Unit {0})
  unfolding check_subjects
  verify_provenance stmt allowed name actual = do
    fail_if (not (contains stmt.builder_id allowed))
        ("verify: provenance builder identity " <> quote stmt.builder_id <> " is not allowlisted")
    check_subjects stmt.subjects name actual
