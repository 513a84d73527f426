-- ===== src/RecoverySet.antt =====
-- internal/recoveryset/recoveryset.go: the manifest of a recovery set and the check of its files.
-- path/filepath and what the file system holds are the fields of `Files`. A timestamp is its
-- number of nanoseconds since the zero time.
pub mod Intact
pub mod Store
use Prim.Native.String.{len}
use appliance_ctl.Common.{
  String, ◌==◌, ℕ, eqb, Bool, true, false, not, ◌&&◌, ◌||◌, Option, none, some, List, [], ◌∷◌, ◌++◌,
  Result, ok, err, ◌>>=◌, ◌>>◌, fail_if, if◌then◌else◌,
}
use appliance_ctl.Common.Text.{is_empty, is_hex, strip_prefix}

pub record Artifact : Type 0 where
  pub path : String
  pub sha256 : String

pub record DatabaseArtifact : Type 0 where
  pub engine : String
  pub format : String
  pub path : String
  pub sha256 : String

pub record Manifest : Type 0 where
  pub format : String
  pub id : String
  pub created_at : ℕ
  pub platform_version : String
  pub database : DatabaseArtifact
  pub configuration_archive : String
  pub configuration_sha256 : String
  pub artifacts : List Artifact

abbrev pub recovery_set_format : String
recovery_set_format = "zon.recovery-set/v1"

pub data Problem : Type 0 where
  invalid_identity invalid_database invalid_database_path invalid_database_checksum : Problem
  invalid_artifact invalid_artifact_checksum : Problem
  invalid_configuration : Problem → Problem
  unsafe_path not_regular checksum_mismatch : String → Problem

-- filepath.IsAbs, Clean and Join, whether a path is a regular file, and the checksum of a file
-- that can be read.
pub record Files : Type 0 where
  pub is_abs : String → Bool
  pub clean : String → String
  pub join : String → String → String
  pub is_regular : String → Bool
  pub checksum_file : String → Option String

-- `strings.HasPrefix(s, prefix)`
abbrev pub has_prefix : String → String → Bool
has_prefix s prefix = elim (strip_prefix prefix s) [ none ↦ false | some rest ↦ true ]

abbrev pub in_configuration : Result Problem (Unit {0}) → Result Problem (Unit {0})
in_configuration (err e) = err (invalid_configuration e)
in_configuration (ok a) = ok a

-- The entry of the database.
abbrev pub database_entry : Manifest → Artifact
database_entry m = record { path = m.database.path; sha256 = m.database.sha256 }

-- The entry of the configuration archive, if the manifest names one.
abbrev pub configuration_entries : Manifest → List Artifact
configuration_entries m =
    if m.configuration_archive == ""
    then []
    else record { path = m.configuration_archive; sha256 = m.configuration_sha256 } ∷ []

module _ (files : Files) where
  -- `filepath.IsAbs(p) || strings.HasPrefix(filepath.Clean(p), "../")`
  unfoldable pub escapes : String → Bool
  escapes path = files.is_abs path || has_prefix (files.clean path) "../"

  -- `validateArtifact`
  unfoldable pub validate_artifact : Artifact → Result Problem (Unit {0})
  unfolding escapes
  validate_artifact a = do
    fail_if (is_empty a.path || escapes a.path || not (eqb (len a.sha256) 64)) invalid_artifact
    fail_if (not (is_hex a.sha256)) invalid_artifact_checksum

  -- The loop of `Validate` over the artifacts.
  unfoldable pub validate_artifacts : List Artifact → Result Problem (Unit {0})
  unfolding validate_artifact
  validate_artifacts [] = ok tt
  validate_artifacts (a ∷ rest) = do validate_artifact a; validate_artifacts rest

  -- The checks of `Validate` on the manifest and its database.
  unfoldable pub validate_database : Manifest → Result Problem (Unit {0})
  unfolding escapes
  validate_database m = do
    fail_if (not (m.format == recovery_set_format) || m.id == "" || eqb m.created_at 0)
        invalid_identity
    fail_if
        (not (m.database.engine == "postgres")
          || (not (m.database.format == "custom") && not (m.database.format == "directory"))
          || is_empty m.database.path
          || not (eqb (len m.database.sha256) 64))
        invalid_database
    fail_if (escapes m.database.path) invalid_database_path
    fail_if (not (is_hex m.database.sha256)) invalid_database_checksum

  -- `Manifest.Validate`
  unfoldable pub validate : Manifest → Result Problem (Unit {0})
  unfolding validate_database validate_artifacts
  validate m = do
    validate_database m
    validate_artifacts m.artifacts
    in_configuration (validate_artifacts (configuration_entries m))

  -- The body of the loop of `VerifyFiles`.
  unfoldable pub verify_entry : String → Artifact → Result Problem (Unit {0})
  unfolding escapes
  verify_entry root entry = do
    fail_if (is_empty entry.path || escapes entry.path) (unsafe_path entry.path)
    let path = files.join root entry.path
    fail_if (not (files.is_regular path)) (not_regular entry.path)
    fail_if
        (not (is_empty entry.sha256)
          && not
              (elim (files.checksum_file path) [ none ↦ false | some sum ↦ sum == entry.sha256 ]))
        (checksum_mismatch entry.path)

  unfoldable pub verify_entries : String → List Artifact → Result Problem (Unit {0})
  unfolding verify_entry
  verify_entries root [] = ok tt
  verify_entries root (entry ∷ rest) = do verify_entry root entry; verify_entries root rest

  -- `VerifyFiles`
  unfoldable pub verify_files : String → Manifest → Result Problem (Unit {0})
  unfolding validate verify_entries
  verify_files root m = do
    validate m
    verify_entries root ((database_entry m ∷ m.artifacts) ++ configuration_entries m)
