-- ===== src/Tests/Recovery.antt =====
-- internal/recoveryset on concrete inputs.
use appliance_ctl.Common.{String, ◌<>◌, true, some, [], ◌∷◌, ◌++◌, All, ok, err, ◌≡◌, refl}
use appliance_ctl.Common.Text.{is_hex}
use appliance_ctl.RecoverySet.{
  Manifest, Files, has_prefix, escapes, validate_artifact, validate_artifacts, validate_database,
  validate, verify_entries, verify_files, database_entry, configuration_entries, checksum_mismatch,
}
use appliance_ctl.RecoverySet.Intact.{IsIntact, verify_files-IsIntact}

abbrev sum : String
sum = "0123456789abcdef0123456789abcdef0123456789abcdef0123456789abcdef"

abbrev other_sum : String
other_sum = "ff23456789abcdef0123456789abcdef0123456789abcdef0123456789abcdef"

-- Every file is there with one content.
abbrev files : Files
files = record {
  is_abs = λ p. has_prefix p "/";
  clean = λ p. p;
  join = λ root p. root <> "/" <> p;
  is_regular = λ p. true;
  checksum_file = λ p. some sum;
}

abbrev manifest : Manifest
manifest = record {
  format = "zon.recovery-set/v1";
  id = "rs-1";
  created_at = 7;
  platform_version = "1.4.0";
  database = record { engine = "postgres"; format = "custom"; path = "db/dump"; sha256 = sum };
  configuration_archive = "config.tar";
  configuration_sha256 = sum;
  artifacts = record { path = "volumes/a"; sha256 = sum } ∷ [];
}

set_verified : verify_files files "/backup" manifest ≡ ok tt
unfolding verify_files validate validate_database validate_artifacts verify_entries is_hex
set_verified = refl

verify_files-IsIntact_example :
    All
      (IsIntact files "/backup")
      ((database_entry manifest ∷ manifest.artifacts) ++ configuration_entries manifest)
verify_files-IsIntact_example = verify_files-IsIntact files "/backup" manifest set_verified

-- A file that does not match is found.
damaged :
    verify_files files "/backup" (record manifest { configuration_sha256 = other_sum })
    ≡ err (checksum_mismatch "config.tar")
unfolding verify_files validate validate_database validate_artifacts verify_entries is_hex
damaged = refl

-- The parent directory itself passes the test of an artifact's path.
parent_directory : validate_artifact files (record { path = ".."; sha256 = sum }) ≡ ok tt
unfolding validate_artifact escapes is_hex
parent_directory = refl
