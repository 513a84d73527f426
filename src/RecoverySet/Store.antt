-- ===== src/RecoverySet/Store.antt =====
-- internal/recoveryset/recoveryset.go: Save, Load and ChecksumFile. encoding/json is the arguments
-- `marshal` and `unmarshal`, reading a file and SHA-256 in hexadecimal are those of `checksum_file`.
use appliance_ctl.Common.{
  String, ◌<>◌, Bool, Option, none, some, [], ◌∷◌, Result, ok, err, ◌>>=◌, ◌≡◌, refl, ap, ◌∙◌, sym,
  if◌then◌else◌, from_option, >>=-eq-ok,
}
use appliance_ctl.Lifecycle.Atomic.{Disk, Outcomes, Trace, write_file_atomic}
use appliance_ctl.RecoverySet as Set
use appliance_ctl.RecoverySet.{Manifest, Files, validate}

pub data Problem : Type 0 where
  not_read not_parsed : Problem
  not_valid : Set.Problem → Problem

-- `ChecksumFile`: an error of the open or of the copy, or the digest of what was read.
unfoldable pub checksum_file :
    {B : Type 0} (contents : String → Result String B) (sha256_hex : B → String)
    → String
    → Result String String
checksum_file contents sha256_hex path = do read ← contents path; ok (sha256_hex read)

module _ (files : Files) (marshal : Manifest → Option String)
    (unmarshal : String → Option Manifest) where
  -- `manifestPath`
  abbrev pub manifest_path : String → String
  manifest_path root = files.join root "manifest.json"

  -- Nothing done, and an error.
  abbrev refused : Disk → Trace
  refused disk = record { disks = disk ∷ []; final = disk; success = Bool.false }

  -- `Save` behind the validation; `made` is whether the root could be made.
  unfoldable pub save_encoded : Bool → Outcomes → String → String → Option String → Disk → Trace
  save_encoded made o tmp root none disk = refused disk
  save_encoded made o tmp root (some text) disk =
      if made
      then write_file_atomic o tmp (manifest_path root) (text <> "\n") disk
      else refused disk

  unfoldable pub save_checked :
      Result Set.Problem (Unit {0}) → Bool → Outcomes → String → String → Manifest → Disk → Trace
  unfolding save_encoded
  save_checked (err e) made o tmp root m disk = refused disk
  save_checked (ok _) made o tmp root m disk = save_encoded made o tmp root (marshal m) disk

  -- `Save`
  unfoldable pub save : Bool → Outcomes → String → String → Manifest → Disk → Trace
  unfolding save_checked validate
  save made o tmp root m disk = save_checked (validate files m) made o tmp root m disk

  unfoldable pub checked : Result Set.Problem (Unit {0}) → Manifest → Result Problem Manifest
  checked (err e) m = err (not_valid e)
  checked (ok _) m = ok m

  -- `Load`
  unfoldable pub load : String → Disk → Result Problem Manifest
  unfolding checked validate
  load root disk = do
    text ← from_option not_read (disk (manifest_path root))
    m ← from_option not_parsed (unmarshal text)
    checked (validate files m) m

  checked-ok :
      (r : Result Set.Problem (Unit {0})) (m n : Manifest)
      → checked r m ≡ ok n
      → (r ≡ ok tt) × (m ≡ n)
  unfolding checked
  checked-ok (err e) m n h = cc
  checked-ok (ok _) m n h = (refl, cc)

  -- What Load returns is a valid manifest.
  pub load-validate :
      (root : String) (disk : Disk) (m : Manifest)
      → load root disk ≡ ok m
      → validate files m ≡ ok tt
  unfolding load
  load-validate root disk m h =
      let (text, _, parsed) = >>=-eq-ok (from_option not_read (disk (manifest_path root))) _ h in
      let (n, _, last) = >>=-eq-ok (from_option not_parsed (unmarshal text)) _ parsed in
      let (valid, same) = checked-ok (validate files n) n m last in
      ap (validate files) (sym same) ∙ valid
