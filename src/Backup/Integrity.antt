-- ===== src/Backup/Integrity.antt =====
-- internal/backup/backup.go: Verify.
use appliance_ctl.Common.{
  String, ◌<>◌, Option, none, some, List, [], ◌∷◌, All, Result, ok, err, ◌≡◌, refl, ◌↔◌, sym,
}
use mathlib.Core.Path.{subst}
use appliance_ctl.Evidence.{Check}
use appliance_ctl.Evidence.Sanitize.{sanitize_id_segment}
use appliance_ctl.Verify.{Host, verify_digest}
use appliance_ctl.Verify.Signed.{HasDigest, verify_digest_iff}
use appliance_ctl.Verify.Artifacts.{Report, reported, also, nothing, joined_error}
use appliance_ctl.Verify.Artifacts.Accepted.{
  Means, also-Means, nothing-Means, reported-Means, joined-Means, Means-iff,
}
use appliance_ctl.Backup.{FileEntry, Manifest, System, World, load_manifest}

module _ (sys : System) (host : Host String) where
  -- The body of the loop of `verifyEntries`.
  unfoldable pub verify_entry : String → FileEntry → Report
  unfolding reported
  verify_entry root f =
      reported f.path ("backup-verify-" <> sanitize_id_segment f.path) "backup-restore"
        (verify_digest host (sys.join root f.path) f.digest) (f.path <> " digest matches")

  -- `verifyEntries`
  unfoldable pub verify_entries : String → List FileEntry → Report
  unfolding also nothing verify_entry
  verify_entries root [] = nothing
  verify_entries root (f ∷ rest) = also (verify_entry root f) (verify_entries root rest)

  -- The three trees of a manifest.
  unfoldable pub verify_manifest : String → Manifest → Report
  unfolding also verify_entries
  verify_manifest backup_dir m = also (verify_entries (sys.join backup_dir "data") m.files) (
      also (verify_entries (sys.join backup_dir "metadata-bundles") m.policy_files)
        (verify_entries (sys.join backup_dir "models") m.model_files))

  -- Each file can be read below the root, and has the digest of the manifest.
  abbrev pub AreIntact : String → List FileEntry → Type 0
  AreIntact root = All (λ f. HasDigest host (sys.join root f.path) f.digest)

  abbrev pub IsIntact : String → Manifest → Type 0
  IsIntact backup_dir m =
      AreIntact (sys.join backup_dir "data") m.files
      × (AreIntact (sys.join backup_dir "metadata-bundles") m.policy_files
          × AreIntact (sys.join backup_dir "models") m.model_files)

  verify_entry-Means :
      (root : String) (f : FileEntry)
      → Means (verify_entry root f) (HasDigest host (sys.join root f.path) f.digest)
  unfolding verify_entry
  verify_entry-Means root f =
      Means-iff (reported-Means _ _ _ _ _) (verify_digest_iff host (sys.join root f.path) f.digest)

  verify_entries-Means :
      (root : String) (entries : List FileEntry)
      → Means (verify_entries root entries) (AreIntact root entries)
  unfolding verify_entries
  verify_entries-Means root [] = nothing-Means
  verify_entries-Means root (f ∷ rest) =
      also-Means (verify_entry-Means root f) (verify_entries-Means root rest)

  pub verify_manifest-Means :
      (backup_dir : String) (m : Manifest)
      → Means (verify_manifest backup_dir m) (IsIntact backup_dir m)
  unfolding verify_manifest
  verify_manifest-Means backup_dir m =
      also-Means (verify_entries-Means _ m.files)
        (also-Means (verify_entries-Means _ m.policy_files) (verify_entries-Means _ m.model_files))

ok_same : {m n : Manifest} → Path (Result String Manifest) (ok m) (ok n) → m ≡ n
ok_same h = cc

module _ (sys : System) where
  -- Behind the answer of LoadManifest.
  unfoldable pub verify_loaded :
      String → World → Result String Manifest → List Check × Option String
  unfolding verify_manifest joined_error
  verify_loaded backup_dir w (err e) = ([], some ("backup: " <> e))
  verify_loaded backup_dir w (ok m) =
      let r = verify_manifest sys (sys.on w.disk) backup_dir m in
      (
        r.checks,
        joined_error sys.decimal "backup" " file(s) failed integrity verification: " r.failures,
      )

  -- `Verify`
  unfoldable pub verify : String → World → List Check × Option String
  unfolding verify_loaded
  verify backup_dir w = verify_loaded backup_dir w (load_manifest sys backup_dir w).result

  verify_loaded_iff :
      (backup_dir : String) (w : World) (r : Result String Manifest)
      → ((verify_loaded backup_dir w r).1 ≡ none)
        ↔ ((m : Manifest) × (r ≡ ok m) × IsIntact sys (sys.on w.disk) backup_dir m)
  unfolding verify_loaded
  verify_loaded_iff backup_dir w (err e) = (λ h. cc, λ (m, h, more). cc)
  verify_loaded_iff backup_dir w (ok m) =
      let (iff, _) =
        joined-Means sys.decimal "backup" " file(s) failed integrity verification: "
          (verify_manifest-Means sys (sys.on w.disk) backup_dir m) in
      (
        λ h. (m, refl, iff.0 h),
        λ (n, same, intact).
            iff.1 (subst (IsIntact sys (sys.on w.disk) backup_dir) (sym (ok_same same)) intact),
      )

  -- Verify returns no error exactly when the manifest can be loaded and every file that it lists,
  -- in each of its three trees, can be read and has the digest of the manifest.
  pub verify_iff :
      (backup_dir : String) (w : World)
      → ((verify backup_dir w).1 ≡ none) ↔ (
          (m : Manifest) × ((load_manifest sys backup_dir w).result ≡ ok m)
          × IsIntact sys (sys.on w.disk) backup_dir m)
  unfolding verify
  verify_iff backup_dir w = verify_loaded_iff backup_dir w (load_manifest sys backup_dir w).result
