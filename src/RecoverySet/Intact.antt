-- ===== src/RecoverySet/Intact.antt =====
-- What a recovery set that was verified holds.
use Prim.Native.String.{len}
use appliance_ctl.Common.{
  String, eq_iff, true, false, some, List, [], ◌∷◌, ◌++◌, Result, ok, err, All, ◌≡◌, refl, ap, ◌∙◌,
  inl, inr, arith, >>=-eq-ok, Option-cases,
}
use appliance_ctl.Common.Text.{is_empty}
use appliance_ctl.RecoverySet.{
  Artifact, Manifest, Problem, Files, in_configuration, database_entry, configuration_entries,
  escapes, validate_artifacts, validate_database, validate, verify_entry, verify_entries,
  verify_files,
}

module _ (files : Files) (root : String) where
  -- The file of the entry lies under the root by its path, is regular, and has the checksum of the
  -- manifest.
  pub record IsIntact (a : Artifact) : Type 0 where
    pub named : is_empty a.path ≡ false
    pub inside : escapes files a.path ≡ false
    pub regular : files.is_regular (files.join root a.path) ≡ true
    pub checksum : files.checksum_file (files.join root a.path) ≡ some a.sha256

  abbrev HasDigest : Artifact → Type 0
  HasDigest a = len a.sha256 ≡ 64

  not_empty-len : (s : String) → len s ≡ 64 → is_empty s ≡ false
  not_empty-len String.[] h = absurd (omega arith)
  not_empty-len (String.◌∷◌ c s) h = refl

  verify_entry-IsIntact :
      (a : Artifact) → HasDigest a → verify_entry files root a ≡ ok tt → IsIntact a
  unfolding verify_entry
  verify_entry-IsIntact a d h =
      let digest = not_empty-len a.sha256 d in
      elim (Option-cases (files.checksum_file (files.join root a.path))) [
        | inl unread ↦ ground (arith, digest, unread)
        | inr (sum, read) ↦ record {
          named = ground (arith, digest, read);
          inside = ground (arith, digest, read);
          regular = ground (arith, digest, read);
          checksum = read ∙ ap some (ground (arith, digest, read, eq_iff sum a.sha256));
        }
      ]

  validate_artifacts-HasDigest :
      (xs : List Artifact) → validate_artifacts files xs ≡ ok tt → All HasDigest xs
  unfolding validate_artifacts
  validate_artifacts-HasDigest [] h = tt
  validate_artifacts-HasDigest (a ∷ rest) h =
      (ground arith, validate_artifacts-HasDigest rest (ground arith))

  verify_entries-All :
      (xs : List Artifact)
      → All HasDigest xs
      → verify_entries files root xs ≡ ok tt
      → All IsIntact xs
  unfolding verify_entries
  verify_entries-All [] d h = tt
  verify_entries-All (a ∷ rest) d h =
      let (_, one, more) =
        >>=-eq-ok (verify_entry files root a) (λ _. verify_entries files root rest) h in
      (verify_entry-IsIntact a d.0 one, verify_entries-All rest d.1 more)

  All-append :
      (P : Artifact → Type 0) (xs ys : List Artifact) → All P xs → All P ys → All P (xs ++ ys)
  All-append P [] ys h k = k
  All-append P (x ∷ xs) ys h k = (h.0, All-append P xs ys h.1 k)

  in_configuration-eq-ok : (r : Result Problem (Unit {0})) → in_configuration r ≡ ok tt → r ≡ ok tt
  in_configuration-eq-ok (err e) h = cc
  in_configuration-eq-ok (ok a) h = refl

  validate_database-digest :
      (m : Manifest) → validate_database files m ≡ ok tt → HasDigest (database_entry m)
  unfolding validate_database
  validate_database-digest m h = ground arith

  -- When `VerifyFiles` accepts a recovery set, the database, every artifact and the configuration
  -- archive, if there is one, are regular files on paths that do not leave the root by a leading
  -- "../", each with exactly the checksum of the manifest: no entry escapes the comparison by an
  -- empty checksum.
  pub verify_files-IsIntact :
      (m : Manifest)
      → verify_files files root m ≡ ok tt
      → All IsIntact ((database_entry m ∷ m.artifacts) ++ configuration_entries m)
  unfolding verify_files validate
  verify_files-IsIntact m h =
      let (_, valid, verified) = >>=-eq-ok (validate files m) _ h in
      let (_, database, v1) = >>=-eq-ok (validate_database files m) _ valid in
      let (_, artifacts, archive) = >>=-eq-ok (validate_artifacts files m.artifacts) _ v1 in
      verify_entries-All ((database_entry m ∷ m.artifacts) ++ configuration_entries m)
        (All-append HasDigest (database_entry m ∷ m.artifacts) (configuration_entries m)
          (validate_database-digest m database, validate_artifacts-HasDigest m.artifacts artifacts)
          (validate_artifacts-HasDigest (configuration_entries m)
            (in_configuration-eq-ok _ archive)))
        verified
