-- ===== src/Verify/Artifacts/Accepted.antt =====
-- What VerifyArtifacts accepts, and that its checks say the same as its error.
use appliance_ctl.Common.{
  String, ◌==◌, ℕ, Option, none, some, List, [], ◌∷◌, ◌++◌, All, Result, ok, err, ◌≡◌, ◌≢◌, refl,
  ◌↔◌, ◌⊎◌, inl, inr, eq_iff, arith, Bool-cases, if◌then◌else◌,
}
use appliance_ctl.Evidence.{Check, pass}
use appliance_ctl.Verify.{Host, PublicKey}
use appliance_ctl.Verify.Signed.{
  HasDigest, IsSigned, verify_digest_iff, verify_size_iff, verify_file_signature_iff,
}
use appliance_ctl.Verify.Artifacts.{
  Artifact, Report, reported, also, nothing, joined_error, check_signature, check_digest,
  check_size, verify_artifact, verify_each, verify_artifacts,
}

abbrev pub Passes : List Check → Type 0
Passes = All (λ c. c.status ≡ pass)

abbrev pub IsClean : Report → Type 0
IsClean r = r.failures ≡ []

append_nil_iff : {A : Type 0} (xs ys : List A) → ((xs ++ ys) ≡ []) ↔ ((xs ≡ []) × (ys ≡ []))
append_nil_iff [] ys = (λ h. (refl, h), λ h. h.1)
append_nil_iff (x ∷ xs) ys = (λ h. cc, λ h. cc)

Passes-append : (xs ys : List Check) → Passes (xs ++ ys) ↔ (Passes xs × Passes ys)
Passes-append [] ys = (λ h. (tt, h), λ h. h.1)
Passes-append (x ∷ xs) ys =
    let ih = Passes-append xs ys in
    (λ h. ((h.0, (ih.0 h.1).0), (ih.0 h.1).1), λ h. (h.0.0, ih.1 (h.0.1, h.1)))

-- The report has no failure exactly when `P` holds, and exactly when each of its checks passed.
pub record Means (r : Report) (P : Type 0) : Type 0 where
  pub clean : IsClean r ↔ P
  pub told : IsClean r ↔ Passes r.checks

pub also-Means : {r s : Report} {P Q : Type 0} → Means r P → Means s Q → Means (also r s) (P × Q)
unfolding also
also-Means {r} {s} m n =
    let split = append_nil_iff r.failures s.failures in
    let passes = Passes-append r.checks s.checks in
    record {
      clean = (
        λ h. let (a, b) = split.0 h in (m.clean.0 a, n.clean.0 b),
        λ h. split.1 (m.clean.1 h.0, n.clean.1 h.1),
      );
      told = (
        λ h. let (a, b) = split.0 h in passes.1 (m.told.0 a, n.told.0 b),
        λ h. let (a, b) = passes.0 h in split.1 (m.told.1 a, n.told.1 b),
      );
    }

pub nothing-Means : Means nothing Unit
unfolding nothing
nothing-Means = record { clean = (λ h. tt, λ h. refl); told = (λ h. tt, λ h. refl) }

-- The same report for a condition that says the same.
pub Means-iff : {r : Report} {P Q : Type 0} → Means r P → (P ↔ Q) → Means r Q
Means-iff m e = record { clean = (λ h. e.0 (m.clean.0 h), λ q. m.clean.1 (e.1 q)); told = m.told }

pub joined_error_iff :
    (decimal : ℕ → String) (package_name problem : String) (failures : List String)
    → (joined_error decimal package_name problem failures ≡ none) ↔ (failures ≡ [])
unfolding joined_error
joined_error_iff decimal package_name problem [] = (λ h. refl, λ h. refl)
joined_error_iff decimal package_name problem (f ∷ fs) = (λ h. cc, λ h. cc)

-- What the error of a report says.
pub joined-Means :
    (decimal : ℕ → String) (package_name problem : String) {r : Report} {P : Type 0}
    → Means r P
    → ((joined_error decimal package_name problem r.failures ≡ none) ↔ P)
      × ((joined_error decimal package_name problem r.failures ≡ none) ↔ Passes r.checks)
joined-Means decimal package_name problem {r} m =
    let e = joined_error_iff decimal package_name problem r.failures in
    (
      (λ h. m.clean.0 (e.0 h), λ p. e.1 (m.clean.1 p)),
      (λ h. m.told.0 (e.0 h), λ p. e.1 (m.told.1 p)),
    )

pub reported-Means :
    (name id category : String) (r : Result String (Unit {0})) (message : String)
    → Means (reported name id category r message) (r ≡ ok tt)
unfolding reported
reported-Means name id category (err e) message = record {
  clean = (λ h. cc, λ h. cc);
  told = (λ h. cc, λ h. cc);
}
reported-Means name id category (ok done) message = record {
  clean = (λ h. refl, λ h. refl);
  told = (λ h. (refl, tt), λ h. refl);
}

module _ {B : Type 0} (host : Host B) where
  -- Some key was supplied, and the signature at the artifact's path for it verifies under that key.
  abbrev pub IsSignedBy : Option (PublicKey B) → Artifact → Type 0
  IsSignedBy none a = ⊥
  IsSignedBy (some pub_key) a = IsSigned host pub_key a.path a.signature_path

  -- The file has the digest and the size, and its signature verifies if it has one.
  abbrev pub IsAccepted : Option (PublicKey B) → Artifact → Type 0
  IsAccepted key a =
      HasDigest host a.path a.expected_digest
      × ((host.size a.path ≡ ok a.expected_size_bytes)
          × ((a.signature_path ≡ "") ⊎ IsSignedBy key a))

  check_signature-Means :
      (key : Option (PublicKey B)) (a : Artifact)
      → Means (check_signature host key a) (IsSignedBy key a)
  unfolding check_signature
  check_signature-Means none a = record {
    clean = (λ h. cc, λ h. absurd h);
    told = (λ h. cc, λ h. cc);
  }
  check_signature-Means (some pub_key) a =
      Means-iff (reported-Means _ _ _ _ _)
        (verify_file_signature_iff host pub_key a.path a.signature_path)

  digest-Means :
      (a : Artifact) → Means (check_digest host a) (HasDigest host a.path a.expected_digest)
  unfolding check_digest
  digest-Means a =
      Means-iff (reported-Means _ _ _ _ _) (verify_digest_iff host a.path a.expected_digest)

  size-Means :
      (a : Artifact) → Means (check_size host a) (host.size a.path ≡ ok a.expected_size_bytes)
  unfolding check_size
  size-Means a =
      Means-iff (reported-Means _ _ _ _ _) (verify_size_iff host a.path a.expected_size_bytes)

  -- The part of the report on the signature.
  signature-Means :
      (key : Option (PublicKey B)) (a : Artifact)
      → Means
          (if a.signature_path == "" then nothing else check_signature host key a)
          ((a.signature_path ≡ "") ⊎ IsSignedBy key a)
  signature-Means key a = elim (Bool-cases (a.signature_path == "")) [
    | inl unsigned ↦
        rw unsigned (Means-iff nothing-Means (λ h. inl ((eq_iff _ _).0 unsigned), λ h. tt))
    | inr signed ↦
        let n : a.signature_path ≢ "" =
          λ e. absurd (ground (arith, signed, (eq_iff a.signature_path "").1 e)) in
        rw signed (
          Means-iff (check_signature-Means key a)
            (λ h. inr h, elim [ inl e ↦ absurd (n e) | inr by ↦ by ]))
  ]

  verify_artifact-Means :
      (key : Option (PublicKey B)) (a : Artifact)
      → Means (verify_artifact host key a) (IsAccepted key a)
  unfolding verify_artifact
  verify_artifact-Means key a =
      also-Means (digest-Means a) (also-Means (size-Means a) (signature-Means key a))

  verify_each-Means :
      (key : Option (PublicKey B)) (artifacts : List Artifact)
      → Means (verify_each host key artifacts) (All (IsAccepted key) artifacts)
  unfolding verify_each
  verify_each-Means key [] = nothing-Means
  verify_each-Means key (a ∷ rest) =
      also-Means (verify_artifact-Means key a) (verify_each-Means key rest)

  -- VerifyArtifacts returns no error exactly when every artifact can be read, has its digest and
  -- its size, and, if it names a signature, carries one that verifies under the supplied key; a
  -- signature without a key is refused. Its error is nil exactly when all of its checks passed.
  pub verify_artifacts_iff :
      (key : Option (PublicKey B)) (artifacts : List Artifact)
      → let (checks, error) = verify_artifacts host key artifacts in
        ((error ≡ none) ↔ All (IsAccepted key) artifacts) × ((error ≡ none) ↔ Passes checks)
  unfolding verify_artifacts
  verify_artifacts_iff key artifacts =
      joined-Means host.decimal "verify" " artifact check(s) failed: "
        (verify_each-Means key artifacts)
