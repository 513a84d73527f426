-- ===== src/Verify/Provenance/Attested.antt =====
-- What VerifyProvenance accepts.
use appliance_ctl.Common.{
  String, ◌<>◌, ◌==◌, true, Option, none, some, List, [], ◌∷◌, contains, ok, ◌≡◌, ◌↔◌, ◌⊎◌, ◌≢◌,
  inl, inr, eq_iff, arith, Bool-cases,
}
use appliance_ctl.Verify.Provenance.{
  ProvenanceSubject, ProvenanceStatement, check_subject, check_subjects, verify_provenance,
}

-- The subject's SHA-256 digest is `actual`.
abbrev pub HasDigest : String → Option String → Type 0
HasDigest actual none = ⊥
HasDigest actual (some hex) = ("sha256:" <> hex) ≡ actual

-- The first subject of the name has the digest.
abbrev pub Attests : String → String → List ProvenanceSubject → Type 0
Attests name actual [] = ⊥
Attests name actual (s ∷ rest) =
    ((s.name ≡ name) × HasDigest actual (s.digest "sha256"))
    ⊎ ((s.name ≢ name) × Attests name actual rest)

module _ (quote : String → String) (name actual : String) where
  check_subject_iff :
      (d : Option String) → (check_subject quote name actual d ≡ ok tt) ↔ HasDigest actual d
  unfolding check_subject
  check_subject_iff none = (λ h. cc, λ h. absurd h)
  check_subject_iff (some hex) = (
    λ h. ground (arith, eq_iff ("sha256:" <> hex) actual),
    λ h. ground (arith, (eq_iff ("sha256:" <> hex) actual).1 h),
  )

  check_subjects_iff :
      (subjects : List ProvenanceSubject)
      → (check_subjects quote subjects name actual ≡ ok tt) ↔ Attests name actual subjects
  unfolding check_subjects
  check_subjects_iff [] = (λ h. cc, λ h. absurd h)
  check_subjects_iff (s ∷ rest) =
      let one = check_subject_iff (s.digest "sha256") in
      let more = check_subjects_iff rest in
      elim (Bool-cases (s.name == name)) [
        | inl same ↦
            let e : s.name ≡ name = (eq_iff _ _).0 same in
            (
              λ h. inl (e, one.0 (ground (arith, h, same))),
              elim [ inl (_, d) ↦ rw same (one.1 d) | inr (other, _) ↦ absurd (other e) ],
            )
        | inr other ↦
            let n : s.name ≢ name = λ e. absurd (ground (arith, other, (eq_iff s.name name).1 e)) in
            (
              λ h. inr (n, more.0 (ground (arith, h, other))),
              elim [ inl (e, _) ↦ absurd (n e) | inr (_, later) ↦ rw other (more.1 later) ],
            )
      ]

  -- VerifyProvenance accepts a statement exactly when its builder is one of the allowed identities
  -- and the first subject of the artifact's name has exactly the artifact's digest.
  pub verify_provenance_iff :
      (stmt : ProvenanceStatement) (allowed : List String)
      → (verify_provenance quote stmt allowed name actual ≡ ok tt)
        ↔ ((contains stmt.builder_id allowed ≡ true) × Attests name actual stmt.subjects)
  unfolding verify_provenance
  verify_provenance_iff stmt allowed = elim (Bool-cases (contains stmt.builder_id allowed)) [
    | inl listed ↦ (
      λ h. (listed, (check_subjects_iff stmt.subjects).0 (ground (arith, h, listed))),
      λ h. rw listed ((check_subjects_iff stmt.subjects).1 h.1),
    )
    | inr other ↦ (λ h. absurd (ground (arith, h, other)), λ h. absurd (ground (arith, h.0, other)))
  ]
