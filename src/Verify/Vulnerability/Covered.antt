-- ===== src/Verify/Vulnerability/Covered.antt =====
-- Which findings the vulnerability policy lets through.
use appliance_ctl.Common.{
  String, ◌==◌, ℕ, ltb, ◌<◌, true, false, Option, none, some, List, [], ◌∷◌, contains, All, ◌≡◌,
  refl, ap, sym, ◌∙◌, ◌↔◌, ◌⊎◌, inl, inr, arith, Bool-cases, Option-cases,
}
use appliance_ctl.Verify.Artifacts.Accepted.{
  Passes, Means, also-Means, nothing-Means, joined-Means, Means-iff,
}
use appliance_ctl.Verify.Vulnerability.{
  Severity, severity_rank, Finding, Exception, exception_by_id, judge_exception, evaluate_finding,
  evaluate_findings, evaluate_vulnerability_policy,
}

abbrev Without : String → List Exception → Type 0
Without id = All (λ e. (e.id == id) ≡ false)

-- `e` is the last exception of the id.
abbrev pub IsLatest : Exception → String → List Exception → Type 0
IsLatest e id [] = ⊥
IsLatest e id (x ∷ rest) = IsLatest e id rest ⊎ ((x ≡ e) × ((x.id == id) ≡ true) × Without id rest)

-- The exception is signed by a trusted identity and not expired.
abbrev pub IsValidAt : List String → ℕ → Exception → Type 0
IsValidAt trusted now e = (contains e.signed_by trusted ≡ true) × (now < e.expires_at)

-- The finding is below the threshold, or the last exception of its id is valid.
abbrev pub IsCovered : List String → Severity → ℕ → List Exception → Finding → Type 0
IsCovered trusted threshold now exceptions f =
    (severity_rank f.severity < severity_rank threshold)
    ⊎ ((e : Exception) × IsLatest e f.id exceptions × IsValidAt trusted now e)

some_is_some : {x : Exception} → some x ≡ none → ⊥
some_is_some h = cc

some_same : {x y : Exception} → some x ≡ some y → x ≡ y
some_same h = cc

exception_by_id_iff :
    (xs : List Exception) (id : String) (found : Option Exception) (e : Exception)
    → (exception_by_id xs id found ≡ some e)
      ↔ (IsLatest e id xs ⊎ (Without id xs × (found ≡ some e)))
unfolding exception_by_id
exception_by_id_iff [] id found e = (λ h. inr (tt, h), elim [ inl h ↦ absurd h | inr h ↦ h.1 ])
exception_by_id_iff (x ∷ rest) id found e = elim (Bool-cases (x.id == id)) [
  | inl same ↦
      let ih = exception_by_id_iff rest id (some x) e in
      rw same (
        λ h. elim (ih.0 h) [
          | inl later ↦ inl (inl later)
          | inr (absent, here) ↦ inl (inr (some_same here, refl, absent))
        ],
        elim [
          | inl (inl later) ↦ ih.1 (inl later)
          | inl (inr (here, _, absent)) ↦ ih.1 (inr (absent, ap some here))
          | inr ((other, _), _) ↦ cc
        ],
      )
  | inr other ↦
      let ih = exception_by_id_iff rest id found e in
      rw other (
        λ h. elim (ih.0 h) [
          | inl later ↦ inl (inl later)
          | inr (absent, old) ↦ inr ((refl, absent), old)
        ],
        elim [
          | inl (inl later) ↦ ih.1 (inl later)
          | inl (inr (_, same, _)) ↦ cc
          | inr ((_, absent), old) ↦ ih.1 (inr (absent, old))
        ],
      )
]

module _ (decimal : ℕ → String) (quote : String → String) (format_time : ℕ → String)
    (trusted : List String) (threshold : Severity) (now : ℕ) where
  -- The exception that was found is valid.
  abbrev IsWaived : Option Exception → Type 0
  IsWaived none = ⊥
  IsWaived (some e) = IsValidAt trusted now e

  judge_exception-Means :
      (f : Finding) (found : Option Exception)
      → Means
          (judge_exception decimal quote format_time trusted threshold now f found)
          (IsWaived found)
  unfolding judge_exception
  judge_exception-Means f none = record {
    clean = (λ h. cc, λ h. absurd h);
    told = (λ h. cc, λ h. cc);
  }
  judge_exception-Means f (some e) = elim (Bool-cases (contains e.signed_by trusted)) [
    | inl known ↦ elim (Bool-cases (ltb now e.expires_at)) [
      | inl early ↦
          rw (known, early)
            record {
              clean = (λ h. (refl, ground arith), λ h. refl);
              told = (λ h. (refl, tt), λ h. refl);
            }
      | inr late ↦
          rw (known, late)
            record { clean = (λ h. cc, λ h. ground (arith, h.1)); told = (λ h. cc, λ h. cc) }
    ]
    | inr unknown ↦
        rw unknown record { clean = (λ h. cc, λ h. ground (arith, h.0)); told = (λ h. cc, λ h. cc) }
  ]

  IsWaived-iff :
      (exceptions : List Exception) (id : String)
      → IsWaived (exception_by_id exceptions id none)
        ↔ ((e : Exception) × IsLatest e id exceptions × IsValidAt trusted now e)
  IsWaived-iff exceptions id = elim (Option-cases (exception_by_id exceptions id none)) [
    | inl gone ↦ (
      λ h. absurd (rw gone at h),
      λ (e, latest, v).
          let found = (exception_by_id_iff exceptions id none e).1 (inl latest) in
          absurd (some_is_some (sym found ∙ gone)),
    )
    | inr (x, found) ↦ (
      λ h. elim ((exception_by_id_iff exceptions id none x).0 found) [
        | inl latest ↦ (x, latest, rw found at h)
        | inr (_, old) ↦ cc
      ],
      λ (e, latest, v).
          let found' = (exception_by_id_iff exceptions id none e).1 (inl latest) in rw found' v,
    )
  ]

  evaluate_finding-Means :
      (exceptions : List Exception) (f : Finding)
      → Means
          (evaluate_finding decimal quote format_time trusted threshold now exceptions f)
          (IsCovered trusted threshold now exceptions f)
  unfolding evaluate_finding
  evaluate_finding-Means exceptions f =
      let waived = IsWaived-iff exceptions f.id in
      let judged = judge_exception-Means f (exception_by_id exceptions f.id none) in
      elim (Bool-cases (ltb (severity_rank f.severity) (severity_rank threshold))) [
        | inl below ↦ rw below record {
          clean = (λ h. inl (ground arith), λ h. refl);
          told = (λ h. (refl, tt), λ h. refl);
        }
        | inr above ↦ rw above (
            Means-iff judged (
              λ h. inr (waived.0 h),
              elim [ inl less ↦ absurd (ground arith) | inr h ↦ waived.1 h ],
            ))
      ]

  evaluate_findings-Means :
      (exceptions : List Exception) (findings : List Finding)
      → Means
          (evaluate_findings decimal quote format_time trusted threshold now exceptions findings)
          (All (IsCovered trusted threshold now exceptions) findings)
  unfolding evaluate_findings
  evaluate_findings-Means exceptions [] = nothing-Means
  evaluate_findings-Means exceptions (f ∷ rest) =
      also-Means (evaluate_finding-Means exceptions f) (evaluate_findings-Means exceptions rest)

  -- EvaluateVulnerabilityPolicy returns no error exactly when every finding is below the threshold
  -- or the last exception of its id is signed by a trusted identity and expires after `now`. Its
  -- error is nil exactly when all of its checks passed.
  pub evaluate_vulnerability_policy_iff :
      (findings : List Finding) (exceptions : List Exception)
      → let (checks, error) =
          evaluate_vulnerability_policy decimal quote format_time trusted threshold now findings
            exceptions in
        ((error ≡ none) ↔ All (IsCovered trusted threshold now exceptions) findings)
        × ((error ≡ none) ↔ Passes checks)
  unfolding evaluate_vulnerability_policy
  evaluate_vulnerability_policy_iff findings exceptions =
      let m = evaluate_findings-Means exceptions findings in
      joined-Means decimal "verify" " vulnerability policy failure(s): " m
