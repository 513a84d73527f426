-- ===== src/Evidence/Severity.antt =====
-- `OverallStatus` finds the most severe status of a report.
use appliance_ctl.Common.{
  List, [], ◌∷◌, All, ◌≤◌, ◌≡◌, refl, ◌⊎◌, inl, inr, arith, ltb, if◌then◌else◌, Bool-cases, sym,
}
use mathlib.Core.Path.{subst}
use appliance_ctl.Evidence.{Status, pass, Check, status_priority, overall_from, overall_status}

-- Some check has the status.
abbrev pub Reports : Status → List Check → Type 0
Reports s [] = ⊥
Reports s (c ∷ rest) = (c.status ≡ s) ⊎ Reports s rest

worse : Status → Check → Status
worse overall c =
    if ltb (status_priority c.status) (status_priority overall) then c.status else overall

overall_from-cons :
    (overall : Status) (c : Check) (rest : List Check)
    → overall_from overall (status_priority overall) (c ∷ rest)
      ≡ overall_from (worse overall c) (status_priority (worse overall c)) rest
unfolding overall_from worse
overall_from-cons overall c rest =
    elim (Bool-cases (ltb (status_priority c.status) (status_priority overall))) [
      | inl less ↦ rw less
      | inr same ↦ rw same
    ]

worse_le :
    (overall : Status) (c : Check)
    → (status_priority (worse overall c) ≤ status_priority overall)
      × (status_priority (worse overall c) ≤ status_priority c.status)
unfolding worse
worse_le overall c = ground arith

overall_from_le :
    (overall : Status) (checks : List Check)
    → let s = overall_from overall (status_priority overall) checks in
      (status_priority s ≤ status_priority overall)
      × All (λ c. status_priority s ≤ status_priority c.status) checks
overall_from_le overall [] = unfold overall_from in (omega arith, tt)
overall_from_le overall (c ∷ rest) =
    let (le, all) = overall_from_le (worse overall c) rest in
    let step = overall_from-cons overall c rest in
    (
      rw step (omega (arith, worse_le overall c)),
      (
        rw step (omega (arith, worse_le overall c)),
        subst (λ s. All (λ c. status_priority s ≤ status_priority c.status) rest) (sym step) all,
      ),
    )

overall_from-Reports :
    (overall : Status) (checks : List Check)
    → let s = overall_from overall (status_priority overall) checks in
      (s ≡ overall) ⊎ Reports s checks
unfolding overall_from
overall_from-Reports overall [] = inl refl
overall_from-Reports overall (c ∷ rest) =
    elim (Bool-cases (ltb (status_priority c.status) (status_priority overall))) [
      | inl worse ↦ ground (arith, overall_from-Reports c.status rest)
      | inr same ↦ ground (arith, overall_from-Reports overall rest)
    ]

-- The overall status is at least as severe as that of every check, and some check has it unless
-- it is `pass`.
pub overall_status-most_severe :
    (checks : List Check)
    → All (λ c. status_priority (overall_status checks) ≤ status_priority c.status) checks
      × ((overall_status checks ≡ pass) ⊎ Reports (overall_status checks) checks)
unfolding overall_status
overall_status-most_severe checks =
    ((overall_from_le pass checks).1, overall_from-Reports pass checks)
