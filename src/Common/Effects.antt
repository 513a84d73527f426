-- ===== src/Common/Effects.antt =====
-- Functions that change a state and may fail: what they leave behind, and their value or error.
-- A module takes `◌>>=◌` from here or from Common, not both.
use Prim.Native.String.{String, ◌++◌ as ◌<>◌}
use appliance_ctl.Common.Results.{Result, ok, err}

pub record Outcome {ℓ κ} (W : Type ℓ) (A : Type κ) : Type (ℓ ⊔ κ) where
  pub world : W
  pub result : Result String A

abbrev pub Run {ℓ κ} : Type ℓ → Type κ → Type (ℓ ⊔ κ)
Run W A = W → Outcome W A

module _ {ℓ} {W : Type ℓ} where
  abbrev pub return {κ} : {A : Type κ} → A → Run W A
  return a w = record { world = w; result = ok a }

  abbrev pub fail_with {κ} : {A : Type κ} → String → Run W A
  fail_with e w = record { world = w; result = err e }

  -- What follows a result.
  abbrev pub continue {κ μ} :
      {A : Type κ} {B : Type μ} → W → Result String A → (A → Run W B) → Outcome W B
  continue w (err e) next = record { world = w; result = err e }
  continue w (ok a) next = next a w

  infixl 5 ◌>>=◌ ◌>>◌
  abbrev pub ◌>>=◌ {κ μ} : {A : Type κ} {B : Type μ} → Run W A → (A → Run W B) → Run W B
  ◌>>=◌ m next w = continue (m w).world (m w).result next

  abbrev pub ◌>>◌ {κ μ} : {A : Type κ} {B : Type μ} → Run W A → Run W B → Run W B
  m >> next = m >>= λ _. next

  -- A call whose error the caller looks at.
  abbrev pub attempt {κ} : {A : Type κ} → Run W A → Run W (Result String A)
  attempt m w = record { world = (m w).world; result = ok (m w).result }

  -- `if err != nil { return fmt.Errorf("<context>: %w", err) }`
  abbrev pub in_context {κ} : {A : Type κ} → String → Run W A → Run W A
  in_context context m = do
    o ← attempt m
    elim o [ err e ↦ fail_with (context <> ": " <> e) | ok a ↦ return a ]
