-- ===== src/Common/Results.antt =====
-- Go's `(value, error)` results. `fail_if c e` is `if c { return e }`.
use mathlib.Core.Path.{◌≡◌, refl}
use mathlib.Core.Bool.{Bool, true, false, not}
use mathlib.Core.Option.{Option, none, some}
use mathlib.Core.Logic.{◌⊎◌, ◌↔◌, inl, inr}
use native.Mathlib.Omega.{arith}

pub data Result {ℓ κ} (E : Type ℓ) (A : Type κ) : Type (ℓ ⊔ κ) where
  err : E → Result E A
  ok : A → Result E A

-- The statements behind a call that returned its value, or the call's error.
infixl 5 ◌>>=◌ ◌>>◌
abbrev pub ◌>>=◌ {ℓ κ μ} :
    {E : Type ℓ} {A : Type κ} {B : Type μ} (call : Result E A) (next : A → Result E B) → Result E B
err problem >>= next = err problem
ok value >>= next = next value

abbrev pub ◌>>◌ {ℓ μ} :
    {E : Type ℓ} {B : Type μ} (call : Result E (Unit {0})) (next : Result E B) → Result E B
call >> next = call >>= λ done. next

abbrev pub fail_if {ℓ} : {E : Type ℓ} → Bool → E → Result E (Unit {0})
fail_if true e = err e
fail_if false e = ok tt

abbrev pub is_ok {ℓ κ} : {E : Type ℓ} {A : Type κ} → Result E A → Bool
is_ok (ok _) = true
is_ok (err _) = false

abbrev pub from_option {ℓ κ} : {E : Type ℓ} {A : Type κ} → E → Option A → Result E A
from_option e none = err e
from_option e (some a) = ok a

-- What a chain that succeeded went through.
pub >>=-eq-ok {ℓ κ μ} :
    {E : Type ℓ} {A : Type κ} {B : Type μ} (call : Result E A) (next : A → Result E B) {last : B}
    → (call >>= next) ≡ ok last
    → (value : A) × (call ≡ ok value) × (next value ≡ ok last)
>>=-eq-ok (err problem) next done = cc
>>=-eq-ok (ok value) next done = (value, refl, done)

pub fail_if-ok {ℓ} : {E : Type ℓ} (c : Bool) (e : E) → fail_if c e ≡ ok tt → c ≡ false
fail_if-ok true e h = cc
fail_if-ok false e h = refl

-- Inversion of an early return: the test failed and what follows it succeeded.
pub fail_if->> {ℓ κ} :
    {E : Type ℓ} {B : Type κ} (c : Bool) (e : E) (k : Result E B) {b : B}
    → (fail_if c e >> k) ≡ ok b
    → (c ≡ false) × (k ≡ ok b)
fail_if->> true e k h = cc
fail_if->> false e k h = (refl, h)

pub not-eq-false : (b : Bool) → not b ≡ false → b ≡ true
not-eq-false true h = refl
not-eq-false false h = cc

pub from_option-eq-ok {ℓ κ} :
    {E : Type ℓ} {A : Type κ} (e : E) (o : Option A) {a : A} → from_option e o ≡ ok a → o ≡ some a
from_option-eq-ok e none h = cc
from_option-eq-ok e (some b) h = cc

pub Result-cases {ℓ κ} :
    {E : Type ℓ} {A : Type κ} (r : Result E A) → ((e : E) × (r ≡ err e)) ⊎ ((a : A) × (r ≡ ok a))
Result-cases (err e) = inl (e, refl)
Result-cases (ok a) = inr (a, refl)

-- An early return in front of the last statement succeeds exactly when neither fails.
pub fail_if->>_iff {ℓ} :
    {E : Type ℓ} (c : Bool) (e : E) (k : Result E (Unit {0}))
    → ((fail_if c e >> k) ≡ ok tt) ↔ ((c ≡ false) × (k ≡ ok tt))
fail_if->>_iff c e k = ground arith
