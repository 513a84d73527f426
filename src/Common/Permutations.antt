-- ===== src/Common/Permutations.antt =====
-- What a reordering of a list keeps: length, predicates on all entries, membership, distinctness.
use Prim.Native.Nat.{suc}
use Prim.Native.String.{String}
use mathlib.Core.Path.{◌≡◌, refl, sym, ap, ◌∙◌, subst}
use mathlib.Core.Bool.{false}
use mathlib.Core.List.{List, Permᴰ}
use native.Mathlib.Omega.{arith}
use text.Mathlib.TextEquality.{eq_iff}
use appliance_ctl.Common.Lists.{All, length, contains, Distinct}

module _ {ℓ} {A : Type ℓ} where
  pub length-Permᴰ : {xs ys : List A} → Permᴰ xs ys → length xs ≡ length ys
  length-Permᴰ Permᴰ.nil = refl
  length-Permᴰ (Permᴰ.cons e p) = ap suc (length-Permᴰ p)
  length-Permᴰ (Permᴰ.swap e f) = refl
  length-Permᴰ (Permᴰ.trans p q) = length-Permᴰ p ∙ length-Permᴰ q

  pub All-Permᴰ {κ} : (P : A → Type κ) {xs ys : List A} → Permᴰ xs ys → All P xs → All P ys
  All-Permᴰ P Permᴰ.nil h = h
  All-Permᴰ P (Permᴰ.cons e p) h = (subst P e h.0, All-Permᴰ P p h.1)
  All-Permᴰ P (Permᴰ.swap e f) h = (subst P f h.1.0, (subst P e h.0, h.1.1))
  All-Permᴰ P (Permᴰ.trans p q) h = All-Permᴰ P q (All-Permᴰ P p h)

pub contains-Permᴰ :
    (x : String) {xs ys : List String} → Permᴰ xs ys → contains x xs ≡ contains x ys
contains-Permᴰ x Permᴰ.nil = refl
contains-Permᴰ x (Permᴰ.cons e p) = ground (arith, e, contains-Permᴰ x p)
contains-Permᴰ x (Permᴰ.swap e f) = ground (arith, e, f)
contains-Permᴰ x (Permᴰ.trans p q) = contains-Permᴰ x p ∙ contains-Permᴰ x q

pub Distinct-Permᴰ : {xs ys : List String} → Permᴰ xs ys → Distinct xs → Distinct ys
Distinct-Permᴰ Permᴰ.nil h = h
Distinct-Permᴰ (Permᴰ.cons {a = a} {l₂ = l₂} e p) h =
    (subst (λ b. contains b l₂ ≡ false) e (sym (contains-Permᴰ a p) ∙ h.0), Distinct-Permᴰ p h.1)
Distinct-Permᴰ (Permᴰ.swap {a = a} {b = b} e f) h = ground (arith, e, f, eq_iff a b, eq_iff b a)
Distinct-Permᴰ (Permᴰ.trans p q) h = Distinct-Permᴰ q (Distinct-Permᴰ p h)
