-- ===== src/Common/Lists.antt =====
-- Lists with native lengths, predicates by recursion, and lists of texts used as Go's string sets.
use Prim.Native.Nat.{ℕ, suc}
use Prim.Native.String.{String}
use mathlib.Core.Path.{◌≡◌, refl, sym, ap, subst}
use mathlib.Core.Logic.{◌⊎◌, ◌↔◌, inl, inr}
use mathlib.Core.Bool.{Bool, true, false, ◌||◌}
use mathlib.Core.List.{List, [], ◌∷◌, map, Memᴰ}
use native.Mathlib.Omega.{arith}
use text.Mathlib.Text.{◌==◌}
use text.Mathlib.TextEquality.{eq_iff}
use appliance_ctl.Common.Conditions.{if◌then◌else◌, Bool-cases}

abbrev pub All {ℓ κ} : {A : Type ℓ} → (A → Type κ) → List A → Type κ
All P [] = Unit
All P (x ∷ xs) = P x × All P xs

abbrev pub length {ℓ} : {A : Type ℓ} → List A → ℕ
length [] = 0
length (x ∷ xs) = suc (length xs)

pub length-map {ℓ κ} :
    {A : Type ℓ} {B : Type κ} (xs : List A) (f : A → B) → length (map f xs) ≡ length xs
length-map [] f = refl
length-map (x ∷ xs) f = ap suc (length-map xs f)

-- `_, found := set[x]` on a `map[string]struct{}`, kept as the list of its keys.
abbrev pub contains : String → List String → Bool
contains x [] = false
contains x (y ∷ ys) = x == y || contains x ys

-- No two entries are equal.
abbrev pub Distinct : List String → Type 0
Distinct [] = Unit
Distinct (x ∷ xs) = (contains x xs ≡ false) × Distinct xs

-- The list without the first occurrence of a text.
pub remove : String → List String → List String
remove x [] = []
remove x (y ∷ ys) = if x == y then ys else y ∷ remove x ys

length-remove :
    (x : String) (ys : List String) → contains x ys ≡ true → suc (length (remove x ys)) ≡ length ys
unfolding remove
length-remove x [] h = cc
length-remove x (y ∷ ys) h = ground (arith, length-remove x ys)

contains-remove :
    (z x : String) (ys : List String)
    → contains z ys ≡ true
    → (z ≡ x) ⊎ (contains z (remove x ys) ≡ true)
unfolding remove
contains-remove z x [] h = cc
contains-remove z x (y ∷ ys) h =
    ground (arith, contains-remove z x ys, eq_iff x y, eq_iff z y, eq_iff z x)

abbrev pub Subset : List String → List String → Type 0
Subset xs ys = (x : String) → contains x xs ≡ true → contains x ys ≡ true

contains-remove_ne :
    (z x : String) (ys : List String)
    → contains z ys ≡ true
    → (z == x) ≡ false
    → contains z (remove x ys) ≡ true
contains-remove_ne z x ys h n = ground (arith, contains-remove z x ys h, eq_iff z x)

contains_of_head :
    (z x : String) (xs : List String)
    → contains x xs ≡ false
    → contains z xs ≡ true
    → (z == x) ≡ false
contains_of_head z x xs h m = ground (arith, eq_iff z x)

module _ (x z : String) (xs ys : List String) where
  -- What lies in `ys` and is not `x` lies in `ys` without `x`.
  Subset-remove : contains x xs ≡ false → Subset (x ∷ xs) ys → Subset xs (remove x ys)
  Subset-remove fresh s w m =
      contains-remove_ne w x ys (s w (ground arith)) (contains_of_head w x xs fresh m)

  pick_head :
      (contains z (remove x ys) ≡ true → contains z xs ≡ true)
      → contains z ys ≡ true
      → contains z (x ∷ xs) ≡ true
  pick_head tail m = ground (arith, contains-remove z x ys m, eq_iff z x)

-- Distinct texts that all lie in a list as long as theirs fill it.
pub Subset-full :
    (xs ys : List String)
    → Distinct xs
    → Subset xs ys
    → length xs ≡ length ys
    → (z : String) → contains z ys ≡ true
    → contains z xs ≡ true
Subset-full [] [] d s e z h = h
Subset-full [] (y ∷ ys) d s e z h = absurd (omega arith)
Subset-full (x ∷ xs) ys (fresh, d) s e z h =
    let here : contains x ys ≡ true = s x (ground (arith, eq_iff x x)) in
    pick_head x z xs ys
      (Subset-full xs (remove x ys) d (Subset-remove x z xs ys fresh s)
        (omega (arith, length-remove x ys here)) z)
      h

abbrev pub NoneOf : List String → List String → Type 0
NoneOf xs acc = All (λ x. contains x acc ≡ false) xs

-- Each text is new to those before it and to `acc`.
abbrev pub DistinctFrom : List String → List String → Type 0
DistinctFrom [] acc = Unit
DistinctFrom (x ∷ xs) acc = (contains x acc ≡ false) × DistinctFrom xs (x ∷ acc)

NoneOf-cons :
    (x : String) (xs acc : List String)
    → NoneOf xs (x ∷ acc) ↔ ((contains x xs ≡ false) × NoneOf xs acc)
NoneOf-cons x [] acc = (λ h. (refl, tt), λ h. tt)
NoneOf-cons x (y ∷ xs) acc = (
  λ h. ground (arith, (NoneOf-cons x xs acc).0 h.1, eq_iff x y, eq_iff y x),
  λ h. ground (arith, (NoneOf-cons x xs acc).1, eq_iff x y, eq_iff y x),
)

pub DistinctFrom-iff : (xs acc : List String) → DistinctFrom xs acc ↔ (Distinct xs × NoneOf xs acc)
DistinctFrom-iff [] acc = (λ h. (tt, tt), λ h. tt)
DistinctFrom-iff (x ∷ xs) acc =
    let ih = DistinctFrom-iff xs (x ∷ acc) in
    let nc = NoneOf-cons x xs acc in
    (
      λ h. let (d, n) = ih.0 h.1 in let (f, m) = nc.0 n in ((f, d), (h.0, m)),
      λ h. (h.1.0, ih.1 (h.0.1, nc.1 (h.0.0, h.1.1))),
    )

pub NoneOf-nil : (xs : List String) → NoneOf xs []
NoneOf-nil [] = tt
NoneOf-nil (x ∷ xs) = (refl, NoneOf-nil xs)

module _ {ℓ} {A : Type ℓ} where
  pub All-of_Memᴰ {κ} : (P : A → Type κ) (xs : List A) → ((x : A) → Memᴰ x xs → P x) → All P xs
  All-of_Memᴰ P [] h = tt
  All-of_Memᴰ P (x ∷ xs) h = (h x (Memᴰ.head refl), All-of_Memᴰ P xs (λ y m. h y (Memᴰ.tail m)))

  pub All-Memᴰ {κ} : (P : A → Type κ) {x : A} {xs : List A} → All P xs → Memᴰ x xs → P x
  All-Memᴰ P h (Memᴰ.head e) = subst P (sym e) h.0
  All-Memᴰ P h (Memᴰ.tail m) = All-Memᴰ P h.1 m

  -- A name that a list of records lists is that of one of them.
  pub Memᴰ_of_contains :
      (name : A → String) (xs : List A) (n : String)
      → contains n (map name xs) ≡ true
      → (x : A) × Memᴰ x xs × (name x ≡ n)
  Memᴰ_of_contains name [] n h = cc
  Memᴰ_of_contains name (x ∷ xs) n h = elim (Bool-cases (n == name x)) [
    | inl e ↦ (x, Memᴰ.head refl, sym ((eq_iff _ _).0 e))
    | inr other ↦ let (y, m, e) = Memᴰ_of_contains name xs n (ground arith) in (y, Memᴰ.tail m, e)
  ]

  pub contains_of_Memᴰ :
      (name : A → String) {x : A} {xs : List A} → Memᴰ x xs → contains (name x) (map name xs) ≡ true
  contains_of_Memᴰ name {x} (Memᴰ.head {x = y} e) =
      ground (arith, (eq_iff (name x) (name y)).1 (ap name e))
  contains_of_Memᴰ name (Memᴰ.tail m) = ground (arith, contains_of_Memᴰ name m)
