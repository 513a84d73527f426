-- ===== src/Upgrade/Version/Precedence.antt =====
-- The order of versions.
use Prim.Native.Nat.{Ordering}
use appliance_ctl.Common.{String, ℕ, zero, suc, ◌<◌, true, List, [], ◌∷◌, ◌≡◌, refl, ◌⊎◌, arith}
use appliance_ctl.Common.Order.{text_lt_asymm}
use appliance_ctl.Upgrade.Version.Written.{IsVersion, split_version-IsVersion}
use appliance_ctl.Upgrade.Version.{
  split_version, compare_text, compare_parts, compare_versions, is_downgrade,
}

abbrev pub flip : Ordering → Ordering
flip Ordering.lt = Ordering.gt
flip Ordering.eq = Ordering.eq
flip Ordering.gt = Ordering.lt

compare_text-flip : (a b : String) → compare_text b a ≡ flip (compare_text a b)
unfolding compare_text
compare_text-flip a b = ground (arith, text_lt_asymm a b)

compare_parts-flip :
    (n : ℕ) (xs ys : List ℕ) (f : Ordering)
    → compare_parts n ys xs (flip f) ≡ flip (compare_parts n xs ys f)
unfolding compare_parts
compare_parts-flip zero xs ys f = refl
compare_parts-flip (suc n) [] [] f = refl
compare_parts-flip (suc n) [] (b ∷ ys) f = refl
compare_parts-flip (suc n) (a ∷ xs) [] f = refl
compare_parts-flip (suc n) (a ∷ xs) (b ∷ ys) f = ground (arith, compare_parts-flip n xs ys f)

-- Comparing two versions the other way round gives the opposite answer, also where the texts are
-- compared because a component is no number. So no version is a downgrade of itself, and of two
-- versions at most one is a downgrade of the other.
pub compare_versions-flip : (a b : String) → compare_versions b a ≡ flip (compare_versions a b)
unfolding compare_versions
compare_versions-flip a b =
    rw (compare_text-flip a b)
      (compare_parts-flip 3 (split_version a) (split_version b) (compare_text a b))

-- The triples in lexicographic order.
abbrev pub Precedes : ℕ → ℕ → ℕ → ℕ → ℕ → ℕ → Type 0
Precedes a b c x y z = (a < x) ⊎ (a ≡ x) × (b < y) ⊎ (a ≡ x) × (b ≡ y) × (c < z)

-- Between versions written with three decimal numbers in the range of an int, and perhaps a minus
-- sign and more, the target is a downgrade exactly when its numbers precede those of the current
-- version; what follows a minus sign plays no part.
pub is_downgrade_iff :
    (current target : String) (a b c x y z : ℕ)
    → IsVersion target a b c
    → IsVersion current x y z
    → ((is_downgrade current target ≡ true) → Precedes a b c x y z)
      × (Precedes a b c x y z → is_downgrade current target ≡ true)
unfolding is_downgrade compare_versions
is_downgrade_iff current target a b c x y z target_is current_is =
    let t = split_version-IsVersion target a b c target_is in
    let k = split_version-IsVersion current x y z current_is in
    (λ h. ground (arith, t, k), λ h. ground (arith, t, k))
