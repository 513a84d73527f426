-- ===== src/Common/Trim.antt =====
-- Trimming a text twice is trimming it once.
use Prim.Native.Char.{Char, code}
use Prim.Native.String.{String}
use mathlib.Core.Path.{◌≡◌, refl, ap, ◌∙◌}
use mathlib.Core.Bool.{◌&&◌}
use mathlib.Core.Logic.{inl, inr}
use appliance_ctl.Common.Conditions.{Bool-cases}
use appliance_ctl.Common.Text.{is_space, is_empty, trim_left, trim_right, trim_space}

trim_right-trim_right : (s : String) → trim_right (trim_right s) ≡ trim_right s
unfolding trim_right
trim_right-trim_right String.[] = refl
trim_right-trim_right (String.◌∷◌ c s) =
    elim (Bool-cases (is_space (code c) && is_empty (trim_right s))) [
      | inl h ↦ rw h refl
      | inr h ↦ rw h (rw (trim_right-trim_right s) (rw h refl))
    ]

trim_left-trim_left : (s : String) → trim_left (trim_left s) ≡ trim_left s
unfolding trim_left
trim_left-trim_left String.[] = refl
trim_left-trim_left (String.◌∷◌ c s) = elim (Bool-cases (is_space (code c))) [
  | inl h ↦ rw h (trim_left-trim_left s)
  | inr h ↦ rw h (rw h refl)
]

-- The rest of a text that ends in no space ends in none.
trim_right-rest :
    (c : Char) (s : String) → trim_right (String.◌∷◌ c s) ≡ String.◌∷◌ c s → trim_right s ≡ s
unfolding trim_right
trim_right-rest c s = elim (Bool-cases (is_space (code c) && is_empty (trim_right s))) [
  | inl h ↦ rw h (λ e. cc)
  | inr h ↦ rw h (λ e. cc)
]

trim_right-trim_left : (s : String) → trim_right s ≡ s → trim_right (trim_left s) ≡ trim_left s
unfolding trim_left
trim_right-trim_left String.[] h = h
trim_right-trim_left (String.◌∷◌ c s) h = elim (Bool-cases (is_space (code c))) [
  | inl e ↦ rw e (trim_right-trim_left s (trim_right-rest c s h))
  | inr e ↦ rw e h
]

pub trim_space-trim_space : (s : String) → trim_space (trim_space s) ≡ trim_space s
unfolding trim_space
trim_space-trim_space s =
    ap trim_left (trim_right-trim_left (trim_right s) (trim_right-trim_right s))
    ∙ trim_left-trim_left (trim_right s)
