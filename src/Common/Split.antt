-- ===== src/Common/Split.antt =====
-- Cutting a text at a character: `strings.Split` and the first field of `strings.SplitN`.
use Prim.Native.Char.{Char, code}
use Prim.Native.Nat.{ℕ}
use Prim.Native.String.{String}
use mathlib.Core.List.{List, [], ◌∷◌}
use appliance_ctl.Common.Conditions.{eqb, if◌then◌else◌}

-- `strings.SplitN(v, "-", 2)[0]`, and more generally what stands before the first `c`.
unfoldable pub before : ℕ → String → String
before c String.[] = String.[]
before c (String.◌∷◌ d s) =
    let rest = before c s in if eqb (code d) c then String.[] else String.◌∷◌ d rest

-- One more character in front of the first field.
abbrev pub onto_first : Char → List String → List String
onto_first d [] = String.◌∷◌ d String.[] ∷ []
onto_first d (field ∷ rest) = String.◌∷◌ d field ∷ rest

-- `strings.Split` at a character.
unfoldable pub split : ℕ → String → List String
split c String.[] = String.[] ∷ []
split c (String.◌∷◌ d s) =
    let rest = split c s in if eqb (code d) c then String.[] ∷ rest else onto_first d rest
