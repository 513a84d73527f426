-- ===== src/Upgrade/Version.antt =====
-- internal/upgrade/version.go: comparing version texts. strings.Compare is `compare_text`, and
-- strconv.Atoi is modelled on texts without a minus sign, which is all that `splitVersion` passes:
-- it cuts the text at the first minus sign.
pub mod Written
pub mod Precedence
use Prim.Native.Char.{Char, code}
use Prim.Native.Nat.{Ordering, compare}
use appliance_ctl.Common.{
  String, ◌==◌, ℕ, zero, suc, ◌+◌, ◌*◌, ◌-◌, eqb, leb, Bool, true, false, not, ◌&&◌, Option, none,
  some, List, [], ◌∷◌, contains, if◌then◌else◌,
}
use appliance_ctl.Common.Order.{text_lt}
use appliance_ctl.Common.Split.{before, split}
use appliance_ctl.Common.Text.{is_empty}

abbrev pub max_int : ℕ
max_int = 9223372036854775807

-- The digits of a text, behind a number that was read already.
unfoldable pub read_digits : ℕ → String → Option ℕ
read_digits acc String.[] = some acc
read_digits acc (String.◌∷◌ d s) =
    let rest = read_digits (acc * 10 + (code d - b'0')) s in
    if leb b'0' (code d) && leb (code d) b'9' then rest else none

-- A number in the range of an int.
abbrev pub in_range : Option ℕ → Option ℕ
in_range none = none
in_range (some n) = if leb n max_int then some n else none

-- `strconv.Atoi` without the minus sign.
unfoldable pub atoi : String → Option ℕ
unfolding read_digits
atoi String.[] = none
atoi (String.◌∷◌ d s) =
    if eqb (code d) b'+'
    then (if is_empty s then none else in_range (read_digits 0 s))
    else in_range (read_digits 0 (String.◌∷◌ d s))

-- The loop of `splitVersion`: at most `n` fields, up to the first that is no number.
unfoldable pub parts_of : ℕ → List String → List ℕ
parts_of zero fields = []
parts_of (suc n) [] = []
parts_of (suc n) (field ∷ rest) =
    let more = parts_of n rest in elim (atoi field) [ none ↦ [] | some k ↦ k ∷ more ]

-- `splitVersion`; the map from 0, 1, 2 is the list of its values.
unfoldable pub split_version : String → List ℕ
unfolding before split parts_of atoi
split_version v = parts_of 3 (split b'.' (before b'-' v))

-- `strings.Compare`
unfoldable pub compare_text : String → String → Ordering
unfolding text_lt
compare_text a b =
    if text_lt a b then Ordering.lt else if text_lt b a then Ordering.gt else Ordering.eq

-- The loop of `compareVersions`, from the component with `n` to go; -1, 0 and 1 are lt, eq and gt.
unfoldable pub compare_parts : ℕ → List ℕ → List ℕ → Ordering → Ordering
compare_parts zero xs ys fallback = Ordering.eq
compare_parts (suc n) [] ys fallback = fallback
compare_parts (suc n) (a ∷ xs) [] fallback = fallback
compare_parts (suc n) (a ∷ xs) (b ∷ ys) fallback =
    let rest = compare_parts n xs ys fallback in
    elim (compare a b) [
      | Ordering.lt ↦ Ordering.lt
      | Ordering.eq ↦ rest
      | Ordering.gt ↦ Ordering.gt
    ]

-- `compareVersions`
unfoldable pub compare_versions : String → String → Ordering
unfolding compare_parts
compare_versions a b = compare_parts 3 (split_version a) (split_version b) (compare_text a b)

abbrev pub is_lt : Ordering → Bool
is_lt Ordering.lt = true
is_lt Ordering.eq = false
is_lt Ordering.gt = false

-- `isDowngrade`
unfoldable pub is_downgrade : String → String → Bool
is_downgrade current target = is_lt (compare_versions target current)

-- `isSupportedSource`
unfoldable pub is_supported_source : String → List String → Bool
is_supported_source installed supported = contains installed supported
