-- ===== src/Common/Text.antt =====
-- The parts of Go's `strings`, `regexp` and `encoding/hex` that the source calls, on texts that are
-- valid UTF-8: TrimSpace, TrimPrefix, Split, Join, hex.DecodeString's test, and the two patterns
-- of internal/clustertopology.
use Prim.Native.Char.{Char, code}
use Prim.Native.Nat.{ℕ, zero, suc}
use Prim.Native.String.{String, len, ◌++◌ as ◌<>◌}
use mathlib.Core.List.{List, [], ◌∷◌}
use mathlib.Core.Path.{◌≡◌, refl, ap, subst, ◌∙◌}
use text.Mathlib.Text.{starts_with}
use text.Mathlib.TextLemmas.{cons-append, append_assoc}
use mathlib.Core.Bool.{Bool, true, false, not, ◌&&◌, ◌||◌}
use mathlib.Core.Option.{Option, none, some}
use native.Mathlib.Omega.{arith}
use appliance_ctl.Common.Conditions.{leb, eqb, if◌then◌else◌}

-- `unicode.IsSpace` on a code point.
unfoldable pub is_space : ℕ → Bool
is_space c =
    (leb 9 c && leb c 13)
    || eqb c 32
    || eqb c 0x85
    || eqb c 0xa0
    || eqb c 0x1680
    || (leb 0x2000 c && leb c 0x200a)
    || eqb c 0x2028
    || eqb c 0x2029
    || eqb c 0x202f
    || eqb c 0x205f
    || eqb c 0x3000

abbrev pub is_empty : String → Bool
is_empty String.[] = true
is_empty (String.◌∷◌ c s) = false

unfoldable pub trim_left : String → String
trim_left String.[] = String.[]
trim_left (String.◌∷◌ c s) = if is_space (code c) then trim_left s else String.◌∷◌ c s

unfoldable pub trim_right : String → String
trim_right String.[] = String.[]
trim_right (String.◌∷◌ c s) =
    let rest = trim_right s in
    if is_space (code c) && is_empty rest then String.[] else String.◌∷◌ c rest

-- `strings.TrimSpace`
unfoldable pub trim_space : String → String
unfolding trim_left trim_right is_space
trim_space s = trim_left (trim_right s)

-- `strings.TrimSpace(s) == ""`
unfoldable pub is_blank : String → Bool
unfolding trim_space
is_blank s = is_empty (trim_space s)

abbrev pub all_chars : (ℕ → Bool) → String → Bool
all_chars p String.[] = true
all_chars p (String.◌∷◌ c s) = p (code c) && all_chars p s

-- The number of code points.
abbrev pub count : String → ℕ
count String.[] = 0
count (String.◌∷◌ c s) = suc (count s)

abbrev pub last_char : ℕ → String → ℕ
last_char d String.[] = d
last_char d (String.◌∷◌ c s) = last_char (code c) s

-- `[a-z0-9]`
unfoldable pub is_alnum : ℕ → Bool
is_alnum c = (leb b'a' c && leb c b'z') || (leb b'0' c && leb c b'9')

-- `[a-z0-9-]`
unfoldable pub is_label_char : ℕ → Bool
unfolding is_alnum
is_label_char c = is_alnum c || eqb c b'-'

-- `nodeNamePattern`, ^[a-z0-9]([a-z0-9-]{0,61}[a-z0-9])?$
unfoldable pub is_node_name : String → Bool
unfolding is_label_char
is_node_name String.[] = false
is_node_name (String.◌∷◌ c s) =
    is_alnum (code c)
    && (is_empty s || (all_chars is_label_char s && is_alnum (last_char 0 s) && leb (count s) 62))

-- The rest of a text behind a prefix: `strings.HasPrefix` and `strings.TrimPrefix`.
abbrev pub strip_prefix : String → String → Option String
strip_prefix String.[] s = some s
strip_prefix (String.◌∷◌ c p) String.[] = none
strip_prefix (String.◌∷◌ c p) (String.◌∷◌ d s) =
    let rest = strip_prefix p s in if eqb (code c) (code d) then rest else none

-- `[0-9a-f]`
pub is_lower_hex : ℕ → Bool
is_lower_hex c = (leb b'0' c && leb c b'9') || (leb b'a' c && leb c b'f')

pub is_hex_digit : ℕ → Bool
unfolding is_lower_hex
is_hex_digit c = is_lower_hex c || (leb b'A' c && leb c b'F')

abbrev pub is_even : ℕ → Bool
is_even zero = true
is_even (suc n) = not (is_even n)

-- `hex.DecodeString(s)` returns no error.
unfoldable pub is_hex : String → Bool
unfolding is_hex_digit
is_hex s = all_chars is_hex_digit s && is_even (count s)

-- `digestPattern`, ^sha256:[0-9a-f]{64}$
unfoldable pub is_digest : String → Bool
unfolding is_lower_hex
is_digest s = elim (strip_prefix "sha256:" s) [
  | none ↦ false
  | some rest ↦ all_chars is_lower_hex rest && eqb (count rest) 64
]

-- `len(s) == len("sha256:")+sha256.Size*2 && strings.HasPrefix(s, "sha256:")`, lengths in bytes.
unfoldable pub has_digest_shape : String → Bool
has_digest_shape s = eqb (len s) 71 && starts_with s "sha256:"

-- `strings.TrimPrefix(s, prefix)`
unfoldable pub trim_prefix : String → String → String
trim_prefix s prefix = elim (strip_prefix prefix s) [ none ↦ s | some rest ↦ rest ]

alnum_not_space : (c : ℕ) → is_alnum c ≡ true → is_space c ≡ false
unfolding is_alnum is_space
alnum_not_space c h = ground arith

-- A text that begins with a letter or a digit is not blank.
not_blank_of_alnum :
    (c : Char) (s : String)
    → is_alnum (code c) ≡ true
    → is_empty (trim_left (trim_right (String.◌∷◌ c s))) ≡ false
unfolding trim_left trim_right
not_blank_of_alnum c s h = ground (arith, alnum_not_space (code c) h)

-- A node name is never blank.
pub is_node_name-is_blank : (s : String) → is_node_name s ≡ true → is_blank s ≡ false
unfolding is_node_name is_blank
is_node_name-is_blank String.[] h = cc
is_node_name-is_blank (String.◌∷◌ c s) h = not_blank_of_alnum c s (ground arith)

-- A text that begins with "https://" is not blank.
pub is_blank-https : (s : String) → is_blank ("https://" <> s) ≡ false
unfolding is_blank is_alnum
is_blank-https s = rw (cons-append _ "ttps://" s) (not_blank_of_alnum "h" ("ttps://" <> s) refl)

-- `strings.Join`
unfoldable pub join : String → List String → String
join sep [] = ""
join sep (x ∷ xs) = elim xs [ [] ↦ x | _ ∷ _ ↦ x <> sep <> join sep xs ]

pub not_empty-port : (s : String) → is_empty (s <> ":6443") ≡ false
not_empty-port String.[] = refl
not_empty-port (String.◌∷◌ c s) = rw (cons-append c s ":6443") refl

trim_right-port : (s : String) → trim_right (s <> ":6443") ≡ s <> ":6443"
unfolding trim_right is_space
trim_right-port String.[] = refl
trim_right-port (String.◌∷◌ c s) =
    ground (arith, cons-append c s ":6443", trim_right-port s, not_empty-port s)

trim_left-https : (s : String) → trim_left ("https://" <> s) ≡ "https://" <> s
unfolding trim_left is_space
trim_left-https s = rw (cons-append _ "ttps://" s) refl

-- The URL of an API endpoint has no space around it.
pub trim_space-api_url :
    (s : String) → trim_space ("https://" <> s <> ":6443") ≡ "https://" <> s <> ":6443"
unfolding trim_space
trim_space-api_url s =
    ap trim_left (
      subst (λ t. trim_right t ≡ t) (append_assoc "https://" s ":6443")
        (trim_right-port ("https://" <> s)))
    ∙ trim_left-https (s <> ":6443")

pub not_empty-https : (s : String) → is_empty ("https://" <> s) ≡ false
not_empty-https s = rw (cons-append _ "ttps://" s) refl
