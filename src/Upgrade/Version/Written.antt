-- ===== src/Upgrade/Version/Written.antt =====
-- How a version of three numbers is written, and what splitVersion reads of it.
use Prim.Native.Char.{Char, code}
use text.Mathlib.TextLemmas.{nil-append, cons-append, append-nil}
use appliance_ctl.Common.{
  arith, String, ◌<>◌, ℕ, zero, suc, ◌+◌, ◌*◌, ◌-◌, ◌≤◌, leb, eqb, Bool, true, false, not, ◌&&◌,
  if◌then◌else◌, none, some, List, [], ◌∷◌, ◌≡◌, refl, ap, ◌∙◌, ◌⊎◌, inl, inr,
}
use appliance_ctl.Common.Split.{before, split, onto_first}
use appliance_ctl.Common.Text.{is_empty, all_chars}
use appliance_ctl.Upgrade.Version.{read_digits, atoi, in_range, parts_of, split_version}

abbrev pub is_digit : ℕ → Bool
is_digit c = leb 48 c && leb c 57

-- The weight of a digit in front of a text of digits.
abbrev pub weight : String → ℕ
weight String.[] = 1
weight (String.◌∷◌ c s) = 10 * weight s

-- The number that a text of digits writes.
abbrev pub value : String → ℕ
value String.[] = 0
value (String.◌∷◌ c s) = (code c - 48) * weight s + value s

-- The text is the number in decimal digits, in the range of an int.
abbrev pub Writes : String → ℕ → Type 0
Writes s n =
    (is_empty s ≡ false) × (all_chars is_digit s ≡ true) × (value s ≡ n) × (n ≤ 9223372036854775807)

shift : (acc d p v : ℕ) → (acc * 10 + d) * p + v ≡ acc * (10 * p) + (d * p + v)
shift acc d p v = omega arith

read_digits-value :
    (acc : ℕ) (s : String)
    → all_chars is_digit s ≡ true
    → read_digits acc s ≡ some (acc * weight s + value s)
unfolding read_digits
read_digits-value acc String.[] h = ap (λ n. some n) (omega arith)
read_digits-value acc (String.◌∷◌ c s) h =
    let ih = read_digits-value (acc * 10 + (code c - 48)) s (ground (arith, h)) in
    let e = shift acc (code c - 48) (weight s) (value s) in ground (arith, h, ih, e)

in_range-fits : (n : ℕ) → n ≤ 9223372036854775807 → in_range (some n) ≡ some n
in_range-fits n h = ground (arith, h)

atoi-Writes : (s : String) (n : ℕ) → Writes s n → atoi s ≡ some n
unfolding atoi
atoi-Writes String.[] n h = ground (arith, h.0)
atoi-Writes (String.◌∷◌ c s) n (filled, digits, written, fits) =
    let no_plus : eqb (code c) b'+' ≡ false = ground (arith, digits) in
    let read = read_digits-value 0 (String.◌∷◌ c s) digits in
    let same : 0 * weight (String.◌∷◌ c s) + value (String.◌∷◌ c s) ≡ n = omega arith in
    ap
      (λ b.
        if b
        then (if is_empty s then none else in_range (read_digits 0 s))
        else in_range (read_digits 0 (String.◌∷◌ c s)))
      no_plus
    ∙ ap in_range (read ∙ ap (λ k. some k) same)
    ∙ in_range-fits n fits

-- The character does not occur.
Lacks : ℕ → String → Type 0
Lacks c s = all_chars (λ x. not (eqb x c)) s ≡ true

Lacks-head : (b k : Bool) → not b && k ≡ true → b ≡ false
Lacks-head b k h = ground (arith, h)

Lacks-tail : (b k : Bool) → not b && k ≡ true → k ≡ true
Lacks-tail b k h = ground (arith, h)

digits-Lacks : (c : ℕ) (s : String) → is_digit c ≡ false → all_chars is_digit s ≡ true → Lacks c s
unfolding Lacks
digits-Lacks c String.[] other h = refl
digits-Lacks c (String.◌∷◌ d s) other h =
    let ih = digits-Lacks c s other (ground (arith, h)) in ground (arith, h, ih, other)

before-char :
    (c : ℕ) (d : Char) (s : String)
    → eqb (code d) c ≡ false
    → before c (String.◌∷◌ d s) ≡ String.◌∷◌ d (before c s)
unfolding before
before-char c d s h = ap (λ b. if b then "" else String.◌∷◌ d (before c s)) h

split-char :
    (c : ℕ) (d : Char) (s : String)
    → eqb (code d) c ≡ false
    → split c (String.◌∷◌ d s) ≡ onto_first d (split c s)
unfolding split
split-char c d s h = ap (λ b. if b then "" ∷ split c s else onto_first d (split c s)) h

split-cut :
    (c : ℕ) (d : Char) (s : String)
    → eqb (code d) c ≡ true
    → split c (String.◌∷◌ d s) ≡ "" ∷ split c s
unfolding split
split-cut c d s h = ap (λ b. if b then "" ∷ split c s else onto_first d (split c s)) h

before-text : (c : ℕ) (s rest : String) → Lacks c s → before c (s <> rest) ≡ s <> before c rest
unfolding Lacks
before-text c String.[] rest h = rw (nil-append rest, nil-append (before c rest)) refl
before-text c (String.◌∷◌ d s) rest h =
    let k = all_chars (λ x. not (eqb x c)) s in
    rw (cons-append d s rest, cons-append d s (before c rest))
      (before-char c d (s <> rest) (Lacks-head (eqb (code d) c) k h)
        ∙ ap (λ t. String.◌∷◌ d t) (before-text c s rest (Lacks-tail (eqb (code d) c) k h)))

split-text :
    (c : ℕ) (d : Char) (s rest : String)
    → Lacks c s
    → eqb (code d) c ≡ true
    → split c (s <> String.◌∷◌ d rest) ≡ s ∷ split c rest
unfolding Lacks
split-text c d String.[] rest h cut = rw (nil-append (String.◌∷◌ d rest)) (split-cut c d rest cut)
split-text c d (String.◌∷◌ x s) rest h cut =
    let k = all_chars (λ y. not (eqb y c)) s in
    rw (cons-append x s (String.◌∷◌ d rest)) (
      split-char c x (s <> String.◌∷◌ d rest) (Lacks-head (eqb (code x) c) k h)
      ∙ ap (onto_first x) (split-text c d s rest (Lacks-tail (eqb (code x) c) k h) cut))

split-last : (c : ℕ) (s : String) → Lacks c s → split c s ≡ s ∷ []
unfolding Lacks split
split-last c String.[] h = refl
split-last c (String.◌∷◌ x s) h =
    let k = all_chars (λ y. not (eqb y c)) s in
    split-char c x s (Lacks-head (eqb (code x) c) k h)
    ∙ ap (onto_first x) (split-last c s (Lacks-tail (eqb (code x) c) k h))

-- Nothing, or a minus sign and any text.
abbrev pub IsSuffix : String → Type 0
IsSuffix w = (w ≡ "") ⊎ ((x : String) × (w ≡ String.◌∷◌ "-" x))

-- The version is written with three numbers in decimal digits, and perhaps a suffix.
pub record IsVersion (v : String) (a b c : ℕ) : Type 0 where
  pub major : String
  pub minor : String
  pub patch : String
  pub suffix : String
  pub is : v ≡ major <> String.◌∷◌ "." (minor <> String.◌∷◌ "." (patch <> suffix))
  pub writes_major : Writes major a
  pub writes_minor : Writes minor b
  pub writes_patch : Writes patch c
  pub is_suffix : IsSuffix suffix

before-suffix : (w : String) → IsSuffix w → before b'-' w ≡ ""
unfolding before
before-suffix w (inl bare) = ap (before b'-') bare
before-suffix w (inr (x, is)) = ap (before b'-') is

before-number :
    (s r t : String)
    → all_chars is_digit s ≡ true
    → before b'-' r ≡ t
    → before b'-' (s <> String.◌∷◌ "." r) ≡ s <> String.◌∷◌ "." t
before-number s r t h e =
    before-text b'-' s (String.◌∷◌ "." r) (digits-Lacks b'-' s refl h)
    ∙ ap (λ x. s <> x) (before-char b'-' "." r refl ∙ ap (λ x. String.◌∷◌ "." x) e)

split-number :
    (s r : String) (fields : List String)
    → all_chars is_digit s ≡ true
    → split b'.' r ≡ fields
    → split b'.' (s <> String.◌∷◌ "." r) ≡ s ∷ fields
split-number s r fields h e =
    split-text b'.' "." s r (digits-Lacks b'.' s refl h) refl ∙ ap (λ fs. s ∷ fs) e

parts_of-Writes :
    (s : String) (n k : ℕ) (rest : List String) (more : List ℕ)
    → Writes s n
    → parts_of k rest ≡ more
    → parts_of (suc k) (s ∷ rest) ≡ n ∷ more
unfolding parts_of
parts_of-Writes s n k rest more h e = rw (atoi-Writes s n h, parts_of) (ap (λ ns. n ∷ ns) e)

parts_of-none : (k : ℕ) → parts_of k [] ≡ []
unfolding parts_of
parts_of-none zero = refl
parts_of-none (suc k) = refl

-- What splitVersion reads of a version that is written with three numbers.
pub split_version-IsVersion :
    (v : String) (a b c : ℕ) → IsVersion v a b c → split_version v ≡ a ∷ b ∷ c ∷ []
unfolding split_version
split_version-IsVersion v a b c h =
    let (_, majors, _, _) = h.writes_major in
    let (_, minors, _, _) = h.writes_minor in
    let (_, patches, _, _) = h.writes_patch in
    let core = h.major <> String.◌∷◌ "." (h.minor <> String.◌∷◌ "." h.patch) in
    let last : before b'-' (h.patch <> h.suffix) ≡ h.patch =
      before-text b'-' h.patch h.suffix (digits-Lacks b'-' h.patch refl patches)
      ∙ ap (λ x. h.patch <> x) (before-suffix h.suffix h.is_suffix)
      ∙ append-nil h.patch in
    let cut : before b'-' v ≡ core =
      ap (before b'-') h.is
      ∙ before-number h.major (h.minor <> String.◌∷◌ "." (h.patch <> h.suffix))
          (h.minor <> String.◌∷◌ "." h.patch) majors
          (before-number h.minor (h.patch <> h.suffix) h.patch minors last) in
    let fields : split b'.' core ≡ h.major ∷ h.minor ∷ h.patch ∷ [] =
      split-number h.major (h.minor <> String.◌∷◌ "." h.patch) (h.minor ∷ h.patch ∷ []) majors (
        split-number h.minor h.patch (h.patch ∷ []) minors
          (split-last b'.' h.patch (digits-Lacks b'.' h.patch refl patches))) in
    ap (λ x. parts_of 3 (split b'.' x)) cut
    ∙ ap (parts_of 3) fields
    ∙ parts_of-Writes h.major a 2 (h.minor ∷ h.patch ∷ []) (b ∷ c ∷ []) h.writes_major (
        parts_of-Writes h.minor b 1 (h.patch ∷ []) (c ∷ []) h.writes_minor
          (parts_of-Writes h.patch c 0 [] [] h.writes_patch (parts_of-none 0)))
