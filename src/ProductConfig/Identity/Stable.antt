-- ===== src/ProductConfig/Identity/Stable.antt =====
-- A resolved identity is made of DNS labels, and resolving it again changes nothing.
use Prim.Native.Char.{Char, code}
use mathlib.Core.Path.{subst}
use appliance_ctl.Common.{
  String, ◌<>◌, eqb, Bool, true, false, ◌&&◌, if◌then◌else◌, List, [], ◌∷◌, length, Result, ok, ◌≡◌,
  refl, ap, sym, ◌∙◌, arith, Bool-cases, inl, inr, ◌≤◌, ltb, >>=-eq-ok,
}
use appliance_ctl.Common.Split.{split, onto_first}
use appliance_ctl.Common.Text.{trim_space, is_empty, is_label_char, all_chars}
use appliance_ctl.Evidence.Sanitize.{to_lower}
use appliance_ctl.ProductConfig.Identity.Characters.{
  is_zone_char, label_chars-zone, is_dns_label-chars, normal-zone,
}
use appliance_ctl.ProductConfig.Identity.{
  ApplianceIdentity, Problem, is_dns_label, trim_dot, all_labels, check_name,
  normalize_appliance_name, check_zone, zone_or_default, normalize_dns_zone,
  resolve_appliance_identity,
}

check_name-ok :
    (name result : String)
    → check_name name ≡ ok result
    → (is_dns_label name ≡ true) × (name ≡ result)
unfolding check_name
check_name-ok name result h = (ground (arith, h), ground (arith, h))

-- A name that was accepted is its own normal form.
normalize_appliance_name-fixed :
    (name result : String)
    → normalize_appliance_name name ≡ ok result
    → (is_dns_label result ≡ true) × (normalize_appliance_name result ≡ ok result)
unfolding normalize_appliance_name
normalize_appliance_name-fixed name result h =
    let (label, same) = check_name-ok (to_lower (trim_space name)) result h in
    let label' : is_dns_label result ≡ true = ap is_dns_label (sym same) ∙ label in
    let fixed = normal-zone result (label_chars-zone result (is_dns_label-chars result label')) in
    (label', ap check_name (fixed ∙ sym same) ∙ h)

-- The labels of a text, each of label characters.
plain_labels : List String → Bool
plain_labels [] = true
plain_labels (l ∷ rest) = all_chars is_label_char l && plain_labels rest

all_labels-plain : (ls : List String) → all_labels ls ≡ true → plain_labels ls ≡ true
unfolding all_labels plain_labels
all_labels-plain [] h = refl
all_labels-plain (l ∷ rest) h = ground (arith, h, is_dns_label-chars l, all_labels-plain rest)

onto_first-plain :
    (d : Char) (ls : List String)
    → plain_labels (onto_first d ls) ≡ true
    → (is_label_char (code d) ≡ true) × (plain_labels ls ≡ true)
unfolding plain_labels
onto_first-plain d [] h = (ground (arith, h), refl)
onto_first-plain d (l ∷ rest) h = (ground (arith, h), ground (arith, h))

split-zone : (s : String) → plain_labels (split b'.' s) ≡ true → all_chars is_zone_char s ≡ true
unfolding split is_zone_char plain_labels
split-zone String.[] h = refl
split-zone (String.◌∷◌ d s) h = elim (Bool-cases (eqb (code d) b'.')) [
  | inl dot ↦ ground (arith, dot, split-zone s (ground (arith, h, dot)))
  | inr other ↦
      let (one, more) = onto_first-plain d (split b'.' s) (rw other at h) in
      ground (arith, one, split-zone s more)
]

-- The last of the labels behind the first is empty.
last_empty : List String → Bool
last_empty [] = false
last_empty (l ∷ rest) = elim rest [ [] ↦ is_empty l | _ ∷ _ ↦ last_empty rest ]

dangling : List String → Bool
dangling [] = false
dangling (l ∷ rest) = last_empty rest

dangling-last_empty : (ls : List String) → dangling ls ≡ true → last_empty ls ≡ true
unfolding dangling last_empty
dangling-last_empty [] h = cc
dangling-last_empty (l ∷ []) h = cc
dangling-last_empty (l ∷ m ∷ rest) h = h

last_empty-all_labels : (ls : List String) → last_empty ls ≡ true → all_labels ls ≡ false
unfolding last_empty all_labels is_dns_label
last_empty-all_labels [] h = cc
last_empty-all_labels (String.[] ∷ []) h = refl
last_empty-all_labels (String.◌∷◌ c l ∷ []) h = cc
last_empty-all_labels (l ∷ m ∷ rest) h = ground (arith, last_empty-all_labels (m ∷ rest) h)

ends_dot : String → Bool
ends_dot String.[] = false
ends_dot (String.◌∷◌ c s) =
    let later = ends_dot s in if is_empty s then eqb (code c) b'.' else later

onto_first-dangling :
    (d : Char) (ls : List String) → dangling ls ≡ true → dangling (onto_first d ls) ≡ true
unfolding dangling
onto_first-dangling d [] h = cc
onto_first-dangling d (l ∷ rest) h = h

split-dangling : (s : String) → ends_dot s ≡ true → dangling (split b'.' s) ≡ true
unfolding split ends_dot dangling last_empty
split-dangling String.[] h = cc
split-dangling (String.◌∷◌ c String.[]) h = rw h refl
split-dangling (String.◌∷◌ c (String.◌∷◌ d s)) h =
    let ih = split-dangling (String.◌∷◌ d s) h in
    elim (Bool-cases (eqb (code c) b'.')) [
      | inl dot ↦ rw dot (dangling-last_empty (split b'.' (String.◌∷◌ d s)) ih)
      | inr other ↦ rw other (onto_first-dangling c (split b'.' (String.◌∷◌ d s)) ih)
    ]

trim_dot-fixed : (s : String) → ends_dot s ≡ false → trim_dot s ≡ s
unfolding trim_dot ends_dot
trim_dot-fixed String.[] h = refl
trim_dot-fixed (String.◌∷◌ c String.[]) h = rw h refl
trim_dot-fixed (String.◌∷◌ c (String.◌∷◌ d s)) h = elim (Bool-cases (eqb (code c) b'.')) [
  | inl dot ↦ rw dot (ap (String.◌∷◌ c) (trim_dot-fixed (String.◌∷◌ d s) h))
  | inr other ↦ rw other (ap (String.◌∷◌ c) (trim_dot-fixed (String.◌∷◌ d s) h))
]

-- Labels in a row end with no dot.
ends_dot-labels : (s : String) → all_labels (split b'.' s) ≡ true → ends_dot s ≡ false
ends_dot-labels s h = elim (Bool-cases (ends_dot s)) [
  | inl dot ↦
      let none_last =
        last_empty-all_labels (split b'.' s)
          (dangling-last_empty (split b'.' s) (split-dangling s dot)) in
      absurd (ground (arith, h, none_last))
  | inr no_dot ↦ no_dot
]

check_zone-ok :
    (zone result : String)
    → check_zone zone ≡ ok result
    → (zone ≡ result)
      × (all_labels (split b'.' zone) ≡ true)
      × (ltb (length (split b'.' zone)) 2 ≡ false)
unfolding check_zone
check_zone-ok zone result h = (ground (arith, h), ground (arith, h), ground (arith, h))

not_empty-two : (s : String) → ltb (length (split b'.' s)) 2 ≡ false → is_empty s ≡ false
unfolding split
not_empty-two String.[] h = cc
not_empty-two (String.◌∷◌ c s) h = refl

-- A zone that was accepted is its own normal form.
normalize_dns_zone-fixed :
    (zone result : String)
    → normalize_dns_zone zone ≡ ok result
    → (all_labels (split b'.' result) ≡ true)
      × (2 ≤ length (split b'.' result))
      × (normalize_dns_zone result ≡ ok result)
unfolding normalize_dns_zone
normalize_dns_zone-fixed zone result h =
    let checked = zone_or_default (trim_dot (to_lower (trim_space zone))) in
    let (same, labels, two) = check_zone-ok checked result h in
    let labels' : all_labels (split b'.' result) ≡ true =
      ap (λ z. all_labels (split b'.' z)) (sym same) ∙ labels in
    let two' : ltb (length (split b'.' result)) 2 ≡ false =
      ap (λ z. ltb (length (split b'.' z)) 2) (sym same) ∙ two in
    let plain =
      normal-zone result (split-zone result (all_labels-plain (split b'.' result) labels')) in
    let undotted = trim_dot-fixed result (ends_dot-labels result labels') in
    let kept : zone_or_default result ≡ result = rw (not_empty-two result two') refl in
    (
      labels',
      ground (arith, two'),
      ap check_zone (ap zone_or_default (ap trim_dot plain ∙ undotted) ∙ kept ∙ sym same) ∙ h,
    )

ok_same : {i j : ApplianceIdentity} → Path (Result Problem ApplianceIdentity) (ok i) (ok j) → i ≡ j
ok_same h = cc

-- A DNS label as the name, two labels or more and nothing else as the zone, both joined by a dot as
-- the FQDN; and resolving the name and the zone again gives the same identity.
abbrev pub IsStable : ApplianceIdentity → Type 0
IsStable i =
    (is_dns_label i.name ≡ true)
    × (all_labels (split b'.' i.zone) ≡ true)
    × (2 ≤ length (split b'.' i.zone))
    × (i.fqdn ≡ i.name <> "." <> i.zone)
    × (resolve_appliance_identity i.name i.zone ≡ ok i)

-- Every identity that ResolveApplianceIdentity returns has a DNS label as its name, at least two DNS
-- labels and nothing else as its zone, and the two joined by a dot as its FQDN; resolving its name
-- and zone again gives the same identity.
pub resolve_appliance_identity-IsStable :
    (name zone : String) (identity : ApplianceIdentity)
    → resolve_appliance_identity name zone ≡ ok identity
    → IsStable identity
unfolding resolve_appliance_identity
resolve_appliance_identity-IsStable name zone identity h =
    let (n, name_ok, more) = >>=-eq-ok (normalize_appliance_name name) _ h in
    let (z, zone_ok, done) = >>=-eq-ok (normalize_dns_zone zone) _ more in
    let (label, name_fixed) = normalize_appliance_name-fixed name n name_ok in
    let (labels, two, zone_fixed) = normalize_dns_zone-fixed zone z zone_ok in
    subst IsStable (ok_same done) (label, labels, two, refl, rw (name_fixed, zone_fixed) refl)
