-- ===== src/Evidence/Sanitize/Kebab.antt =====
-- What SanitizeIDSegment returns is a segment that the pattern of evidence.v1 ids admits.
use Prim.Native.Char.{code}
use appliance_ctl.Common.{
  String, eqb, Bool, true, false, not, ◌&&◌, if◌then◌else◌, ◌≡◌, refl, inl, inr, Bool-cases, arith,
}
use appliance_ctl.Common.Text.{is_alnum, is_empty}
use appliance_ctl.Evidence.Sanitize.{
  replace_runs, trim_left_hyphens, trim_right_hyphens, trim_hyphens, to_lower, sanitize_id_segment,
}

-- The pattern [a-z0-9]+(-[a-z0-9]+)*, behind a character that was in [a-z0-9] or was not.
abbrev kebab_from : Bool → String → Bool
kebab_from behind String.[] = behind
kebab_from behind (String.◌∷◌ c s) =
    let word = kebab_from true s in
    let hyphen = kebab_from false s in
    if is_alnum (code c) then word else eqb (code c) b'-' && behind && hyphen

abbrev pub is_kebab : String → Bool
is_kebab s = kebab_from false s

-- Letters, digits and single hyphens, behind a hyphen or not.
abbrev spaced : Bool → String → Bool
spaced hyphen String.[] = true
spaced hyphen (String.◌∷◌ c s) =
    let word = spaced false s in
    let next = spaced true s in
    if is_alnum (code c) then word else eqb (code c) b'-' && not hyphen && next

-- The last character is no hyphen.
abbrev closed : String → Bool
closed String.[] = true
closed (String.◌∷◌ c s) =
    let rest = closed s in if is_empty s then not (eqb (code c) b'-') else rest

not_alnum : is_alnum b'-' ≡ false
unfolding is_alnum
not_alnum = refl

unknown_kebab : is_kebab "unknown" ≡ true
unfolding is_alnum
unknown_kebab = refl

replace_runs-spaced : (h : Bool) (s : String) → spaced h (replace_runs h s) ≡ true
unfolding replace_runs
replace_runs-spaced h String.[] = refl
replace_runs-spaced true (String.◌∷◌ c s) =
    ground (arith, replace_runs-spaced true s, replace_runs-spaced false s)
replace_runs-spaced false (String.◌∷◌ c s) =
    ground (arith, replace_runs-spaced true s, replace_runs-spaced false s, not_alnum)

trim_right_hyphens-closed : (s : String) → closed (trim_right_hyphens s) ≡ true
trim_right_hyphens-closed String.[] = refl
trim_right_hyphens-closed (String.◌∷◌ c s) = ground (arith, trim_right_hyphens-closed s)

trim_right_hyphens-spaced :
    (h : Bool) (s : String) → spaced h s ≡ true → spaced h (trim_right_hyphens s) ≡ true
trim_right_hyphens-spaced h String.[] e = refl
trim_right_hyphens-spaced h (String.◌∷◌ c s) e =
    elim (Bool-cases (eqb (code c) b'-' && is_empty (trim_right_hyphens s))) [
      | inl last ↦ rw last
      | inr more ↦
          rw more
            (ground (arith, trim_right_hyphens-spaced true s, trim_right_hyphens-spaced false s))
    ]

trim_left_hyphens-spaced :
    (h : Bool) (s : String)
    → spaced h s ≡ true
    → closed s ≡ true
    → (spaced true (trim_left_hyphens s) ≡ true) × (closed (trim_left_hyphens s) ≡ true)
unfolding is_alnum
trim_left_hyphens-spaced h String.[] e k = (refl, refl)
trim_left_hyphens-spaced h (String.◌∷◌ c s) e k = ground (arith, trim_left_hyphens-spaced true s)

kebab_of_empty : (b : Bool) (s : String) → is_empty s ≡ true → kebab_from b s ≡ b
kebab_of_empty b String.[] e = refl
kebab_of_empty b (String.◌∷◌ c s) e = cc

kebab_of_spaced :
    (h : Bool) (s : String)
    → spaced h s ≡ true
    → closed s ≡ true
    → is_empty s ≡ false
    → kebab_from (not h) s ≡ true
kebab_of_spaced h String.[] e k n = cc
kebab_of_spaced h (String.◌∷◌ c s) e k n =
    ground (arith, kebab_of_spaced true s, kebab_of_spaced false s, kebab_of_empty true s)

-- What the trimmed text is when it is not empty.
trim_hyphens-kebab :
    (s : String)
    → is_empty (trim_hyphens (replace_runs false s)) ≡ false
    → is_kebab (trim_hyphens (replace_runs false s)) ≡ true
unfolding trim_hyphens
trim_hyphens-kebab s n =
    let runs = replace_runs false s in
    let (e, k) =
      trim_left_hyphens-spaced false (trim_right_hyphens runs)
        (trim_right_hyphens-spaced false runs (replace_runs-spaced false s))
        (trim_right_hyphens-closed runs) in
    kebab_of_spaced true (trim_left_hyphens (trim_right_hyphens runs)) e k n

-- SanitizeIDSegment returns, for every text, words of [a-z0-9] that are joined by single hyphens:
-- never the empty text, and none with a hyphen at an end.
pub sanitize_id_segment-kebab : (s : String) → is_kebab (sanitize_id_segment s) ≡ true
unfolding sanitize_id_segment
sanitize_id_segment-kebab s =
    elim (Bool-cases (is_empty (trim_hyphens (replace_runs false (to_lower s))))) [
      | inl none_left ↦ rw none_left unknown_kebab
      | inr some_left ↦ rw some_left (trim_hyphens-kebab (to_lower s) some_left)
    ]
