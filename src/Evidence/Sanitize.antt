-- ===== src/Evidence/Sanitize.antt =====
-- internal/evidence/evidence.go: SanitizeIDSegment. strings.ToLower is written out where it
-- matters: on the letters A to Z and on U+0130 and U+212A, the characters outside ASCII whose lower
-- case is in [a-z0-9]; it takes every other character outside [a-z0-9] to one outside.
pub mod Kebab
use Prim.Native.Char.{Char, code}
use appliance_ctl.Common.{
  String, ℕ, zero, suc, ◌-◌, leb, eqb, Bool, true, false, not, ◌&&◌, ◌||◌, if◌then◌else◌,
}
use appliance_ctl.Common.Text.{is_alnum, is_empty}

abbrev pub drop_chars : ℕ → String → String
drop_chars zero s = s
drop_chars (suc n) String.[] = String.[]
drop_chars (suc n) (String.◌∷◌ c s) = drop_chars n s

abbrev pub first_char : Char → String → Char
first_char d String.[] = d
first_char d (String.◌∷◌ c s) = c

-- The lower case of one character.
unfoldable pub lower : Char → Char
lower c =
    if leb b'A' (code c) && leb (code c) b'Z'
    then first_char c (drop_chars (code c - b'A') "abcdefghijklmnopqrstuvwxyz")
    else if eqb (code c) 0x130
    then "i"
    else if eqb (code c) 0x212a
    then "k"
    else c

-- `strings.ToLower`
unfoldable pub to_lower : String → String
unfolding lower
to_lower String.[] = String.[]
to_lower (String.◌∷◌ c s) = String.◌∷◌ (lower c) (to_lower s)

-- `nonKebabRun.ReplaceAllString(s, "-")`: a hyphen for each run of characters outside [a-z0-9],
-- where `in_run` tells that the last character was one of them.
unfoldable pub replace_runs : Bool → String → String
unfolding is_alnum
replace_runs in_run String.[] = String.[]
replace_runs in_run (String.◌∷◌ c s) =
    let inside = replace_runs true s in
    let outside = replace_runs false s in
    if is_alnum (code c)
    then String.◌∷◌ c outside
    else if in_run
    then inside
    else String.◌∷◌ "-" inside

abbrev pub trim_left_hyphens : String → String
trim_left_hyphens String.[] = String.[]
trim_left_hyphens (String.◌∷◌ c s) =
    if eqb (code c) b'-' then trim_left_hyphens s else String.◌∷◌ c s

abbrev pub trim_right_hyphens : String → String
trim_right_hyphens String.[] = String.[]
trim_right_hyphens (String.◌∷◌ c s) =
    let rest = trim_right_hyphens s in
    if eqb (code c) b'-' && is_empty rest then String.[] else String.◌∷◌ c rest

-- `strings.Trim(s, "-")`
unfoldable pub trim_hyphens : String → String
trim_hyphens s = trim_left_hyphens (trim_right_hyphens s)

-- `SanitizeIDSegment`
unfoldable pub sanitize_id_segment : String → String
unfolding trim_hyphens replace_runs to_lower
sanitize_id_segment s =
    let segment = trim_hyphens (replace_runs false (to_lower s)) in
    if is_empty segment then "unknown" else segment
