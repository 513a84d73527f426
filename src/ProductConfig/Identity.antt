-- ===== src/ProductConfig/Identity.antt =====
-- internal/productconfig/productconfig.go: the name of an appliance on the LAN. The values that the
-- errors quote are left out.
mod Characters
pub mod Stable
use Prim.Native.Char.{code}
use appliance_ctl.Common.{
  String, ◌<>◌, ◌==◌, ℕ, eqb, ltb, Bool, true, false, not, ◌&&◌, ◌||◌, if◌then◌else◌, List, [], ◌∷◌,
  length, Result, ok, err, ◌>>=◌, ◌>>◌, fail_if,
}
use appliance_ctl.Common.Split.{split}
use appliance_ctl.Common.Text.{trim_space, is_empty, is_alnum, is_label_char, all_chars, last_char}
use appliance_ctl.Evidence.Sanitize.{to_lower}

pub record ApplianceIdentity : Type 0 where
  pub name : String
  pub zone : String
  pub fqdn : String

pub data Problem : Type 0 where
  invalid_name reserved_zone single_label invalid_label : Problem

abbrev pub default_lan_dns_zone : String
default_lan_dns_zone = "appliance.internal"

-- `dnsLabelRE`, ^[a-z0-9]([-a-z0-9]*[a-z0-9])?$
unfoldable pub is_dns_label : String → Bool
unfolding is_label_char is_alnum
is_dns_label String.[] = false
is_dns_label (String.◌∷◌ c s) =
    is_alnum (code c) && (is_empty s || (all_chars is_label_char s && is_alnum (last_char 0 s)))

-- `strings.TrimSuffix(s, ".")`
unfoldable pub trim_dot : String → String
trim_dot String.[] = String.[]
trim_dot (String.◌∷◌ c s) =
    let rest = trim_dot s in
    if eqb (code c) b'.' && is_empty s then String.[] else String.◌∷◌ c rest

-- `strings.HasSuffix`
unfoldable pub has_suffix : String → String → Bool
has_suffix String.[] suffix = String.[] == suffix
has_suffix (String.◌∷◌ c s) suffix =
    let later = has_suffix s suffix in (String.◌∷◌ c s == suffix) || later

unfoldable pub all_labels : List String → Bool
unfolding is_dns_label
all_labels [] = true
all_labels (label ∷ rest) = is_dns_label label && all_labels rest

-- `NormalizeApplianceName`, behind trimming and lower case.
unfoldable pub check_name : String → Result Problem String
unfolding is_dns_label
check_name name =
    if is_empty name || name == "ns" || not (is_dns_label name) then err invalid_name else ok name

-- `NormalizeApplianceName`
unfoldable pub normalize_appliance_name : String → Result Problem String
unfolding trim_space to_lower check_name
normalize_appliance_name name = check_name (to_lower (trim_space name))

-- The tests of `NormalizeDNSZone`.
unfoldable pub check_zone : String → Result Problem String
unfolding has_suffix split all_labels
check_zone zone = do
  fail_if (zone == "local" || has_suffix zone ".local") reserved_zone
  fail_if (ltb (length (split b'.' zone)) 2) single_label
  fail_if (not (all_labels (split b'.' zone))) invalid_label
  ok zone

abbrev pub zone_or_default : String → String
zone_or_default zone = if is_empty zone then default_lan_dns_zone else zone

-- `NormalizeDNSZone`
unfoldable pub normalize_dns_zone : String → Result Problem String
unfolding trim_space to_lower trim_dot check_zone
normalize_dns_zone zone = check_zone (zone_or_default (trim_dot (to_lower (trim_space zone))))

-- `ResolveApplianceIdentity`
unfoldable pub resolve_appliance_identity : String → String → Result Problem ApplianceIdentity
unfolding normalize_appliance_name normalize_dns_zone
resolve_appliance_identity name zone = do
  normalized_name ← normalize_appliance_name name
  normalized_zone ← normalize_dns_zone zone
  ok (record {
    name = normalized_name;
    zone = normalized_zone;
    fqdn = normalized_name <> "." <> normalized_zone;
  })
