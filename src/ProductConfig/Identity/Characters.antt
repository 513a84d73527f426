-- ===== src/ProductConfig/Identity/Characters.antt =====
-- Texts of label characters and dots, which trimming and lower case leave alone.
use Prim.Native.Char.{Char, code}
use appliance_ctl.Common.{String, ℕ, eqb, Bool, true, false, ◌||◌, ◌≡◌, refl, ap, ◌∙◌, arith}
use appliance_ctl.Common.Text.{
  trim_space, trim_left, trim_right, is_space, is_alnum, is_label_char, all_chars,
}
use appliance_ctl.Evidence.Sanitize.{lower, to_lower}
use appliance_ctl.ProductConfig.Identity.{is_dns_label}

-- The characters of a zone.
unfoldable pub is_zone_char : ℕ → Bool
is_zone_char c = is_label_char c || eqb c b'.'

zone_char-lower : (c : Char) → is_zone_char (code c) ≡ true → lower c ≡ c
unfolding is_zone_char is_label_char is_alnum lower
zone_char-lower c h = ground arith

zone_char-is_space : (c : ℕ) → is_zone_char c ≡ true → is_space c ≡ false
unfolding is_zone_char is_label_char is_alnum is_space
zone_char-is_space c h = ground arith

to_lower-zone : (s : String) → all_chars is_zone_char s ≡ true → to_lower s ≡ s
unfolding to_lower
to_lower-zone String.[] h = refl
to_lower-zone (String.◌∷◌ c s) h = λ i.
    String.◌∷◌ (zone_char-lower c (ground (arith, h)) i) (to_lower-zone s (ground (arith, h)) i)

trim_right-zone : (s : String) → all_chars is_zone_char s ≡ true → trim_right s ≡ s
unfolding trim_right
trim_right-zone String.[] h = refl
trim_right-zone (String.◌∷◌ c s) h =
    rw (zone_char-is_space (code c) (ground (arith, h)))
      (ap (String.◌∷◌ c) (trim_right-zone s (ground (arith, h))))

trim_left-zone : (s : String) → all_chars is_zone_char s ≡ true → trim_left s ≡ s
unfolding trim_left
trim_left-zone String.[] h = refl
trim_left-zone (String.◌∷◌ c s) h = rw (zone_char-is_space (code c) (ground (arith, h))) refl

trim_space-zone : (s : String) → all_chars is_zone_char s ≡ true → trim_space s ≡ s
unfolding trim_space
trim_space-zone s h = ap trim_left (trim_right-zone s h) ∙ trim_left-zone s h

pub label_chars-zone :
    (s : String) → all_chars is_label_char s ≡ true → all_chars is_zone_char s ≡ true
unfolding is_zone_char
label_chars-zone String.[] h = refl
label_chars-zone (String.◌∷◌ c s) h = ground (arith, h, label_chars-zone s)

pub is_dns_label-chars : (s : String) → is_dns_label s ≡ true → all_chars is_label_char s ≡ true
unfolding is_dns_label is_label_char
is_dns_label-chars String.[] h = cc
is_dns_label-chars (String.◌∷◌ c String.[]) h = ground (arith, h)
is_dns_label-chars (String.◌∷◌ c (String.◌∷◌ d s)) h = ground (arith, h)

-- A text of these characters goes through trimming and lower case unchanged.
pub normal-zone : (s : String) → all_chars is_zone_char s ≡ true → to_lower (trim_space s) ≡ s
normal-zone s h = ap to_lower (trim_space-zone s h) ∙ to_lower-zone s h
