-- ===== src/Upgrade/Admission/Names.antt =====
-- internal/upgrade/upgrade.go: the names in the certificate, withApplianceFQDN.
use appliance_ctl.Common.{
  arith, String, true, false, List, [], ◌∷◌, map, contains, Distinct, eq_iff, eq_refl, ◌≡◌, refl,
  ◌↔◌, Bool-cases, inl, inr,
}
use appliance_ctl.Common.Text.{trim_space, is_empty, is_blank}
use appliance_ctl.Common.Trim.{trim_space-trim_space}
use appliance_ctl.Upgrade.Admission.{is_new, append_unique, with_appliance_fqdn}

-- A name that belongs into the list, behind those that are in it.
abbrev pub Belongs : List String → List String → String → Type 0
Belongs seen sans x =
    (is_empty x ≡ false) × ((contains x (map trim_space sans) ≡ true) × (contains x seen ≡ false))

append_unique_iff :
    (seen sans : List String) (x : String)
    → (contains x (append_unique seen sans) ≡ true) ↔ Belongs seen sans x
unfolding append_unique
append_unique_iff seen [] x = (λ h. cc, λ (a, (b, c)). cc)
append_unique_iff seen (san ∷ rest) x = elim (Bool-cases (is_new (trim_space san) seen)) [
  | inl new ↦ rw new (
      let ih = append_unique_iff (trim_space san ∷ seen) rest x in
      ground (arith, ih.0, ih.1, new, eq_iff x (trim_space san)))
  | inr old ↦ rw old (
      let ih = append_unique_iff seen rest x in
      ground (arith, ih.0, ih.1, old, eq_iff x (trim_space san)))
]

append_unique-Distinct : (seen sans : List String) → Distinct (append_unique seen sans)
unfolding append_unique
append_unique-Distinct seen [] = tt
append_unique-Distinct seen (san ∷ rest) = elim (Bool-cases (is_new (trim_space san) seen)) [
  | inl new ↦ rw new (
      let ih = append_unique-Distinct (trim_space san ∷ seen) rest in
      let iff = append_unique_iff (trim_space san ∷ seen) rest (trim_space san) in
      (ground (arith, iff.0, eq_refl (trim_space san)), ih))
  | inr old ↦ rw old (append_unique-Distinct seen rest)
]

-- Where the domain name of the appliance is not blank, it comes first among the names of the
-- certificate. None of them stands there twice, and they are exactly the entries that are not
-- blank, without the space around them.
pub with_appliance_fqdn_iff :
    (fqdn : String) (sans : List String) (x : String)
    → is_blank fqdn ≡ false
    → let out = with_appliance_fqdn fqdn sans in
      Distinct out
      × (((contains x out ≡ true) ↔ (
            (is_empty x ≡ false) × (contains x (map trim_space (trim_space fqdn ∷ sans)) ≡ true)))
          × ((rest : List String) × (out ≡ trim_space fqdn ∷ rest)))
unfolding with_appliance_fqdn append_unique is_blank
with_appliance_fqdn_iff fqdn sans x named =
    let all = trim_space fqdn ∷ sans in
    let listed = append_unique_iff [] all x in
    (
      append_unique-Distinct [] all,
      (
        (
          λ h. let (filled, (there, new)) = listed.0 h in (filled, there),
          λ (filled, there). listed.1 (filled, (there, refl)),
        ),
        rw (trim_space-trim_space fqdn) (
            let new : is_new (trim_space fqdn) [] ≡ true = ground (arith, named) in
            rw new (append_unique (trim_space fqdn ∷ []) sans, refl)),
      ),
    )
