-- ===== src/ProductConfig/Profiles/Document.antt =====
-- internal/productconfig/catalog.go: what ProfileCatalogFromDocument accepts and returns.
use appliance_ctl.Common.{
  String, ℕ, suc, false, List, [], ◌∷◌, map, contains, Result, ok, ◌≡◌, refl, sym, ap, ◌∙◌, ◌↔◌,
  fail_if->>, >>=-eq-ok,
}
use appliance_ctl.Common.Text.{trim_space, is_empty}
use appliance_ctl.ProductConfig.Profiles.{
  ProfileCatalog, Problem, CatalogProfile, read_profiles, profile_catalog_from_document,
}

ok_same : {a b : ProfileCatalog} → Path (Result Problem ProfileCatalog) (ok a) (ok b) → a ≡ b
ok_same h = cc

-- The names are there, and none is doubled or among those seen before.
abbrev pub HasNewNames : List String → List CatalogProfile → Type 0
HasNewNames seen [] = Unit
HasNewNames seen (p ∷ rest) =
    (is_empty (trim_space p.name) ≡ false)
    × ((contains (trim_space p.name) seen ≡ false) × HasNewNames (trim_space p.name ∷ seen) rest)

-- The entries of the catalog.
abbrev pub entries : List CatalogProfile → ProfileCatalog
entries profiles = map (λ p. (trim_space p.name, p.capabilities)) profiles

read_profiles_if :
    (idx : ℕ) (seen : List String) (profiles : List CatalogProfile)
    → HasNewNames seen profiles
    → read_profiles idx seen profiles ≡ ok (entries profiles)
unfolding read_profiles
read_profiles_if idx seen [] h = refl
read_profiles_if idx seen (p ∷ rest) (named, (new, more)) =
    rw named (rw new (rw (read_profiles_if (suc idx) (trim_space p.name ∷ seen) rest more) refl))

read_profiles_only :
    (idx : ℕ) (seen : List String) (profiles : List CatalogProfile) (catalog : ProfileCatalog)
    → read_profiles idx seen profiles ≡ ok catalog
    → HasNewNames seen profiles
unfolding read_profiles
read_profiles_only idx seen [] catalog h = tt
read_profiles_only idx seen (p ∷ rest) catalog h =
    let (named, h1) = fail_if->> (is_empty (trim_space p.name)) (Problem.empty_name idx) _ h in
    let (new, h2) =
      fail_if->> (contains (trim_space p.name) seen)
        (Problem.duplicated_name idx (trim_space p.name)) _ h1 in
    let (more, read, h3) =
      >>=-eq-ok (read_profiles (suc idx) (trim_space p.name ∷ seen) rest) _ h2 in
    (named, (new, read_profiles_only (suc idx) (trim_space p.name ∷ seen) rest more read))

-- A document is read exactly when each of its names, without the space around it, is there and is
-- no other's, and the catalog then has each profile's capabilities under that name.
pub profile_catalog_from_document_iff :
    (profiles : List CatalogProfile) (catalog : ProfileCatalog)
    → (profile_catalog_from_document profiles ≡ ok catalog)
      ↔ (HasNewNames [] profiles × (catalog ≡ entries profiles))
unfolding profile_catalog_from_document
profile_catalog_from_document_iff profiles catalog = (
  λ h.
      let named = read_profiles_only 0 [] profiles catalog h in
      (named, ok_same (sym h ∙ read_profiles_if 0 [] profiles named)),
  λ (named, same). read_profiles_if 0 [] profiles named ∙ ap ok (sym same),
)
