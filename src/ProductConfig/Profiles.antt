-- ===== src/ProductConfig/Profiles.antt =====
-- internal/productconfig: the profiles of the signed catalog and their capabilities
-- (productconfig.go), and the reading of a catalog document (catalog.go). A ProfileCatalog is the
-- list of its entries.
pub mod Document
use appliance_ctl.Common.{
  String, ◌==◌, ℕ, suc, Bool, true, false, if◌then◌else◌, Option, none, some, List, [], ◌∷◌, map,
  contains, Result, ok, err, ◌>>=◌, ◌>>◌, fail_if,
}
use appliance_ctl.Common.Text.{trim_space, is_empty}

-- `Capability` and `ProfileDefinition`
abbrev pub Capability : Type 0
Capability = String

abbrev pub ProfileCatalog : Type 0
ProfileCatalog = List (String × List Capability)

abbrev pub capability_artifact : Capability
capability_artifact = "artifact"

abbrev pub capability_files : Capability
capability_files = "files"

abbrev pub capability_workflows : Capability
capability_workflows = "workflows"

abbrev pub capability_dns : Capability
capability_dns = "dns"

abbrev pub capability_inference : Capability
capability_inference = "inference"

abbrev pub capability_plaintext_http : Capability
capability_plaintext_http = "plaintext-http"

abbrev pub profile_core : String
profile_core = "core"

-- `catalog[profile]`
unfoldable pub definition : String → ProfileCatalog → Option (List Capability)
definition profile [] = none
definition profile ((name, capabilities) ∷ rest) =
    let later = definition profile rest in if name == profile then some capabilities else later

-- `capabilitiesForProfileInCatalog`
unfoldable pub capabilities_for_profile_in_catalog : String → ProfileCatalog → List Capability
unfolding definition trim_space
capabilities_for_profile_in_catalog profile catalog =
    elim (definition (trim_space profile) catalog) [ none ↦ [] | some cs ↦ cs ]

-- `HasCapabilityInCatalog`
unfoldable pub has_capability_in_catalog : String → Capability → ProfileCatalog → Bool
unfolding capabilities_for_profile_in_catalog
has_capability_in_catalog profile capability catalog =
    contains capability (capabilities_for_profile_in_catalog profile catalog)

abbrev pub or_else : String → String → String
or_else a b = if is_empty a then b else a

-- `SelectApplianceProfile`
unfoldable pub select_appliance_profile : String → String → String
unfolding trim_space
select_appliance_profile requested current =
    or_else (or_else (trim_space requested) (trim_space current)) profile_core

pub data Problem : Type 0 where
  unknown_profile : String → Problem
  empty_name : ℕ → Problem
  duplicated_name : ℕ → String → Problem

abbrev pub known : Option (List Capability) → String → Result Problem String
known none profile = err (unknown_profile profile)
known (some cs) profile = ok profile

-- `ResolveApplianceProfileWithCatalog`; the names that the error lists are left out.
unfoldable pub resolve_appliance_profile_with_catalog :
    String → String → ProfileCatalog → Result Problem String
unfolding select_appliance_profile definition
resolve_appliance_profile_with_catalog requested current catalog =
    let profile = select_appliance_profile requested current in
    known (definition profile catalog) profile

-- `CatalogProfile`
pub record CatalogProfile : Type 0 where
  pub name : String
  pub capabilities : List Capability

abbrev pub names : ProfileCatalog → List String
names catalog = map (λ (name, capabilities). name) catalog

-- The loop of `ProfileCatalogFromDocument`, at an index, with the names that have an entry.
unfoldable pub read_profiles : ℕ → List String → List CatalogProfile → Result Problem ProfileCatalog
unfolding trim_space
read_profiles idx seen [] = ok []
read_profiles idx seen (p ∷ rest) = do
  let name = trim_space p.name
  fail_if (is_empty name) (empty_name idx)
  fail_if (contains name seen) (duplicated_name idx name)
  more ← read_profiles (suc idx) (name ∷ seen) rest
  ok ((name, p.capabilities) ∷ more)

-- `ProfileCatalogFromDocument`
unfoldable pub profile_catalog_from_document : List CatalogProfile → Result Problem ProfileCatalog
unfolding read_profiles
profile_catalog_from_document profiles = read_profiles 0 [] profiles
