-- ===== src/K3s/Ownership/Safety.antt =====
-- What a decision of `DecideOwnership` presupposes.
use appliance_ctl.Common.{String, Bool, true, false, Option, none, [], ◌≡◌, ◌↔◌, ◌⊎◌, arith}
use appliance_ctl.State.{InstalledState}
use appliance_ctl.K3s.Ownership.{ServiceSignal, fresh_install, adopt_existing, decide_ownership}

module _ (version : String) (installed : Option InstalledState) (signal : ServiceSignal)
    (prior force : Bool) where
  -- A cluster is adopted exactly when a service exists, running or not, that no installed-state and
  -- no interrupted install accounts for, and it either is healthy with no foreign namespace or is forced.
  pub adopt_existing_iff :
      ((decide_ownership version installed signal prior force).0 ≡ adopt_existing) ↔ (
        (installed ≡ none)
        × (signal.detected ≡ true)
        × (prior ≡ false)
        × (((signal.healthy ≡ true) × (signal.foreign_namespaces ≡ [])) ⊎ (force ≡ true)))
  unfolding decide_ownership
  adopt_existing_iff = (λ h. ground arith, λ h. ground arith)

  -- A fresh install is chosen exactly when nothing is recorded and no service exists.
  pub fresh_install_iff :
      ((decide_ownership version installed signal prior force).0 ≡ fresh_install)
      ↔ ((installed ≡ none) × (signal.detected ≡ false))
  unfolding decide_ownership
  fresh_install_iff = (λ h. ground arith, λ h. ground arith)
