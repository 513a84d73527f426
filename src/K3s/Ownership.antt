-- ===== src/K3s/Ownership.antt =====
-- internal/k3s/ownership.go: what the host's K3s service and the installed-state record decide.
-- strings.Join is `Text.join`.
pub mod Safety
use appliance_ctl.Common.{
  String, ◌<>◌, ◌==◌, Bool, true, false, not, ◌&&◌, Option, none, some, List, [], ◌∷◌, ◌++◌,
  if◌then◌else◌,
}
use appliance_ctl.Common.Text.{join}
use appliance_ctl.State.{InstalledState}

pub record ServiceSignal : Type 0 where
  pub detected : Bool
  pub active : Bool
  pub healthy : Bool
  pub running_version : String
  pub foreign_namespaces : List String

pub data Decision : Type 0 where
  fresh_install reuse_owned upgrade_owned requires_repair : Decision
  reject_unrecorded_existing_service adopt_existing requires_force_adopt : Decision

abbrev pub is_nil : List String → Bool
is_nil [] = true
is_nil (x ∷ xs) = false

-- `%t`
format_bool : Bool → String
format_bool true = "true"
format_bool false = "false"

-- The branch for a recorded installation.
unfoldable pub decide_recorded : String → InstalledState → ServiceSignal → Decision × String
decide_recorded version installed signal =
    let owner = installed.k3s_ownership.owner_appliance_version in
    if not installed.k3s_ownership.owned
    then (requires_force_adopt, "installed-state does not record appliance ownership of K3s")
    else if not signal.detected
    then (
      requires_repair,
      "installed-state records an owned K3s installation, but no K3s service was found on the host",
    )
    else if not (owner == version)
    then (
      upgrade_owned,
      "K3s is owned by appliance version " <> owner <> "; the upgrade path applies",
    )
    else (reuse_owned, "K3s is already owned by appliance version " <> version)

-- The reasons that the last return of `DecideOwnership` collects.
refusal_reasons : ServiceSignal → List String
refusal_reasons signal =
    (if not signal.healthy then "cluster health could not be confirmed" ∷ [] else [])
    ++ (if not (is_nil signal.foreign_namespaces)
        then ("foreign workloads present in namespace(s): " <> join ", " signal.foreign_namespaces)
          ∷ []
        else [])

-- The branch for a host with no installed-state.
unfoldable pub decide_unrecorded : ServiceSignal → Bool → Bool → Decision × String
unfolding format_bool refusal_reasons
decide_unrecorded signal prior_install_attempted force_adopt =
    if not signal.detected
    then (fresh_install, "no existing K3s detected; proceeding with a fresh install")
    else if prior_install_attempted
    then (
      reject_unrecorded_existing_service,
      "a K3s service exists but no installed-state was ever recorded for it; run 'zonctl repair' before installing",
    )
    else if signal.healthy && is_nil signal.foreign_namespaces
    then (
      adopt_existing,
      "existing K3s cluster is healthy and carries no foreign workloads; adopting it",
    )
    else if force_adopt
    then (
      adopt_existing,
      "adopting existing K3s cluster by explicit override (healthy="
          <> format_bool signal.healthy
          <> ", foreign workloads: "
          <> join ", " signal.foreign_namespaces
          <> ")",
    )
    else (
      requires_force_adopt,
      "an existing K3s cluster was found that this appliance never installed ("
          <> join "; " (refusal_reasons signal)
          <> "); pass an explicit force-adopt override to take ownership",
    )

-- `DecideOwnership`
unfoldable pub decide_ownership :
    String → Option InstalledState → ServiceSignal → Bool → Bool → Decision × String
unfolding decide_recorded decide_unrecorded
decide_ownership version none signal prior force = decide_unrecorded signal prior force
decide_ownership version (some installed) signal prior force =
    decide_recorded version installed signal
