-- ===== src/Repair/Bounds.antt =====
-- What repair may do to the host, and when it succeeds.
use appliance_ctl.Common.{
  String, Bool, true, false, Option, none, some, List, [], ◌∷◌, ◌≡◌, ◌↔◌, ◌⊎◌, arith,
}
use appliance_ctl.State.{InstalledState}
use appliance_ctl.K3s.Ownership.{ServiceSignal}
use appliance_ctl.Repair.{
  Call, detect_service, restart, Ops, repair, repair_signal, restart_service, is_owned,
}

-- Some call of the trace restarts a service.
abbrev pub restarts : List Call → Bool
restarts [] = false
restarts (detect_service unit ∷ rest) = restarts rest
restarts (restart unit ∷ rest) = true

-- The answer of a host whose service is there with this activity.
abbrev pub Observes : Option ServiceSignal → Bool → Type 0
Observes none active = ⊥
Observes (some s) active = (s.detected ≡ true) × (s.active ≡ active)

module _ (ops : Ops) (unit_name : String) where
  restart_service-restarts : restarts (restart_service ops unit_name).calls ≡ true
  unfolding restart_service
  restart_service-restarts = ground arith

  restart_service-ok :
      ((restart_service ops unit_name).error ≡ none) ↔ (ops.restart_error unit_name ≡ none)
  unfolding restart_service
  restart_service-ok = (λ h. ground arith, λ h. ground arith)

  repair_signal-restarts :
      (d : Option ServiceSignal)
      → (restarts (repair_signal ops unit_name d).calls ≡ true) ↔ Observes d false
  unfolding repair_signal
  repair_signal-restarts none = (λ h. ground arith, λ h. ground arith)
  repair_signal-restarts (some s) =
      (λ h. ground arith, λ h. ground (arith, restart_service-restarts))

  repair_signal-ok :
      (d : Option ServiceSignal)
      → ((repair_signal ops unit_name d).error ≡ none)
        ↔ (Observes d true ⊎ (Observes d false × (ops.restart_error unit_name ≡ none)))
  unfolding repair_signal
  repair_signal-ok none = (λ h. ground arith, λ h. ground arith)
  repair_signal-ok (some s) =
      (λ h. ground (arith, restart_service-ok.0), λ h. ground (arith, restart_service-ok.1))

module _ (ops : Ops) (installed : Option InstalledState) (unit_name : String) where
  -- Repair restarts K3s exactly when the appliance owns it and its service exists but is not
  -- active.
  repair-restarts :
      (restarts (repair ops installed unit_name).calls ≡ true)
      ↔ ((is_owned installed ≡ true) × Observes (ops.detect unit_name) false)
  unfolding repair
  repair-restarts =
      let one = repair_signal-restarts ops unit_name (ops.detect unit_name) in
      (λ h. ground (arith, one.0), λ h. ground (arith, one.1))

  -- Repair succeeds exactly when the appliance owns K3s and its service is active already, or is
  -- there and the restart works.
  repair-ok : ((repair ops installed unit_name).error ≡ none) ↔ (
      (is_owned installed ≡ true)
      × (Observes (ops.detect unit_name) true
          ⊎ (Observes (ops.detect unit_name) false × (ops.restart_error unit_name ≡ none))))
  unfolding repair
  repair-ok =
      let one = repair_signal-ok ops unit_name (ops.detect unit_name) in
      (λ h. ground (arith, one.0), λ h. ground (arith, one.1))

  -- Repair restarts K3s exactly when the appliance owns it and its service is there but not active.
  -- It succeeds exactly when the appliance owns K3s and its service is active already, or is there
  -- and the restart works.
  pub repair-outcome :
      ((restarts (repair ops installed unit_name).calls ≡ true)
        ↔ ((is_owned installed ≡ true) × Observes (ops.detect unit_name) false))
      × (((repair ops installed unit_name).error ≡ none) ↔ (
          (is_owned installed ≡ true)
          × (Observes (ops.detect unit_name) true
              ⊎ (Observes (ops.detect unit_name) false × (ops.restart_error unit_name ≡ none)))))
  repair-outcome = (repair-restarts, repair-ok)
