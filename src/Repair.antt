-- ===== src/Repair.antt =====
-- internal/repair/repair.go: the one remediation of K3s. The host is what `k3s.Ops` answers
-- (DetectService, Restart), and the calls that reach it are the run's trace.
pub mod Bounds
use appliance_ctl.Common.{
  String, ◌<>◌, Bool, true, false, not, Option, none, some, List, [], ◌∷◌, if◌then◌else◌,
}
use appliance_ctl.State.{InstalledState}
use appliance_ctl.K3s.Ownership.{ServiceSignal}
use appliance_ctl.Evidence.{Check, pass, fail}

pub data Call : Type 0 where
  detect_service : String → Call
  restart : String → Call

-- The two operations of `k3s.Ops` that repair uses, an error with its text.
pub record Ops : Type 0 where
  pub detect : String → Option ServiceSignal
  pub detect_error : String
  pub restart_error : String → Option String

-- The checks, the error and the calls of a run.
pub record Outcome : Type 0 where
  pub checks : List Check
  pub error : Option String
  pub calls : List Call

-- The check that repair reports.
unfoldable pub service_check : Bool → String → Check
service_check ok message = record {
  id = "repair-k3s-service";
  category = "k3s";
  status = if ok then pass else fail;
  message = message;
  remediation = "";
}

-- A failed check with the error that repeats it.
abbrev pub refuse : String → List Call → Outcome
refuse message calls = record {
  checks = service_check false message ∷ [];
  error = some ("repair: " <> message);
  calls = calls;
}

-- From the restart on.
unfoldable pub restart_service : Ops → String → Outcome
restart_service ops unit_name =
    let calls = detect_service unit_name ∷ restart unit_name ∷ [] in
    elim (ops.restart_error unit_name) [
      | some err ↦ record {
        checks = service_check false ("failed to restart k3s: " <> err) ∷ [];
        error = some ("repair: restart k3s: " <> err);
        calls = calls;
      }
      | none ↦ record {
        checks = service_check true "k3s was stopped and has been restarted" ∷ [];
        error = none;
        calls = calls;
      }
    ]

-- From the answer of DetectService on.
unfoldable pub repair_signal : Ops → String → Option ServiceSignal → Outcome
unfolding restart_service
repair_signal ops unit_name none = record {
  checks = [];
  error = some ("repair: detect k3s service: " <> ops.detect_error);
  calls = detect_service unit_name ∷ [];
}
repair_signal ops unit_name (some signal) =
    let calls = detect_service unit_name ∷ [] in
    if not signal.detected
    then refuse
        "installed-state records an owned K3s installation, but its service is missing entirely; this cannot be repaired, restore from backup"
        calls
    else if signal.active
    then record {
      checks = service_check true "k3s is already active; nothing to repair" ∷ [];
      error = none;
      calls = calls;
    }
    else restart_service ops unit_name

abbrev pub is_owned : Option InstalledState → Bool
is_owned none = false
is_owned (some installed) = installed.k3s_ownership.owned

-- `Repair`
unfoldable pub repair : Ops → Option InstalledState → String → Outcome
unfolding repair_signal
repair ops installed unit_name =
    if not (is_owned installed)
    then refuse
        "no owned installation is recorded; repair cannot proceed without first running install or restore"
        []
    else repair_signal ops unit_name (ops.detect unit_name)
