-- ===== src/Upgrade/Host.antt =====
-- internal/upgrade/upgrade.go: the host that an upgrade works on. The calls into other packages that
-- change something are logged, newest first; what a call answers depends on the calls before it.
-- The adapters of the Orchestrator are those that NewOrchestrator wires; none of them is nil.
use appliance_ctl.Common.{String, ◌<>◌, ℕ, Bool, Option, List, [], ◌∷◌, ◌++◌, map, Result, ok, err}
use appliance_ctl.Common.Effects.{Outcome, Run, return, fail_with}
use appliance_ctl.Backup as Recovery
use appliance_ctl.Evidence.{Check, Status}
use appliance_ctl.HostDirs.{OwnedDir}
use appliance_ctl.Lifecycle.Atomic.{Disk}
use appliance_ctl.Preflight.{Facts}
use appliance_ctl.ProductConfig.Identity.{ApplianceIdentity, Problem}
use appliance_ctl.State.{InstalledState}
use appliance_ctl.Upgrade.Options.{Image, Resolved}
use appliance_ctl.Verify.Artifacts.{check_of}

pub data Labels : Type 0 where
  no_labels restricted privileged : Labels

-- `helm.ChartRelease`
pub record Release : Type 0 where
  pub name : String
  pub chart_path : String
  pub namespace : String
  pub values_path : String
  pub labels : Labels

-- The values files that are prepared for the charts.
pub data Values : Type 0 where
  product_values registry_values dns_values inference_values workflows_values : Values

-- Before the backup. What the options and the resolved release hold is not repeated in a call.
pub data Staging : Type 0 where
  prepare_values : Values → ApplianceIdentity → String → Staging
  inject_node : String → String → Staging
  own : OwnedDir → Staging
  stage_bundle : String → String → String → String → Staging

-- What the upgrade does behind the backup.
pub data Change : Type 0 where
  preload : List Image → Change
  snapshot stop start restart : String → Change
  write_config : String → String → String → List String → Change
  write_registries write_unit install_binary : String → String → Change
  install_packages : String → Facts → String → Change
  ensure_prereqs install_release diagnose : Release → Change
  ensure_namespace : String → Labels → Change
  replicate_keys replicate_registry_key : String → String → Change
  inject_pull_secrets ensure_baseline : String → Change
  ensure_pull_secrets : List String → Change
  ensure_tls : String → Bool → String → String → List String → Change
  label_inference_node read_node_uid : String → Change
  configure_nvidia : String → Change
  wait_ready : Change
  set_external_ips : List String → Change
  set_timeouts : Bool → String → Change
  remove_release : String → Change
  own_dir own_file : OwnedDir → Change
  install_agent : Change
  enable_mdns : String → String → Change
  disable_mdns : String → Change
  prepare_dns : String → String → List String → Change
  quiesce : Change
  apply_crd : String → Change
  install_zonctl : Change

-- What takes a change back.
pub data Undo : Type 0 where
  remove_images : List String → Undo
  drop_prereqs drop_keys drop_pull_secrets drop_tls drop_registry_key : Undo
  uninstall_release roll_back_release : String → Undo
  revert : String → Undo
  restore_dns remove_packages remove_agent remove_zonctl : Undo

-- `backing_up`, `verifying` and `restoring` are the calls of backup.Create, Verify and Restore, with
-- the host that they see; `in_backup` is a call that Create or Restore makes. `saved` is the call of
-- state.Save, whatever it answers.
pub data Call : Type 0 where
  staged : Staging → Call
  backing_up : Recovery.World → Call
  in_backup : Recovery.Call → Call
  verifying restoring : String → Recovery.World → Call
  changed : Change → Call
  undone : Undo → Call
  saved : String → InstalledState → Call
  clean_values : String → Call

-- What a call returns: its error, its checks, and, of the calls that return more, the names of the
-- images, the path, the node UID or the version with the digest, and whether there was a change.
pub record Answer : Type 0 where
  pub problem : Option String
  pub checks : List Check
  pub names : List String
  pub text : String
  pub digest : String
  pub flag : Bool

-- The packages that are called, os, fmt's %d, %o and %q, and the clock.
pub record System : Type 0 where
  pub answer : List Call → Call → Answer
  pub left : List Call → Call → Disk → Disk
  pub recovery : List Call → Recovery.System
  pub load_state : String → Result String (Option InstalledState)
  pub resolve : String → List Check × Result String Resolved
  pub detect_host : String → Result String Facts
  pub preferred_ipv4 : List String → String
  pub literal_ipv4s : List String → List String
  pub has_nvidia : Bool
  pub quote : String → String
  pub identity_error : Problem → String
  pub hostname : Option String
  pub registry_problem : Option String
  pub dir : String → String
  pub join_path : String → String → String
  pub decimal : ℕ → String
  pub octal : ℕ → String
  pub now : ℕ
  pub backup_id : String

-- The variables that `rollback` reads: what there is to take back.
pub record Pending : Type 0 where
  pub binary : Bool
  pub dns : Bool
  pub packages : Bool
  pub agent : Bool

pub record World : Type 0 where
  pub calls : List Call
  pub disk : Disk
  pub checks : List Check
  pub pending : Pending

unfoldable pub add_checks : List Check → Run World (Unit {0})
add_checks more w = record { world = record w { checks = w.checks ++ more }; result = ok tt }

unfoldable pub note : String → String → Status → String → Run World (Unit {0})
unfolding add_checks
note id category status message = add_checks (check_of id category status message ∷ [])

unfoldable pub set_pending : (Pending → Pending) → Run World (Unit {0})
set_pending f w = record { world = record w { pending = f w.pending }; result = ok tt }

-- `if err != nil { return …, fmt.Errorf("<context>%w", err) }`
abbrev pub or_fail {κ} : {A : Type κ} → String → Result String A → Run World A
or_fail context (err e) = fail_with (context <> e)
or_fail context (ok a) = return a

-- What an operation of internal/backup leaves.
abbrev pub back {κ} : {A : Type κ} → World → Outcome Recovery.World A → Outcome World A
back w o = record {
  world = record w {
    calls = map in_backup o.world.calls ++ w.calls;
    disk = o.world.disk;
    checks = o.world.checks;
  };
  result = o.result;
}

-- The host as internal/backup sees it.
abbrev pub front : World → Recovery.World
front w = record { calls = []; disk = w.disk; checks = w.checks }

module _ (sys : System) where
  -- A call, with its checks.
  unfoldable pub ask : Call → Run World Answer
  ask c w =
      let a = sys.answer w.calls c in
      record {
        world = record w {
          calls = c ∷ w.calls;
          disk = sys.left w.calls c w.disk;
          checks = w.checks ++ a.checks;
        };
        result = ok a;
      }

  -- The host behind the call of an operation of internal/backup, in front of its own calls.
  abbrev pub entered : (Recovery.World → Call) → World → World
  entered c w = record w { calls = c (front w) ∷ w.calls }

  -- An operation of internal/backup.
  unfoldable pub operate {κ} :
      {A : Type κ}
      → (Recovery.World → Call)
      → (Recovery.System → Run Recovery.World A)
      → Run World A
  operate c m w = back (entered c w) (m (sys.recovery (c (front w) ∷ w.calls)) (front w))

  -- The deferred removal of a values file that was prepared.
  unfoldable pub deferred {κ} : {A : Type κ} → String → Run World A → Run World A
  unfolding ask
  deferred path m w =
      let o = m w in record { world = (ask (clean_values path) o.world).world; result = o.result }
