-- ===== src/Upgrade/Admission.antt =====
-- internal/upgrade/upgrade.go: the guards of Upgrade in front of the first change of the host, with
-- internal/install/hostbaseline.go, and withApplianceFQDN.
pub mod Names
use appliance_ctl.Common.{
  String, ◌<>◌, ◌==◌, Bool, true, false, not, ◌&&◌, ◌||◌, if◌then◌else◌, Option, none, some, List,
  [], ◌∷◌, ◌++◌, contains, Result, ok, err,
}
use appliance_ctl.Common.Effects.{Run, ◌>>=◌, ◌>>◌, return, fail_with}
use appliance_ctl.Common.Text.{trim_space, is_empty, is_blank, join}
use appliance_ctl.Evidence.{Check, Status, pass, unsupported}
use appliance_ctl.Preflight.{Facts}
use appliance_ctl.ProductConfig.Identity as Identity
use appliance_ctl.ProductConfig.Identity.{ApplianceIdentity, resolve_appliance_identity}
use appliance_ctl.ProductConfig.Profiles.{
  Capability, capability_artifact, capability_files, capability_workflows, capability_dns,
  capability_inference, has_capability_in_catalog, or_else,
}
use appliance_ctl.Runtime as Runtime
use appliance_ctl.Runtime.{equal, validate_target_architecture}
use appliance_ctl.State.{Selection, InstalledState}
use appliance_ctl.Upgrade.Host.{System, World, add_checks, note, or_fail}
use appliance_ctl.Upgrade.Options.{HostBaseline, Options, Resolved}
use appliance_ctl.Verify.Artifacts.{check_of}

abbrev pub is_new : String → List String → Bool
is_new value seen = not (is_empty value) && not (contains value seen)

-- `appendUnique`, behind what is in the list already.
unfoldable pub append_unique : List String → List String → List String
unfolding trim_space
append_unique seen [] = []
append_unique seen (san ∷ rest) =
    let value = trim_space san in
    let more = append_unique (if is_new value seen then value ∷ seen else seen) rest in
    if is_new value seen then value ∷ more else more

-- `withApplianceFQDN`
unfoldable pub with_appliance_fqdn : String → List String → List String
unfolding append_unique trim_space
with_appliance_fqdn fqdn sans = append_unique [] (trim_space fqdn ∷ sans)

abbrev pub matches_baseline : Facts → HostBaseline → Bool
matches_baseline f b =
    trim_space f.os == trim_space b.os
    && trim_space f.os_version == trim_space b.os_version
    && trim_space f.arch == trim_space b.arch

abbrev pub triple : String → String → String → String
triple os version arch = os <> " " <> version <> " (" <> arch <> ")"

-- `CheckBundleHostBaseline`
unfoldable pub check_bundle_host_baseline : Facts → HostBaseline → Check
unfolding trim_space
check_bundle_host_baseline f b =
    if matches_baseline f b
    then check_of "bundle-host-baseline-match" "host" pass (
        "host "
        <> triple f.os f.os_version f.arch
        <> " matches bundle baseline "
        <> triple b.os b.os_version b.arch)
    else check_of "bundle-host-baseline-match" "host" unsupported (
        "host "
        <> triple (trim_space f.os) (trim_space f.os_version) (trim_space f.arch)
        <> " does not match bundle baseline "
        <> triple (trim_space b.os) (trim_space b.os_version) (trim_space b.arch))

-- `resolved.Runtimes["inference"]`
unfoldable pub runtime_of : String → List (String × Selection) → Option Selection
runtime_of name [] = none
runtime_of name ((key, s) ∷ rest) =
    let later = runtime_of name rest in if key == name then some s else later

abbrev pub no_selection : Selection
no_selection = record { package_name = ""; inference_engine = ""; architecture = "" }

abbrev pub or_no_selection : Option Selection → Selection
or_no_selection none = no_selection
or_no_selection (some s) = s

-- `previous, ok := installed.Runtimes["inference"]; ok && !Equal(previous, …)`
abbrev pub is_changed : Option Selection → Selection → Bool
is_changed none target = false
is_changed (some s) target = not (equal s target)

-- An early return of an error.
unfoldable pub refuse_if : Bool → String → Run World (Unit {0})
refuse_if test e = if test then fail_with e else return tt

-- What the target release takes away is refused.
unfoldable pub refuse_loss :
    System → InstalledState → Resolved → String → Bool → Bool → Run World (Unit {0})
refuse_loss sys s r name had target = refuse_if (had && not target) (
    "upgrade: changing from "
    <> name
    <> "-capable profile "
    <> sys.quote s.appliance_profile
    <> " to non-"
    <> name
    <> " profile "
    <> sys.quote r.effective_profile
    <> " is not supported in place; reinstall with the target profile instead")

abbrev pub had : InstalledState → Resolved → Capability → Bool
had s r c = has_capability_in_catalog s.appliance_profile c r.profile_catalog

-- `targetVersion`
unfoldable pub target_version : Options → Resolved → String
unfolding trim_space
target_version opts r =
    or_else (trim_space r.bundle_version) (trim_space opts.target_appliance_version)

-- The guards on the installed and the target release.
unfoldable pub refuse_release : System → Options → InstalledState → Resolved → Run World (Unit {0})
refuse_release sys opts s r = do
  refuse_if (r.compatibility.deployment_topology == "embedded-etcd-v1")
      "upgrade: signed embedded-etcd-v1 release requires a coordinated recovery and rolling-upgrade coordinator"
  refuse_if (is_empty (target_version opts r)) "upgrade: resolved bundle version is empty"
  refuse_if
      (r.inference_enabled
        && is_changed (runtime_of "inference" s.runtimes)
            (or_no_selection (runtime_of "inference" r.runtimes)))
      "upgrade: inference package/engine changes require an explicit supported migration"
  refuse_loss sys s r "artifact" (had s r capability_artifact) r.artifact_enabled
  refuse_loss sys s r "files" (had s r capability_files) r.files_enabled
  refuse_loss sys s r "dns" (had s r capability_dns) r.dns_enabled
  refuse_loss sys s r "inference" (had s r capability_inference) r.inference_enabled

-- Behind `state.Load`.
unfoldable pub owned_state : Option InstalledState → Run World InstalledState
owned_state none = fail_with "upgrade: nothing is installed; run install first"
owned_state (some s) =
    if s.k3s_ownership.owned
    then return s
    else fail_with "upgrade: installed-state does not record appliance ownership"

unfoldable pub resolve_release : System → Options → InstalledState → Run World Resolved
unfolding trim_space
resolve_release sys opts s =
    let answer =
      sys.resolve (or_else (trim_space opts.appliance_profile) (trim_space s.appliance_profile)) in
    add_checks answer.0 >> or_fail "upgrade: " answer.1

-- The errors of other packages, as texts.
abbrev pub identity_result :
    System → Result Identity.Problem ApplianceIdentity → Result String ApplianceIdentity
identity_result sys (err e) = err (sys.identity_error e)
identity_result sys (ok i) = ok i

unfoldable pub runtime_text : System → Runtime.Problem → String
runtime_text sys (Runtime.unsupported s) = "unsupported inference runtime"
runtime_text sys (Runtime.other_architecture s have) =
    "inference runtime package="
    <> sys.quote s.package_name
    <> " targets architecture "
    <> sys.quote s.architecture
    <> " but install host is "
    <> sys.quote have

unfoldable pub target_identity : System → Options → InstalledState → Run World ApplianceIdentity
unfolding resolve_appliance_identity trim_space
target_identity sys opts s = or_fail "upgrade: " (
    identity_result sys (
      resolve_appliance_identity
        (or_else (trim_space opts.appliance_name) (trim_space s.appliance_name))
        (or_else (trim_space opts.dns_zone) (trim_space s.dns_zone))))

abbrev pub is_pass : Status → Bool
is_pass pass = true
is_pass other = false

-- The checks of the host against the bundle and the inference runtime.
unfoldable pub matched_runtime :
    System → Facts → Selection → Result Runtime.Problem (Unit {0}) → Run World (Unit {0})
unfolding runtime_text
matched_runtime sys f s (err e) = fail_with ("upgrade: " <> runtime_text sys e)
matched_runtime sys f s (ok done) =
    note "inference-runtime-architecture-match" "host" pass
      ("inference package " <> s.package_name <> " targets host architecture " <> f.arch)

unfoldable pub match_runtime : System → Facts → Option Selection → Run World (Unit {0})
unfolding matched_runtime validate_target_architecture
match_runtime sys f none = return tt
match_runtime sys f (some s) = matched_runtime sys f s (validate_target_architecture s f.arch)

unfoldable pub match_host : System → Options → Resolved → Run World Facts
unfolding check_bundle_host_baseline match_runtime runtime_of
match_host sys opts r = do
  f ← or_fail "upgrade: detect host: " (sys.detect_host opts.k3s_data_dir)
  let check = check_bundle_host_baseline f r.host_baseline
  add_checks (check ∷ [])
  refuse_if (not (is_pass check.status))
      "upgrade: target host does not match the signed bundle baseline"
  match_runtime sys f (runtime_of "inference" r.runtimes)
  return f
