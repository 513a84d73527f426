-- ===== src/Upgrade/Protocol/Run.antt =====
-- The whole of Upgrade against the protocol.
use appliance_ctl.Common.{
  String, ◌<>◌, Bool, true, false, not, ◌&&◌, Option, none, some, [], ◌∷◌, Result, ok, err, ◌≡◌,
  refl,
}
use appliance_ctl.Common.Effects.{Outcome, Run, fail_with}
use appliance_ctl.Common.Text.{is_blank, trim_space}
use appliance_ctl.HostDirs.{OwnedDir}
use appliance_ctl.Lifecycle.Atomic.{Disk}
use appliance_ctl.Preflight.{Facts}
use appliance_ctl.ProductConfig.Identity.{ApplianceIdentity}
use appliance_ctl.ProductConfig.Profiles.{or_else}
use appliance_ctl.Runtime as Runtime
use appliance_ctl.Runtime.{validate_target_architecture}
use appliance_ctl.State.{Selection, InstalledState}
use appliance_ctl.Upgrade.Admission.{
  check_bundle_host_baseline, runtime_of, refuse_if, refuse_loss, refuse_release, owned_state,
  resolve_release, runtime_text, target_identity, matched_runtime, match_runtime, match_host,
}
use appliance_ctl.Upgrade.Host.{Values, Staging, prepare_values, staged, System, World, or_fail}
use appliance_ctl.Upgrade.Options.{Options, Resolved}
use appliance_ctl.Upgrade.Orchestration.{
  Files, plan_of, stage_and_change, prepare_and_change, upgrade,
}
use appliance_ctl.Upgrade.Preparation.{
  stage, inject_if, prepared, prepared_if, own_step, own_if, own_steps, stage_metadata_bundle,
  stage_host, refuse_source,
}
use appliance_ctl.Upgrade.Protocol.{Phase, preparing, recorded, Move, Reaches, start, move, Ends}
use appliance_ctl.Upgrade.Protocol.Holds.{
  Assertion, Holds, return-Holds, add_checks-Holds, note-Holds, ask-Holds, >>=-Holds, >>-Holds,
  if-Holds, or_fail-Holds, deferred-Holds,
}
use appliance_ctl.Upgrade.Protocol.Refines.{Upgraded, back_up_and_change-Holds}
use appliance_ctl.Upgrade.Protocol.Retreat.{In, Stops, stopped-Holds}
use appliance_ctl.Upgrade.Undo.{result_of}

module _ (sys : System) (opts : Options) where
  abbrev pub Halts : String → Assertion
  Halts = Stops sys opts.preserve_failed_state (sys.quote opts.node_name)

  -- In front of the backup.
  abbrev Prepares : {A : Type 0} → Run World A → Type 0
  Prepares m = Holds (In sys preparing) (λ a. In sys preparing) Halts m

  -- A run that upgrades, or ends as the protocol allows.
  abbrev Upgrades : Run World InstalledState → Type 0
  Upgrades m = Holds (In sys preparing) (Upgraded sys) Halts m

  refuse-Prepares : {A : Type 0} (e : String) → Prepares {A = A} (fail_with e)
  refuse-Prepares e =
      stopped-Holds sys opts.preserve_failed_state (sys.quote opts.node_name) e preparing
        (Ends.refused e)

  refuse_if-Prepares : (test : Bool) (e : String) → Prepares (refuse_if test e)
  unfolding refuse_if
  refuse_if-Prepares test e = if-Holds test (refuse-Prepares e) (return-Holds tt)

  or_fail-Prepares :
      {A : Type 0} (context : String) (r : Result String A) → Prepares (or_fail context r)
  or_fail-Prepares context r = or_fail-Holds context r λ e. refuse-Prepares (context <> e)

  owned_state-Prepares : (loaded : Option InstalledState) → Prepares (owned_state loaded)
  unfolding owned_state
  owned_state-Prepares none = refuse-Prepares "upgrade: nothing is installed; run install first"
  owned_state-Prepares (some s) =
      if-Holds s.k3s_ownership.owned (return-Holds s)
        (refuse-Prepares "upgrade: installed-state does not record appliance ownership")

  resolve_release-Prepares : (s : InstalledState) → Prepares (resolve_release sys opts s)
  unfolding resolve_release
  resolve_release-Prepares s =
      let answer =
        sys.resolve
          (or_else (trim_space opts.appliance_profile) (trim_space s.appliance_profile)) in
      >>-Holds (add_checks-Holds answer.0) (or_fail-Prepares "upgrade: " answer.1)

  refuse_loss-Prepares :
      (s : InstalledState) (r : Resolved) (name : String) (had target : Bool)
      → Prepares (refuse_loss sys s r name had target)
  unfolding refuse_loss
  refuse_loss-Prepares s r name had target = refuse_if-Prepares (had && not target) _

  refuse_release-Prepares :
      (s : InstalledState) (r : Resolved) → Prepares (refuse_release sys opts s r)
  unfolding refuse_release
  refuse_release-Prepares s r = >>-Holds (refuse_if-Prepares _ _) (
      >>-Holds (refuse_if-Prepares _ _) (
        >>-Holds (refuse_if-Prepares _ _) (
          >>-Holds (refuse_loss-Prepares s r _ _ _) (
            >>-Holds (refuse_loss-Prepares s r _ _ _)
              (>>-Holds (refuse_loss-Prepares s r _ _ _) (refuse_loss-Prepares s r _ _ _))))))

  matched_runtime-Prepares :
      (f : Facts) (s : Selection) (answer : Result Runtime.Problem (Unit {0}))
      → Prepares (matched_runtime sys f s answer)
  unfolding matched_runtime
  matched_runtime-Prepares f s (err e) = refuse-Prepares ("upgrade: " <> runtime_text sys e)
  matched_runtime-Prepares f s (ok done) = note-Holds _ _ _ _

  match_runtime-Prepares :
      (f : Facts) (selected : Option Selection) → Prepares (match_runtime sys f selected)
  unfolding match_runtime
  match_runtime-Prepares f none = return-Holds tt
  match_runtime-Prepares f (some s) =
      matched_runtime-Prepares f s (validate_target_architecture s f.arch)

  match_host-Prepares : (r : Resolved) → Prepares (match_host sys opts r)
  unfolding match_host
  match_host-Prepares r =
      >>=-Holds (or_fail-Prepares "upgrade: detect host: " (sys.detect_host opts.k3s_data_dir)) λ f.
        >>-Holds (add_checks-Holds (check_bundle_host_baseline f r.host_baseline ∷ [])) (
          >>-Holds (refuse_if-Prepares _ _) (
            >>-Holds (match_runtime-Prepares f (runtime_of "inference" r.runtimes))
              (return-Holds f)))

  stage-Prepares : (context : String) (c : Staging) → Prepares (stage sys opts context c)
  unfolding stage
  stage-Prepares context c =
      >>=-Holds (ask-Holds {R = In sys preparing} sys (staged c) (λ past h. move (Move.stage c) h))
        λ a. >>-Holds (or_fail-Prepares context (result_of a.problem)) (return-Holds a)

  inject_if-Prepares : (test : Bool) (path : String) → Prepares (inject_if sys opts test path)
  unfolding inject_if
  inject_if-Prepares test path =
      if-Holds test (>>-Holds (stage-Prepares "upgrade: " _) (return-Holds tt)) (return-Holds tt)

  prepared-Upgrades :
      {next : String → Run World InstalledState} (v : Values) (inject : Bool)
      (i : ApplianceIdentity) (ip : String)
      → ((path : String) → Upgrades (next path))
      → Upgrades (prepared sys opts v inject i ip next)
  unfolding prepared
  prepared-Upgrades v inject i ip h =
      >>=-Holds (stage-Prepares "upgrade: " (prepare_values v i ip)) λ a.
        deferred-Holds sys a.text
          (λ s past (dir, reached). (dir, move (Move.clean (recorded dir s) a.text) reached))
          (λ e past (p, reached, ends). (p, move (Move.clean p a.text) reached, ends))
          (>>-Holds (inject_if-Prepares inject a.text) (h a.text))

  prepared_if-Upgrades :
      {next : String → Run World InstalledState} (test : Bool) (v : Values) (inject : Bool)
      (i : ApplianceIdentity) (ip : String)
      → ((path : String) → Upgrades (next path))
      → Upgrades (prepared_if sys opts test v inject i ip next)
  unfolding prepared_if
  prepared_if-Upgrades test v inject i ip h =
      if-Holds test (prepared-Upgrades v inject i ip h) (h "")

  own_step-Prepares : (name : String) (d : OwnedDir) → Prepares (own_step sys opts name d)
  unfolding own_step
  own_step-Prepares name d = >>-Holds (stage-Prepares _ _) (note-Holds _ _ _ _)

  own_if-Prepares :
      (test : Bool) (name : String) (d : OwnedDir) → Prepares (own_if sys opts test name d)
  unfolding own_if
  own_if-Prepares test name d = if-Holds test (own_step-Prepares name d) (return-Holds tt)

  own_steps-Prepares : (r : Resolved) → Prepares (own_steps sys opts r)
  unfolding own_steps
  own_steps-Prepares r = >>-Holds (own_if-Prepares _ _ _) (
      >>-Holds (own_if-Prepares _ _ _) (
        >>-Holds (own_step-Prepares _ _)
          (>>-Holds (own_step-Prepares _ _) (own_step-Prepares _ _))))

  stage_metadata_bundle-Prepares : (r : Resolved) → Prepares (stage_metadata_bundle sys opts r)
  unfolding stage_metadata_bundle
  stage_metadata_bundle-Prepares r =
      if-Holds (is_blank r.metadata_bundle_archive_path) (refuse-Prepares _) (stage-Prepares _ _)

  stage_host-Prepares : (r : Resolved) → Prepares (stage_host sys opts r)
  unfolding stage_host
  stage_host-Prepares r = >>-Holds (own_steps-Prepares r) (
      >>=-Holds (stage_metadata_bundle-Prepares r)
        λ a. >>-Holds (note-Holds _ _ _ _) (return-Holds a))

  refuse_source-Prepares :
      (s : InstalledState) (r : Resolved) → Prepares (refuse_source sys opts s r)
  unfolding refuse_source
  refuse_source-Prepares s r = >>-Holds (refuse_if-Prepares _ _) (refuse_if-Prepares _ _)

  stage_and_change-Upgrades :
      (s : InstalledState) (r : Resolved) (i : ApplianceIdentity) (f : Facts) (files : Files)
      → Upgrades (stage_and_change sys opts s r i f files)
  unfolding stage_and_change
  stage_and_change-Upgrades s r i f files = >>=-Holds (stage_host-Prepares r) λ a.
      >>-Holds (refuse_source-Prepares s r)
        (back_up_and_change-Holds sys opts (plan_of sys opts s r i f files a) r)

  prepare_and_change-Upgrades :
      (s : InstalledState) (r : Resolved) (i : ApplianceIdentity) (f : Facts)
      → Upgrades (prepare_and_change sys opts s r i f)
  unfolding prepare_and_change
  prepare_and_change-Upgrades s r i f = prepared-Upgrades _ true i _ λ product.
      prepared_if-Upgrades r.artifact_enabled _ true i _ λ registry.
        prepared_if-Upgrades r.dns_enabled _ true i _ λ dns.
          prepared_if-Upgrades r.inference_enabled _ false i _ λ inference.
            prepared_if-Upgrades r.workflows_enabled _ false i _
              λ workflows. stage_and_change-Upgrades s r i f _

  upgrade-Upgrades : Upgrades (upgrade sys opts)
  unfolding upgrade target_identity
  upgrade-Upgrades =
      >>=-Holds (or_fail-Prepares "upgrade: " (sys.load_state opts.installed_state_path)) λ loaded.
        >>=-Holds (owned_state-Prepares loaded) λ s. >>=-Holds (resolve_release-Prepares s) λ r.
          >>-Holds (refuse_release-Prepares s r) (
            >>=-Holds (or_fail-Prepares "upgrade: " _)
              λ i. >>=-Holds (match_host-Prepares r) λ f. prepare_and_change-Upgrades s r i f)

-- A run starts with nothing to take back.
abbrev pub new_run : Disk → World
new_run disk = record {
  calls = [];
  disk = disk;
  checks = [];
  pending = record { binary = false; dns = false; packages = false; agent = false };
}

-- What a run of Upgrade went through, and how it ended.
abbrev pub Refines : System → Bool → String → Outcome World InstalledState → Type 0
Refines sys preserve node o =
    (p : Phase) × Reaches sys o.world.calls p × Ends preserve node p o.result

Refines-result :
    (sys : System) (preserve : Bool) (node : String) (o : Outcome World InstalledState)
    (r : Result String InstalledState)
    → r ≡ o.result
    → ((s : InstalledState) → r ≡ ok s → Upgraded sys s o.world.calls)
    → ((e : String) → r ≡ err e → Stops sys preserve node e o.world.calls)
    → (p : Phase) × Reaches sys o.world.calls p × Ends preserve node p r
Refines-result sys preserve node o (err e) same value error = error e refl
Refines-result sys preserve node o (ok s) same value error =
    let (dir, reached) = value s refl in (recorded dir s, reached, Ends.upgraded dir s)

-- Every run of Upgrade keeps to its protocol. In front of the call of backup.Create it only stages:
-- values files, the node in them, owned directories and the bundle with the metadata. It changes
-- the host only behind a backup.Verify that found the backup of that host intact. It succeeds
-- exactly behind a state.Save that returned nil and is the last call but for the removal of values
-- files. An error behind the verified backup has run backup.Restore on that directory last, or
-- keeps the failed state on request, or is that of a node that is not in the cluster's record.
pub upgrade-Refines :
    (sys : System) (opts : Options) (disk : Disk)
    → Refines sys opts.preserve_failed_state
        (sys.quote opts.node_name)
        (upgrade sys opts (new_run disk))
upgrade-Refines sys opts disk =
    let (value, error) = (upgrade-Upgrades sys opts).run (new_run disk) start in
    let o = upgrade sys opts (new_run disk) in
    Refines-result sys opts.preserve_failed_state (sys.quote opts.node_name) o o.result refl value
      error
