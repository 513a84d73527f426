-- ===== src/Backup/Restore/Refuses.antt =====
-- A restore touches nothing before the backup was verified, and does not leave K3s down.
use mathlib.Core.Path.{subst}
use appliance_ctl.Common.{
  String, ◌<>◌, Bool, true, false, ◌||◌, if◌then◌else◌, Option, none, some, List, ◌∷◌, Result, ok,
  err, ◌≡◌, refl, ◌⊎◌, inl, inr, sym, ap, Option-cases, Result-cases,
}
use appliance_ctl.Common.Effects.{Outcome, Run, ◌>>◌}
use appliance_ctl.Common.Text.{trim_space, is_empty}
use appliance_ctl.Evidence.{Check}
use appliance_ctl.Backup.{
  FileEntry, Manifest, stop, enable_and_start, Stat, exists, not_exist, failed, System, World,
  answered, perform, load_manifest,
}
use appliance_ctl.Backup.Integrity.{verify, verify_loaded}
use appliance_ctl.Backup.Restore.{
  Request, Tree, data_tree, bundles_tree, models_tree, cleared_data, cleared, recopied,
  clear_data_step, clear_step, copy_step, replace_tree, restore_bundles, bundles_step, has_none,
  models_step, started, start_step, replace, verified, stop_and_replace, restore,
}
use appliance_ctl.Backup.Starts.{
  Newest, Answered, StartsOnError, IsRestarted, perform-Newest, perform-Answered,
  bail-StartsOnError, >>=-either, step-IsRestarted,
}

-- A restore returns no value but its checks.
abbrev pub Done : Unit {0} → Type 0
Done done = Unit

module _ (sys : System) (unit : String) where
  abbrev Starts : Run World (Unit {0}) → Type 0
  Starts m = (w : World) → StartsOnError unit (m w)

  cleared_data-Starts : (o : Result String (Unit {0})) → Starts (cleared_data sys unit o)
  unfolding cleared_data
  cleared_data-Starts (err e) w = bail-StartsOnError sys unit _ _
  cleared_data-Starts (ok done) w = λ e h. cc

  cleared-Starts : (t : Tree) (o : Result String (Unit {0})) → Starts (cleared sys unit t o)
  unfolding cleared
  cleared-Starts t (err e) w = bail-StartsOnError sys unit _ _
  cleared-Starts t (ok done) w = λ e h. cc

  recopied-Starts : (t : Tree) (o : Result String (List FileEntry)) → Starts (recopied sys unit t o)
  unfolding recopied
  recopied-Starts t (err e) w = bail-StartsOnError sys unit _ _
  recopied-Starts t (ok entries) w = λ e h. cc

  clear_data_step-Starts : (dir : String) → Starts (clear_data_step sys unit dir)
  unfolding clear_data_step
  clear_data_step-Starts dir w = cleared_data-Starts _ _

  copy_step-Starts : (t : Tree) (src dst : String) → Starts (copy_step sys unit t src dst)
  unfolding copy_step
  copy_step-Starts t src dst w = recopied-Starts t _ _

  clear_step-Starts : (t : Tree) (dst : String) → Starts (clear_step sys unit t dst)
  unfolding clear_step
  clear_step-Starts t dst w = cleared-Starts t _ _

  >>-Starts : (m k : Run World (Unit {0})) → Starts m → Starts k → Starts (m >> k)
  >>-Starts m k s t w =
      >>=-either m (λ done. k) (StartsOnError unit) w (λ e h e' h'. s w e h) (λ a h. t (m w).world)

  replace_tree-Starts : (t : Tree) (src dst : String) → Starts (replace_tree sys unit t src dst)
  unfolding replace_tree
  replace_tree-Starts t src dst =
      >>-Starts (clear_step sys unit t dst) (copy_step sys unit t src dst) (clear_step-Starts t dst)
        (copy_step-Starts t src dst)

  restore_bundles-Starts :
      (src dst : String) (s : Stat) → Starts (restore_bundles sys unit src dst s)
  unfolding restore_bundles
  restore_bundles-Starts src dst exists w = replace_tree-Starts bundles_tree src dst w
  restore_bundles-Starts src dst not_exist w = λ e h. cc
  restore_bundles-Starts src dst (failed e) w = bail-StartsOnError sys unit _ _

  -- A step that a test leaves out.
  skip-Starts :
      (b : Bool) (m : Run World (Unit {0})) (w : World)
      → Starts m
      → StartsOnError unit (if b then record { world = w; result = ok tt } else m w)
  skip-Starts true m w s = λ e h. cc
  skip-Starts false m w s = s w

  bundles_step-Starts : (src dst : String) → Starts (bundles_step sys unit src dst)
  unfolding bundles_step
  bundles_step-Starts src dst w =
      skip-Starts (is_empty dst) (restore_bundles sys unit src dst (sys.stat w.disk src)) w
        (restore_bundles-Starts src dst (sys.stat w.disk src))

  models_step-Starts :
      (files : List FileEntry) (src dst : String) → Starts (models_step sys unit files src dst)
  unfolding models_step
  models_step-Starts files src dst w =
      skip-Starts (is_empty dst || has_none files) (replace_tree sys unit models_tree src dst) w
        (replace_tree-Starts models_tree src dst)

  started-IsRestarted :
      (o : Outcome World (Unit {0}))
      → Newest (enable_and_start unit) o.world.calls
      → (o.result ≡ ok tt → Answered sys (enable_and_start unit) o.world.calls)
      → IsRestarted sys unit Done (started sys unit o.result o.world)
  unfolding started
  started-IsRestarted o newest answered = go o.result newest answered
    where
      go :
          (r : Result String (Unit {0}))
          → Newest (enable_and_start unit) o.world.calls
          → (r ≡ ok tt → Answered sys (enable_and_start unit) o.world.calls)
          → IsRestarted sys unit Done (started sys unit r o.world)
      go (err e) n a = record { newest = n; started = λ x h clean. cc }
      go (ok done) n a = record { newest = n; started = λ x h clean. a refl }

  start_step-IsRestarted : (w : World) → IsRestarted sys unit Done (start_step sys unit w)
  unfolding start_step
  start_step-IsRestarted w =
      started-IsRestarted (perform sys (enable_and_start unit) w)
        (perform-Newest sys unit (enable_and_start unit) w)
        (perform-Answered sys unit (enable_and_start unit) w)

replace-IsRestarted :
    (sys : System) (r : Request) (m : Manifest) (w : World)
    → IsRestarted sys r.unit_name Done (replace sys r m w)
unfolding replace
replace-IsRestarted sys r m w =
    let unit = r.unit_name in
    let bundles = sys.join r.backup_dir "metadata-bundles" in
    let models = sys.join r.backup_dir "models" in
    step-IsRestarted sys unit Done (clear_data_step sys unit r.data_dir) _ w
      (clear_data_step-Starts sys unit r.data_dir)
      (λ d1 w1.
        step-IsRestarted sys unit Done
          (copy_step sys unit data_tree (sys.join r.backup_dir "data") r.data_dir) _ w1
          (copy_step-Starts sys unit data_tree _ r.data_dir)
          (λ d2 w2.
            step-IsRestarted sys unit Done
              (bundles_step sys unit bundles (trim_space r.metadata_bundles_dir)) _ w2
              (bundles_step-Starts sys unit bundles _)
              (λ d3 w3.
                step-IsRestarted sys unit Done
                  (models_step sys unit m.model_files models (trim_space r.models_dir)) _ w3
                  (models_step-Starts sys unit m.model_files models _)
                  (λ d4 w4. start_step-IsRestarted sys unit w4))))

-- The stop failed, or the last call starts K3s again.
abbrev pub StopsOrRestarts : System → Request → World → Outcome World (Unit {0}) → Type 0
StopsOrRestarts sys r w o =
    ((e : String) × (sys.fails w.calls (stop r.unit_name) ≡ some e)
      × (o.world.calls ≡ stop r.unit_name ∷ w.calls)
      × (o.result ≡ err ("backup: stop k3s" <> ": " <> e)))
    ⊎ ((sys.fails w.calls (stop r.unit_name) ≡ none) × IsRestarted sys r.unit_name Done o)

stop_and_replace-StopsOrRestarts :
    (sys : System) (r : Request) (m : Manifest) (w : World)
    → StopsOrRestarts sys r w (stop_and_replace sys r m w)
unfolding stop_and_replace perform answered
stop_and_replace-StopsOrRestarts sys r m w =
    elim (Option-cases (sys.fails w.calls (stop r.unit_name))) [
      | inl stopped ↦ inr (stopped, rw stopped (replace-IsRestarted sys r m _))
      | inr (e, failed_stop) ↦ rw failed_stop (inl (e, refl, refl, refl))
    ]

-- Reading the manifest changes nothing.
load_manifest-world :
    (sys : System) (backup_dir : String) (w : World) → (load_manifest sys backup_dir w).world ≡ w
unfolding load_manifest
load_manifest-world sys backup_dir w =
    let path = sys.join backup_dir "manifest.json" in
    elim (Result-cases ((sys.on w.disk).read_file path)) [
      | inl (e, h) ↦ rw h refl
      | inr (content, h) ↦ rw h (elim (Result-cases (sys.unmarshal content)) [
        | inl (e, h') ↦ rw h' refl
        | inr (m, h') ↦ rw h' refl
      ])
    ]

-- How a restore ends, by what Verify says of the backup.
abbrev pub Ends : System → Request → World → Option String → Outcome World (Unit {0}) → Type 0
Ends sys r w none o = StopsOrRestarts sys r w o
Ends sys r w (some e) o =
    (o.world.calls ≡ w.calls) × ((o.world.disk ≡ w.disk) × ((e' : String) × (o.result ≡ err e')))

verified-Ends :
    (sys : System) (r : Request) (m : Manifest) (w : World) (v : List Check × Option String)
    → Ends sys r w v.1 ((verified v >> stop_and_replace sys r m) w)
unfolding verified
verified-Ends sys r m w (checks, none) = stop_and_replace-StopsOrRestarts sys r m _
verified-Ends sys r m w (checks, some e) = (refl, (refl, (_, refl)))

-- If Verify refuses the backup, a restore makes no call, leaves the disk as it is and returns an
-- error. Otherwise it stops K3s first, and unless that fails the last call of every run, whatever
-- failed in between, starts K3s again; a run without an error has seen that start succeed.
pub restore-Ends :
    (sys : System) (r : Request) (w : World)
    → Ends sys r w (verify sys r.backup_dir w).1 (restore sys r w)
unfolding restore verify verify_loaded
restore-Ends sys r w =
    let unchanged = load_manifest-world sys r.backup_dir w in
    let check : Run World (Unit {0}) = λ w'. verified (verify sys r.backup_dir w') w' in
    >>=-either (load_manifest sys r.backup_dir) (λ m. check >> stop_and_replace sys r m)
      (Ends sys r w (verify sys r.backup_dir w).1) w
      (λ e unread. rw unread (ap (λ x. x.calls) unchanged, (ap (λ x. x.disk) unchanged, (e, refl))))
      (λ m read.
        subst
          (λ w'.
            Ends sys r w (verify sys r.backup_dir w).1 ((check >> stop_and_replace sys r m) w'))
          (sym unchanged) (verified-Ends sys r m w (verify sys r.backup_dir w)))
