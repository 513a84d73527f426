-- ===== src/Upgrade/Protocol/Changes.antt =====
-- Every step of internal/upgrade/upgrade.go behind the backup keeps to the changes, or stops as the
-- protocol allows.
use appliance_ctl.Common.{String, ◌<>◌, List, ◌∷◌, Result, ok, err, Option, none, some}
use appliance_ctl.Common.Effects.{Run, ◌>>◌, return}
use appliance_ctl.Common.Text.{is_blank, trim_space}
use appliance_ctl.Upgrade.Host.{
  Change, snapshot, write_registries, Undo, Call, changed, Answer, System, World, ask,
}
use appliance_ctl.Upgrade.Options.{Options}
use appliance_ctl.Upgrade.Protocol.{changing, from_changes, Move, move, Ends}
use appliance_ctl.Upgrade.Protocol.Holds.{
  Behind, Holds, return-Holds, fail_with-Holds, ask-Holds, >>=-Holds, >>-Holds, if-Holds,
  attempt-Holds, in_context-Holds, or_fail-Holds,
}
use appliance_ctl.Upgrade.Protocol.Retreat.{In, Stops, fail_upgrade-Holds}
use appliance_ctl.Upgrade.Steps.{Plan, guard, guarded, settled, step}
use appliance_ctl.Upgrade.Undo.{
  previous, result_of, wrote, write, read, check_stat, snapshot_file, fail_upgrade,
  write_valid_registries, write_image_pull_registries,
}

change-In :
    (sys : System) (dir : String) (c : Change) (past : List Call)
    → In sys (changing dir) past
    → In sys (changing dir) (changed c ∷ past)
change-In sys dir c past h = move (Move.change dir c) h

-- A run that only makes changes, whether it fails or not.
abbrev pub Changes : {A : Type 0} → System → String → Run World A → Type 0
Changes sys dir m =
    Holds (In sys (changing dir)) (λ a. In sys (changing dir)) (λ e. In sys (changing dir)) m

module _ (sys : System) (dir : String) where
  wrote-Behind :
      (c : Change) (path content : String) (w : World) (answer : Option String)
      → In sys (changing dir) w.calls
      → Behind
          (λ a. In sys (changing dir))
          (λ e. In sys (changing dir))
          (wrote sys (changed c) path content w answer)
  unfolding wrote
  wrote-Behind c path content w none h = (λ a same. change-In sys dir c w.calls h, λ e same. cc)
  wrote-Behind c path content w (some problem) h =
      (λ a same. cc, λ e same. change-In sys dir c w.calls h)

  read-Changes : (path : String) → Changes sys dir (read sys path)
  unfolding read
  read-Changes path = record { run = λ w h. (λ a same. h, λ e same. h) }

  check_stat-Changes : (path : String) → Changes sys dir (check_stat sys path)
  unfolding check_stat
  check_stat-Changes path = record { run = λ w h. (λ a same. h, λ e same. h) }

  pub snapshot_file-Changes : (path : String) → Changes sys dir (snapshot_file sys path)
  unfolding snapshot_file write
  snapshot_file-Changes path =
      >>=-Holds (in_context-Holds ("snapshot " <> path) (read-Changes path)) λ content.
        >>-Holds (in_context-Holds ("snapshot " <> path) (check_stat-Changes path)) (record {
          run = λ w h.
              wrote-Behind (snapshot path) (previous path) content w
                (sys.answer w.calls (changed (snapshot path))).problem h;
        })

  pub ask-Changes :
      (c : Change) {E : String → List Call → Type 0}
      → Holds (In sys (changing dir)) (λ a. In sys (changing dir)) E (ask sys (changed c))
  ask-Changes c = ask-Holds sys (changed c) (change-In sys dir c)

  write_valid_registries-Changes :
      (path registry : String) (problem : Option String)
      → Changes sys dir (write_valid_registries sys path registry problem)
  unfolding write_valid_registries
  write_valid_registries-Changes path registry (some e) =
      fail_with-Holds ("upgrade: image pull registry: " <> e)
  write_valid_registries-Changes path registry none =
      >>=-Holds (ask-Changes (write_registries path registry)) λ a.
        or_fail-Holds "upgrade: write k3s registries.yaml: " (result_of a.problem)
          (λ e. fail_with-Holds ("upgrade: write k3s registries.yaml: " <> e))

  pub write_image_pull_registries-Changes :
      (opts : Options) → Changes sys dir (write_image_pull_registries sys opts)
  unfolding write_image_pull_registries
  write_image_pull_registries-Changes opts =
      if-Holds (is_blank opts.image_pull_registry) (return-Holds tt) (
        if-Holds (is_blank opts.k3s_registries_path) (fail_with-Holds _) (
          write_valid_registries-Changes (trim_space opts.k3s_registries_path)
            opts.image_pull_registry sys.registry_problem))

module _ (sys : System) (opts : Options) (p : Plan) (dir : String) where
  -- A run that makes changes, and whose error stops as the protocol allows.
  abbrev pub Keeps : {A : Type 0} → Run World A → Type 0
  Keeps m =
      Holds (In sys (changing dir)) (λ a. In sys (changing dir))
        (Stops sys opts.preserve_failed_state (sys.quote opts.node_name)) m

  pub fail_upgrade-Keeps :
      {A : Type 0} (problem : String) (undos : List Undo)
      → Keeps {A = A} (fail_upgrade sys opts dir p.bundles_dir problem undos)
  fail_upgrade-Keeps problem undos =
      fail_upgrade-Holds sys dir opts p.bundles_dir (sys.quote opts.node_name) problem undos
        (changing dir) (from_changes dir) (Ends.kept dir problem)

  guard-Keeps :
      (context : String) (undos : List Undo) (r : Result String (Unit {0}))
      → Keeps (guard sys opts p dir context undos r)
  unfolding guard
  guard-Keeps context undos (ok done) = return-Holds tt
  guard-Keeps context undos (err e) = fail_upgrade-Keeps (context <> e) undos

  pub guarded-Keeps :
      {m : Run World (Unit {0})} (context : String) (undos : List Undo)
      → Changes sys dir m
      → Keeps (guarded sys opts p dir context undos m)
  unfolding guarded
  guarded-Keeps context undos h = >>=-Holds (attempt-Holds h) λ o. guard-Keeps context undos o

  pub settled-Keeps :
      (context : String) (undos : List Undo) (a : Answer)
      → Keeps (settled sys opts p dir context undos a)
  unfolding settled
  settled-Keeps context undos a =
      >>-Holds (guard-Keeps context undos (result_of a.problem)) (return-Holds a)

  pub step-Keeps :
      (c : Change) (context : String) (undos : List Undo)
      → Keeps (step sys opts p dir c context undos)
  unfolding step
  step-Keeps c context undos = >>=-Holds (ask-Changes sys dir c) λ a. settled-Keeps context undos a

  -- A step whose answer is not read.
  pub step_done-Keeps :
      (c : Change) (context : String) (undos : List Undo)
      → Keeps (step sys opts p dir c context undos >> return tt)
  step_done-Keeps c context undos = >>-Holds (step-Keeps c context undos) (return-Holds tt)
