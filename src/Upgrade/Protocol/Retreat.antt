-- ===== src/Upgrade/Protocol/Retreat.antt =====
-- How a step behind the backup fails: it is kept on request, and rolled back otherwise.
use appliance_ctl.Common.{
  String, ◌<>◌, Bool, true, false, List, [], ◌∷◌, ◌++◌, err, ◌≡◌, refl, Option, none, some,
}
use appliance_ctl.Common.Effects.{Run, fail_with}
use appliance_ctl.Backup.Restore.{restore_server}
use appliance_ctl.Upgrade.Host.{
  Undo, revert, restore_dns, remove_packages, remove_agent, Call, undone, restoring, System, World,
  ask,
}
use appliance_ctl.Upgrade.Options.{Options}
use appliance_ctl.Upgrade.Protocol.{
  Phase, undoing, restored, Retreats, from_undo, Move, Reaches, move, Ends,
}
use appliance_ctl.Upgrade.Protocol.Holds.{
  Assertion, Behind, Holds, error-Behind, return-Holds, note-Holds, ask-Holds, >>=-Holds, >>-Holds,
  attempt-Holds, look-Holds, operate-Holds, tested-Holds,
}
use appliance_ctl.Upgrade.Undo.{
  result_of, errors_of, wrote, write, read, revert_file, undo, undo_all, restore_request, undo_if,
  revert_files, revert_if, restore_backup, report_errors, k3s_paths, rollback_of, rollback,
  preserved_note, rolled_back_note, fail_upgrade,
}

-- The calls lead to the phase.
abbrev pub In : System → Phase → Assertion
In sys p calls = Reaches sys calls p

-- A run that stopped with an error ends as the protocol allows.
abbrev pub Stops : System → Bool → String → String → Assertion
Stops sys preserve node e calls = (p : Phase) × Reaches sys calls p × Ends preserve node p (err e)

-- An error at the end of a phase.
pub stopped-Holds :
    {A : Type 0} {Q : A → Assertion} (sys : System) (preserve : Bool) (node e : String) (p : Phase)
    → Ends preserve node p (err e)
    → Holds (In sys p) Q (Stops sys preserve node) (fail_with e)
stopped-Holds {Q = Q} sys preserve node e p ends = record {
  run = λ w h. error-Behind Q (Stops sys preserve node) w e (p, h, ends);
}

-- Somewhere on the way back.
abbrev pub Retreating : System → String → Assertion
Retreating sys dir calls = (p : Phase) × Retreats dir p × Reaches sys calls p

undone-Retreating :
    (sys : System) (dir : String) (u : Undo) (past : List Call)
    → Retreating sys dir past
    → Retreating sys dir (undone u ∷ past)
undone-Retreating sys dir u past (p, retreats, reached) =
    (undoing dir, from_undo dir, move (Move.take_back dir p u retreats) reached)

-- What keeps its truth when something is taken back.
module _ (sys : System) (P : Assertion)
    (keep : (u : Undo) (past : List Call) → P past → P (undone u ∷ past)) where
  -- A run that only takes changes back, whether it fails or not.
  abbrev Backs : {A : Type 0} → Run World A → Type 0
  Backs m = Holds P (λ a. P) (λ e. P) m

  wrote-Behind :
      (u : Undo) (path content : String) (w : World) (answer : Option String)
      → P w.calls
      → Behind (λ a. P) (λ e. P) (wrote sys (undone u) path content w answer)
  unfolding wrote
  wrote-Behind u path content w none h = (λ a same. keep u w.calls h, λ e same. cc)
  wrote-Behind u path content w (some problem) h = (λ a same. cc, λ e same. keep u w.calls h)

  revert_file-Backs : (path : String) → Backs (revert_file sys path)
  unfolding revert_file read write
  revert_file-Backs path =
      >>=-Holds {Q = λ a. P} (record { run = λ w h. (λ a same. h, λ e same. h) })
        λ content. record {
          run = λ w h.
              wrote-Behind (revert path) path content w
                (sys.answer w.calls (undone (revert path))).problem h;
        }

  revert_files-Holds :
      (paths : List String) {E : String → Assertion} → Holds P (λ a. P) E (revert_files sys paths)
  unfolding revert_files
  revert_files-Holds [] = return-Holds []
  revert_files-Holds (path ∷ rest) =
      >>=-Holds (attempt-Holds (revert_file-Backs path))
        λ o. >>=-Holds (revert_files-Holds rest) λ more. return-Holds (errors_of o ++ more)

  pub revert_if-Holds :
      (test : Bool) (paths : List String) {E : String → Assertion}
      → Holds P (λ a. P) E (revert_if sys test paths)
  unfolding revert_if
  revert_if-Holds true paths = revert_files-Holds paths
  revert_if-Holds false paths = return-Holds []

  ask_undo-Holds : (u : Undo) {E : String → Assertion} → Holds P (λ a. P) E (ask sys (undone u))
  ask_undo-Holds u = ask-Holds sys (undone u) (keep u)

  pub undo_if-Holds :
      (test : Bool) (u : Undo) {E : String → Assertion} → Holds P (λ a. P) E (undo_if sys test u)
  unfolding undo_if
  undo_if-Holds true u =
      >>=-Holds (ask_undo-Holds u) λ a. return-Holds (errors_of (result_of a.problem))
  undo_if-Holds false u = return-Holds []

  pub undo_all-Holds :
      (us : List Undo) {E : String → Assertion} → Holds P (λ a. P) E (undo_all sys us)
  unfolding undo_all undo
  undo_all-Holds [] = return-Holds tt
  undo_all-Holds (u ∷ rest) =
      >>-Holds (>>-Holds (ask_undo-Holds u) (return-Holds tt)) (undo_all-Holds rest)

module _ (sys : System) (dir : String) where
  restore_backup-Holds :
      (opts : Options) (bundles_dir : String) {E : String → Assertion}
      → Holds
          (Retreating sys dir)
          (λ a. In sys (restored dir))
          E
          (restore_backup sys opts dir bundles_dir)
  unfolding restore_backup
  restore_backup-Holds opts bundles_dir =
      let request = restore_request opts dir bundles_dir in
      >>=-Holds
        (attempt-Holds (
          operate-Holds sys (restoring dir) (λ host. restore_server host request)
            (λ past seen (p, retreats, reached).
              Reaches.restore dir request seen refl retreats reached)))
        λ o. return-Holds (errors_of o)

  pub report_errors-Holds :
      (errors : List String) {P : Assertion} {E : String → Assertion}
      → Holds P (λ a. P) E (report_errors sys errors)
  unfolding report_errors
  report_errors-Holds [] = return-Holds tt
  report_errors-Holds (e ∷ rest) = note-Holds _ _ _ _

  rollback-Holds :
      (opts : Options) (bundles_dir : String) {E : String → Assertion}
      → Holds
          (Retreating sys dir)
          (λ a. In sys (restored dir))
          E
          (rollback sys opts dir bundles_dir)
  unfolding rollback rollback_of
  rollback-Holds opts bundles_dir = look-Holds λ w.
      >>=-Holds
        (revert_if-Holds sys (Retreating sys dir) (undone-Retreating sys dir) w.pending.binary
          (k3s_paths opts))
        λ files.
          >>=-Holds
            (undo_if-Holds sys (Retreating sys dir) (undone-Retreating sys dir) w.pending.dns
              restore_dns)
            λ dns.
              >>=-Holds
                (undo_if-Holds sys (Retreating sys dir) (undone-Retreating sys dir)
                  w.pending.packages remove_packages)
                λ packages.
                  >>=-Holds
                    (undo_if-Holds sys (Retreating sys dir) (undone-Retreating sys dir)
                      w.pending.agent remove_agent)
                    λ agent. >>=-Holds (restore_backup-Holds opts bundles_dir) λ backup.
                      report_errors-Holds (files ++ (dns ++ (packages ++ (agent ++ backup))))

  -- failUpgrade, from a phase that retreats, stops as the protocol allows.
  pub fail_upgrade-Holds :
      {A : Type 0} {Q : A → Assertion} (opts : Options) (bundles_dir node problem : String)
      (undos : List Undo) (p : Phase)
      → Retreats dir p
      → (opts.preserve_failed_state ≡ true
          → Ends opts.preserve_failed_state node p (err (problem <> preserved_note)))
      → Holds
          (In sys p)
          Q
          (Stops sys opts.preserve_failed_state node)
          (fail_upgrade sys opts dir bundles_dir problem undos)
  unfolding fail_upgrade
  fail_upgrade-Holds opts bundles_dir node problem undos p retreats kept =
      tested-Holds opts.preserve_failed_state
        (λ test.
          stopped-Holds sys opts.preserve_failed_state node (problem <> preserved_note) p
            (kept test))
        λ test.
          >>-Holds
            (>>-Holds
              (record {
                run = λ w h.
                    (undo_all-Holds sys (Retreating sys dir) (undone-Retreating sys dir) undos
                        {E = Stops sys opts.preserve_failed_state node}).run
                      w (p, retreats, h);
              })
              (rollback-Holds opts bundles_dir))
            (stopped-Holds sys opts.preserve_failed_state node (problem <> rolled_back_note)
              (restored dir) (Ends.rolled_back dir problem test))
