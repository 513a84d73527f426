-- ===== src/Upgrade/Protocol.antt =====
-- What an upgrade promises, without its steps: the phases that its calls run through, and how a run
-- may end in a phase.
pub mod Holds
pub mod Retreat
pub mod Changes
pub mod Foundation
pub mod Charts
pub mod Refines
pub mod Run
use appliance_ctl.Common.{
  String, ◌<>◌, Bool, true, false, List, [], ◌∷◌, ◌++◌, map, Option, none, some, Result, ok, err,
  ◌≡◌,
}
use appliance_ctl.Backup as Recovery
use appliance_ctl.Backup.Create as Create
use appliance_ctl.Backup.Create.{create_server}
use appliance_ctl.Backup.Integrity.{verify}
use appliance_ctl.Backup.Restore as Restore
use appliance_ctl.Backup.Restore.{restore_server}
use appliance_ctl.State.{InstalledState}
use appliance_ctl.Upgrade.Host.{
  Staging, Change, Undo, Call, staged, backing_up, in_backup, verifying, changed, undone, restoring,
  saved, clean_values, System, Answer,
}
use appliance_ctl.Upgrade.Transaction.{no_control_plane}
use appliance_ctl.Upgrade.Undo.{preserved_note, rolled_back_note}

-- From the verified backup on, a phase knows its directory.
pub data Phase : Type 0 where
  preparing backing : Phase
  changing unsaved undoing restored : String → Phase
  recorded : String → InstalledState → Phase

-- The phases from which a failed upgrade goes back.
pub data Retreats : String → Phase → Type 0 where
  from_changes : (dir : String) → Retreats dir (changing dir)
  from_save : (dir : String) → Retreats dir (unsaved dir)
  from_undo : (dir : String) → Retreats dir (undoing dir)

module _ (sys : System) where
  -- Which call may be made in which phase, behind the calls of the past, and the phase behind it.
  -- The changes begin behind a backup.Verify that found the backup of that host intact, and the
  -- state is recorded by a state.Save that returned nil.
  pub data Move (past : List Call) : Phase → Call → Phase → Type 0 where
    stage : (s : Staging) → Move past preparing (staged s) preparing
    intact :
        (dir : String) (seen : Recovery.World)
        → (verify (sys.recovery past) dir seen).1 ≡ none
        → Move past backing (verifying dir seen) (changing dir)
    damaged :
        (dir e : String) (seen : Recovery.World)
        → (verify (sys.recovery past) dir seen).1 ≡ some e
        → Move past backing (verifying dir seen) backing
    change : (dir : String) (c : Change) → Move past (changing dir) (changed c) (changing dir)
    record_in :
        (dir path : String) (s : InstalledState)
        → (sys.answer past (saved path s)).problem ≡ none
        → Move past (changing dir) (saved path s) (recorded dir s)
    save_failed :
        (dir path e : String) (s : InstalledState)
        → (sys.answer past (saved path s)).problem ≡ some e
        → Move past (changing dir) (saved path s) (unsaved dir)
    take_back :
        (dir : String) (p : Phase) (u : Undo)
        → Retreats dir p
        → Move past p (undone u) (undoing dir)
    clean : (p : Phase) (path : String) → Move past p (clean_values path) p

  -- The calls of a run, newest first, lead to a phase. Behind a call of backup.Create or Restore
  -- stand the calls that the operation makes on the host that it sees.
  pub data Reaches : List Call → Phase → Type 0 where
    start : Reaches [] preparing
    move :
        {p q : Phase} {c : Call} {past : List Call}
        → Move past p c q
        → Reaches past p
        → Reaches (c ∷ past) q
    back_up :
        {past : List Call} (r : Create.Request) (seen : Recovery.World)
        → Reaches past preparing
        → Reaches
            (map in_backup
                (create_server (sys.recovery (backing_up seen ∷ past)) r seen).world.calls
              ++ (backing_up seen ∷ past))
            backing
    restore :
        {p : Phase} {past : List Call} (dir : String) (r : Restore.Request) (seen : Recovery.World)
        → r.backup_dir ≡ dir
        → Retreats dir p
        → Reaches past p
        → Reaches
            (map in_backup
                (restore_server (sys.recovery (restoring dir seen ∷ past)) r seen).world.calls
              ++ (restoring dir seen ∷ past))
            (restored dir)

-- The result of a run that ends in a phase. The last way out is the error about a node that is not
-- in the cluster's record, which neither rolls back nor keeps the state on request.
pub data Ends (preserve : Bool) (node : String)
    : Phase → Result String InstalledState → Type 0 where
  refused : (e : String) → Ends preserve node preparing (err e)
  not_backed_up : (e : String) → Ends preserve node backing (err e)
  upgraded : (dir : String) (s : InstalledState) → Ends preserve node (recorded dir s) (ok s)
  rolled_back :
      (dir problem : String)
      → preserve ≡ false
      → Ends preserve node (restored dir) (err (problem <> rolled_back_note))
  kept :
      (dir problem : String)
      → preserve ≡ true
      → Ends preserve node (changing dir) (err (problem <> preserved_note))
  kept_unsaved :
      (dir problem : String)
      → preserve ≡ true
      → Ends preserve node (unsaved dir) (err (problem <> preserved_note))
  abandoned : (dir : String) → Ends preserve node (changing dir) (err (no_control_plane node))
