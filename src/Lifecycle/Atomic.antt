-- ===== src/Lifecycle/Atomic.antt =====
-- internal/lifecycle/atomic.go: `WriteFileAtomic` as the sequence of its system calls. Each of
-- them may fail, as `Outcomes` says, and the process may die behind any of them: the trace holds
-- the disk behind each call.
pub mod Safety
use appliance_ctl.Common.{
  String, ◌==◌, Bool, true, false, Option, none, some, List, [], ◌∷◌, if◌then◌else◌,
}

-- The files by path.
abbrev pub Disk : Type 0
Disk = String → Option String

abbrev pub update : Disk → String → Option String → Disk
update disk path content p = if p == path then content else disk p

-- How the calls end. A write that fails leaves what `written` says.
pub record Outcomes : Type 0 where
  pub mkdir_ok : Bool
  pub create_ok : Bool
  pub write_ok : Bool
  pub written : String
  pub sync_ok : Bool
  pub close_ok : Bool
  pub chmod_ok : Bool
  pub rename_ok : Bool
  pub remove_ok : Bool

-- The disks behind the calls, the disk on return, and whether the function returned nil.
pub record Trace : Type 0 where
  pub disks : List Disk
  pub final : Disk
  pub success : Bool

-- One more call in front of a trace.
abbrev pub after : Disk → Trace → Trace
after disk t = record t { disks = disk ∷ t.disks }

-- A return, with the deferred `os.Remove(tmpPath)`. Its error is dropped; when there is no such
-- file the call changes nothing.
unfoldable pub finish : Outcomes → String → Disk → Bool → Trace
finish o tmp disk success =
    let disk' = if o.remove_ok then update disk tmp none else disk in
    record { disks = disk' ∷ []; final = disk'; success = success }

-- `os.Rename(tmpPath, path)`, which is atomic.
unfoldable pub rename : Outcomes → String → String → Disk → Trace
unfolding finish
rename o path tmp disk =
    if o.rename_ok
    then (let disk' = update (update disk path (disk tmp)) tmp none in
        after disk' (finish o tmp disk' true))
    else after disk (finish o tmp disk false)

-- The calls behind the write: Sync, Close and Chmod change no content.
unfoldable pub seal : Outcomes → String → String → Disk → Trace
unfolding rename finish
seal o path tmp disk =
    if o.sync_ok
    then after disk (
        if o.close_ok
        then after disk (
            if o.chmod_ok
            then after disk (rename o path tmp disk)
            else after disk (finish o tmp disk false))
        else after disk (finish o tmp disk false))
    else after disk (finish o tmp disk false)

-- `WriteFileAtomic`, where CreateTemp picks the name `tmp`.
unfoldable pub write_file_atomic : Outcomes → String → String → String → Disk → Trace
unfolding seal finish
write_file_atomic o tmp path content disk =
    if o.mkdir_ok
    then after disk (
        if o.create_ok
        then (let created = update disk tmp (some "") in
            let written = update created tmp (some (if o.write_ok then content else o.written)) in
            after created (
              after written
                (if o.write_ok then seal o path tmp written else finish o tmp written false)))
        else record { disks = disk ∷ []; final = disk; success = false })
    else record { disks = disk ∷ []; final = disk; success = false }
