-- ===== src/Lifecycle/Journal.antt =====
-- internal/lifecycle/journal.go: the single-record transaction journal. json.MarshalIndent and
-- json.Unmarshal of a transaction are the parameter `codec`; the clock, the random transaction id
-- and how the system calls end are arguments. A timestamp is a number.
pub mod Recovery
use appliance_ctl.Common.{
  String, ◌==◌, ℕ, Bool, true, false, not, Option, none, some, List, [], ◌∷◌, Result, ok, err,
  if◌then◌else◌,
}
use appliance_ctl.Lifecycle.Atomic.{Disk, Outcomes, Trace, write_file_atomic}

pub data OperationStatus : Type 0 where
  in_progress completed failed rolled_back : OperationStatus

pub record Transaction : Type 0 where
  pub id : String
  pub type : String
  pub status : OperationStatus
  pub started_at : ℕ
  pub completed_at : Option ℕ
  pub source_version : String
  pub target_version : String

-- `Transaction.Interrupted`
unfoldable pub interrupted : OperationStatus → Bool
interrupted in_progress = true
interrupted completed = false
interrupted failed = false
interrupted rolled_back = false

-- json.MarshalIndent and json.Unmarshal on a transaction.
pub record Codec : Type 0 where
  pub marshal : Transaction → Option String
  pub unmarshal : String → Option Transaction

pub record Journal : Type 0 where
  pub path : String
  pub dry_run : Bool

-- `NewJournal`
abbrev pub new_journal : String → Bool → Journal
new_journal path dry_run = record { path = path; dry_run = dry_run }

pub data Error : Type 0 where
  read_failed parse_failed mkdir_failed write_failed : Error

-- The system around one call: the outcomes of the write and of the MkdirAll before it, the name
-- of the temporary file, the clock, the fresh id.
pub record System : Type 0 where
  pub outcomes : Outcomes
  pub journal_mkdir_ok : Bool
  pub tmp : String
  pub now : ℕ
  pub fresh_id : String

-- The transaction that `Begin` persists and returns.
unfoldable pub new_transaction : System → String → String → String → Transaction
new_transaction sys operation source target = record {
  id = sys.fresh_id;
  type = operation;
  status = in_progress;
  started_at = sys.now;
  completed_at = none;
  source_version = source;
  target_version = target;
}

-- The transaction as `finish` changes it.
unfoldable pub finished : System → OperationStatus → Transaction → Transaction
finished sys status txn = record txn { status = status; completed_at = some sys.now }

module _ (codec : Codec) where
  -- `Journal.Current`; `readable` is whether reading an existing file succeeds.
  unfoldable pub current : Journal → Bool → Disk → Result Error (Option Transaction)
  current j readable disk = elim (disk j.path) [
    | none ↦ ok none
    | some bytes ↦
        if readable
        then (elim (codec.unmarshal bytes) [ none ↦ err parse_failed | some t ↦ ok (some t) ])
        else err read_failed
  ]

  -- The trace of `persist`: what the disk holds behind each call, and whether it returned nil.
  unfoldable pub persist : Journal → System → Transaction → Disk → Trace
  persist j sys txn disk =
      if j.dry_run
      then record { disks = disk ∷ []; final = disk; success = true }
      else elim (codec.marshal txn) [
        | none ↦ record { disks = disk ∷ []; final = disk; success = false }
        | some bytes ↦
            if sys.journal_mkdir_ok
            then write_file_atomic sys.outcomes sys.tmp j.path bytes disk
            else record { disks = disk ∷ []; final = disk; success = false }
      ]

  -- `Journal.Begin`
  unfoldable pub begin : Journal → System → String → String → String → Disk → Trace
  unfolding new_transaction
  begin j sys operation source target disk =
      persist j sys (new_transaction sys operation source target) disk

  -- `Journal.finish`, which Complete, Fail and RollBack call with their statuses.
  unfoldable pub finish : OperationStatus → Journal → System → Transaction → Disk → Trace
  unfolding finished
  finish status j sys txn disk = persist j sys (finished sys status txn) disk

  abbrev pub complete : Journal → System → Transaction → Disk → Trace
  complete = finish completed

  abbrev pub fail : Journal → System → Transaction → Disk → Trace
  fail = finish failed

  abbrev pub roll_back : Journal → System → Transaction → Disk → Trace
  roll_back = finish rolled_back
