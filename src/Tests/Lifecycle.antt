-- ===== src/Tests/Lifecycle.antt =====
-- internal/lifecycle on concrete inputs.
use appliance_ctl.Common.{
  String, ◌==◌, eq_iff, arith, true, false, not, ◌&&◌, none, some, All, ok, ◌≡◌, ◌≢◌, refl, ◌⊎◌,
  if◌then◌else◌,
}
use appliance_ctl.Lifecycle.Atomic.{Disk, Outcomes, write_file_atomic}
use appliance_ctl.Lifecycle.Atomic.Safety.{write_file_atomic-old_or_new}
use appliance_ctl.Lifecycle.Journal.{
  Codec, Journal, new_journal, System, Transaction, OperationStatus, in_progress, completed, failed,
  rolled_back, complete, fail, roll_back, current, persist,
}
use appliance_ctl.Lifecycle.Journal.Recovery.{ReadsBack, Finished, persist-current, current-finish}

abbrev journal_path : String
journal_path = "/var/lib/appliance/transaction.json"

abbrev temporary : String
temporary = "/var/lib/appliance/.tmp-1"

-- The disk with the receipt, and no journal yet.
abbrev disk : Disk
disk p = if p == "/var/lib/appliance/state.json" then some "{}" else none

-- All calls work but the rename.
abbrev no_rename : Outcomes
no_rename = record {
  mkdir_ok = true;
  create_ok = true;
  write_ok = true;
  written = "";
  sync_ok = true;
  close_ok = true;
  chmod_ok = true;
  rename_ok = false;
  remove_ok = true;
}

abbrev all_work : Outcomes
all_work = record no_rename { rename_ok = true }

other_name : ◌≢◌ {A = String} temporary journal_path
other_name = ground (arith, eq_iff temporary journal_path)

write_file_atomic-old_or_new_example :
    All
      (λ d. (d journal_path ≡ disk journal_path) ⊎ (d journal_path ≡ some "{1}"))
      (write_file_atomic no_rename temporary journal_path "{1}" disk).disks
    × ((write_file_atomic no_rename temporary journal_path "{1}" disk).final journal_path ≡ (
        if (write_file_atomic no_rename temporary journal_path "{1}" disk).success
        then some "{1}"
        else disk journal_path))
write_file_atomic-old_or_new_example =
    write_file_atomic-old_or_new no_rename temporary journal_path "{1}" disk other_name

abbrev install : Transaction
install = record {
  id = "t1";
  type = "install";
  status = in_progress;
  started_at = 5;
  completed_at = none;
  source_version = "";
  target_version = "1.4.0";
}

-- A codec of the two transactions that the tests write.
abbrev status_text : OperationStatus → String
status_text in_progress = "in progress"
status_text completed = "done"
status_text failed = "failed"
status_text rolled_back = "rolled back"

abbrev codec : Codec
codec = record {
  marshal = λ t. some (elim t.completed_at [ none ↦ "open" | some n ↦ status_text t.status ]);
  unmarshal = λ s.
      if s == "open"
      then some install
      else if s == "done"
      then some (record install { status = completed; completed_at = some 5 })
      else if s == "failed"
      then some (record install { status = failed; completed_at = some 5 })
      else if s == "rolled back"
      then some (record install { status = rolled_back; completed_at = some 5 })
      else if s == "in progress"
      then some (record install { status = in_progress; completed_at = some 5 })
      else none;
}

abbrev sys : System
sys = record {
  outcomes = all_work;
  journal_mkdir_ok = true;
  tmp = temporary;
  now = 5;
  fresh_id = "t1";
}

abbrev j : Journal
j = new_journal journal_path false

persist-current_example :
    All
      (λ d.
        (current codec j true d ≡ current codec j true disk)
        ⊎ (current codec j true d ≡ ok (some install)))
      (persist codec j sys install disk).disks
    × (current codec j true (persist codec j sys install disk).final ≡ (
        if (persist codec j sys install disk).success && not j.dry_run
        then ok (some install)
        else current codec j true disk))
persist-current_example = persist-current codec j sys install disk other_name ("open", refl, refl)

every_status :
    (status : OperationStatus)
    → ReadsBack codec j (record install { status = status; completed_at = some 5 })
every_status in_progress = ("in progress", refl, refl)
every_status completed = ("done", refl, refl)
every_status failed = ("failed", refl, refl)
every_status rolled_back = ("rolled back", refl, refl)

current-finish_example :
    Finished codec j completed sys install disk (complete codec j sys install disk)
    × Finished codec j failed sys install disk (fail codec j sys install disk)
    × Finished codec j rolled_back sys install disk (roll_back codec j sys install disk)
current-finish_example = current-finish codec j sys install disk other_name every_status refl
