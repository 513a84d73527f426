-- ===== src/Upgrade/Undo/Snapshots.antt =====
-- internal/upgrade/upgrade.go: what revertFile puts back.
use appliance_ctl.Common.{
  arith, String, Option, none, some, List, ok, ◌≡◌, ◌∙◌, ◌↔◌, Result-cases, inl, inr, eq_refl,
}
use appliance_ctl.Lifecycle.Atomic.{Disk, update}
use appliance_ctl.Upgrade.Host.{snapshot, revert, Call, changed, undone, System, World}
use appliance_ctl.Upgrade.Undo.{
  previous, wrote, write, read, check_stat, result_of, stat_error, snapshot_file, revert_file,
}

-- Reading a file returns what the disk holds.
abbrev pub ReadsDisk : System → Type 0
ReadsDisk sys =
    (past : List Call) (disk : Disk) (path content : String)
    → ((sys.recovery past).on disk).read_file path ≡ ok content ↔ disk path ≡ some content

update-same :
    (disk : Disk) (path : String) (content : Option String)
    → update disk path content path ≡ content
update-same disk path content = ground (arith, eq_refl path)

module _ (sys : System) where
  -- A write that succeeded.
  wrote-content :
      (c : Call) (path content : String) (w : World) (answer : Option String)
      → (wrote sys c path content w answer).result ≡ ok tt
      → (wrote sys c path content w answer).world.disk path ≡ some content
  unfolding wrote
  wrote-content c path content w none h = update-same w.disk path (some content)
  wrote-content c path content w (some e) h = cc

  write-content :
      (c : Call) (path content : String) (w : World)
      → (write sys c path content w).result ≡ ok tt
      → (write sys c path content w).world.disk path ≡ some content
  unfolding write
  write-content c path content w h = wrote-content c path content w (sys.answer w.calls c).problem h

  -- A snapshot that succeeded holds the content of the file.
  snapshot_file-content :
      ReadsDisk sys
      → (path : String) (w : World) → (snapshot_file sys path w).result ≡ ok tt
      → (snapshot_file sys path w).world.disk (previous path) ≡ w.disk path
  unfolding snapshot_file read check_stat
  snapshot_file-content reads path w =
      elim (Result-cases (((sys.recovery w.calls).on w.disk).read_file path)) [
        | inl (e, h) ↦ rw h (λ x. cc)
        | inr (content, h) ↦ rw h (
            rw ((reads w.calls w.disk path content).0 h)
              (elim (Result-cases
                (result_of (stat_error path ((sys.recovery w.calls).stat w.disk path)))) [
                  | inl (e, h') ↦ rw h' (λ x. cc)
                  | inr (done, h') ↦
                      rw h'
                        (λ x. write-content (changed (snapshot path)) (previous path) content w x)
                ]))
      ]

  revert_file-content :
      ReadsDisk sys
      → (path : String) (w : World) → (revert_file sys path w).result ≡ ok tt
      → (revert_file sys path w).world.disk path ≡ w.disk (previous path)
  unfolding revert_file read
  revert_file-content reads path w =
      elim (Result-cases (((sys.recovery w.calls).on w.disk).read_file (previous path))) [
        | inl (e, h) ↦ rw h (λ x. cc)
        | inr (content, h) ↦ rw h (
            rw ((reads w.calls w.disk (previous path) content).0 h)
              (λ x. write-content (undone (revert path)) path content w x))
      ]

-- What snapshotFile saved is what revertFile puts back, whatever was done in between to anything
-- but the snapshot, where both return no error and reading a file returns what the disk holds.
pub snapshot_file-revert_file :
    (sys : System) (path : String) (before between : World)
    → ReadsDisk sys
    → (snapshot_file sys path before).result ≡ ok tt
    → between.disk (previous path) ≡ (snapshot_file sys path before).world.disk (previous path)
    → (revert_file sys path between).result ≡ ok tt
    → (revert_file sys path between).world.disk path ≡ before.disk path
snapshot_file-revert_file sys path before between reads taken kept reverted =
    revert_file-content sys reads path between reverted
    ∙ (kept ∙ snapshot_file-content sys reads path before taken)
