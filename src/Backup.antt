-- ===== src/Backup.antt =====
-- internal/backup: the host that backup and restore work on, copyDir, and the manifest file. The
-- calls that change something are logged, newest first; each of them may fail in the light of the
-- calls before it. Reading changes nothing and is not logged.
pub mod Starts
pub mod Create
pub mod Integrity
pub mod Restore
use appliance_ctl.Common.{
  String, ◌<>◌, ◌==◌, ℕ, Bool, if◌then◌else◌, Option, none, some, List, [], ◌∷◌, ◌++◌, Result, ok,
  err,
}
use appliance_ctl.Common.Effects.{Outcome, Run, ◌>>=◌, ◌>>◌, return, fail_with, attempt, in_context}
use appliance_ctl.Evidence.{Check, Status}
use appliance_ctl.Lifecycle.Atomic.{Disk, Outcomes, update, write_file_atomic}
use appliance_ctl.Verify.{Host, digest}
use appliance_ctl.Verify.Artifacts.{check_of}

pub record FileEntry : Type 0 where
  pub path : String
  pub digest : String
  pub size_bytes : ℕ

pub record Manifest : Type 0 where
  pub backup_id : String
  pub created_at : ℕ
  pub appliance_version : String
  pub metadata_version : String
  pub metadata_digest : String
  pub files : List FileEntry
  pub policy_files : List FileEntry
  pub model_files : List FileEntry

pub data Call : Type 0 where
  stop enable_and_start mkdir_all remove_all : String → Call
  write_file write_atomic : String → String → Call

-- What filepath.WalkDir passes to its callback.
pub record Visit : Type 0 where
  pub path : String
  pub problem : Option String
  pub is_dir : Bool

pub data Stat : Type 0 where
  exists not_exist : Stat
  failed : String → Stat

-- os, path/filepath, encoding/json, fmt's %d and `k3s.Ops`: what the reads answer on a disk, whether a call
-- fails behind other calls and what a failed call leaves, the file names, and the walk of a tree.
-- `under root p` tells whether the file p belongs to the tree at `root`.
pub record System : Type 0 where
  pub on : Disk → Host String
  pub stat : Disk → String → Stat
  pub walk : Disk → String → List Visit
  pub fails : List Call → Call → Option String
  pub left : List Call → Call → Disk → Disk
  pub atomic : List Call → Outcomes
  pub atomic_error : List Call → String
  pub temp_name : List Call → String
  pub rel : String → String → Result String String
  pub join : String → String → String
  pub dir : String → String
  pub under : String → String → Bool
  pub marshal : Manifest → Result String String
  pub unmarshal : String → Result String Manifest
  pub decimal : ℕ → String

pub record World : Type 0 where
  pub calls : List Call
  pub disk : Disk
  pub checks : List Check

-- `checks = append(checks, …)`, all of category "backup-restore".
abbrev pub note : String → Status → String → Run World (Unit {0})
note id status message w = record {
  world = record w { checks = w.checks ++ (check_of id "backup-restore" status message ∷ []) };
  result = ok tt;
}

module _ (sys : System) where
  -- What a call that succeeds leaves.
  abbrev pub effect : Call → Disk → Disk
  effect (stop unit) disk = disk
  effect (enable_and_start unit) disk = disk
  effect (mkdir_all path) disk = disk
  effect (remove_all path) disk = λ p. if sys.under path p then none else disk p
  effect (write_file path content) disk = update disk path (some content)
  effect (write_atomic path content) disk = update disk path (some content)

  -- Behind the answer of a call.
  unfoldable pub answered : Call → World → Option String → Outcome World (Unit {0})
  answered c w none = record {
    world = record w { calls = c ∷ w.calls; disk = effect c w.disk };
    result = ok tt;
  }
  answered c w (some e) = record {
    world = record w { calls = c ∷ w.calls; disk = sys.left w.calls c w.disk };
    result = err e;
  }

  unfoldable pub perform : Call → Run World (Unit {0})
  unfolding answered
  perform c w = answered c w (sys.fails w.calls c)

  -- `_ = ops.EnableAndStart(unitName); return nil, checks, err`
  unfoldable pub bail : {A : Type 0} → String → String → Run World A
  unfolding perform
  bail unit error = do attempt (perform (enable_and_start unit)); fail_with error

  -- `lifecycle.WriteFileAtomic`
  unfoldable pub perform_atomic : String → String → Run World (Unit {0})
  unfolding write_file_atomic
  perform_atomic path content w =
      let t = write_file_atomic (sys.atomic w.calls) (sys.temp_name w.calls) path content w.disk in
      record {
        world = record w { calls = write_atomic path content ∷ w.calls; disk = t.final };
        result = if t.success then ok tt else err (sys.atomic_error w.calls);
      }

  -- An answer of the host on the disk as it is.
  abbrev pub ask : {A : Type 0} → (Host String → Result String A) → Run World A
  ask question w = record { world = w; result = question (sys.on w.disk) }

  -- A regular file of the walk: read, write, and digest of what was written.
  unfoldable pub copy_file : String → String → String → Run World FileEntry
  unfolding perform digest
  copy_file path rel dst = do
    content ← ask (λ host. host.read_file path)
    let dest_path = sys.join dst rel
    perform (mkdir_all (sys.dir dest_path))
    perform (write_file dest_path content)
    sum ← ask (λ host. digest host dest_path)
    ask (λ host. ok (record { path = rel; digest = sum; size_bytes = host.len content }))

  -- The callback of the walk, with the path relative to `src`.
  unfoldable pub copy_visit : Visit → Result String String → String → Run World (List FileEntry)
  unfolding copy_file
  copy_visit v (err e) dst = fail_with e
  copy_visit v (ok rel) dst =
      if v.is_dir
      then perform (mkdir_all (if rel == "." then dst else sys.join dst rel)) >> return []
      else (copy_file v.path rel dst >>= λ entry. return (entry ∷ []))

  unfoldable pub copy_visits : String → String → List Visit → Run World (List FileEntry)
  unfolding copy_visit
  copy_visits src dst [] = return []
  copy_visits src dst (v ∷ rest) = do
    entries ← elim v.problem [ some e ↦ fail_with e | none ↦ copy_visit v (sys.rel src v.path) dst ]
    more ← copy_visits src dst rest
    return (entries ++ more)

  -- `copyDir`
  unfoldable pub copy_dir : String → String → Run World (List FileEntry)
  unfolding copy_visits
  copy_dir src dst w =
      in_context ("backup: copy " <> src <> " to " <> dst)
        (copy_visits src dst (sys.walk w.disk src)) w

  -- `manifestPath`
  abbrev pub manifest_path : String → String
  manifest_path backup_dir = sys.join backup_dir "manifest.json"

  -- `SaveManifest`
  unfoldable pub save_manifest : String → Manifest → Run World (Unit {0})
  unfolding perform perform_atomic
  save_manifest backup_dir m = do
    content ← in_context "backup: marshal manifest" (ask (λ host. sys.marshal m))
    in_context "backup: create backup directory" (perform (mkdir_all backup_dir))
    perform_atomic (manifest_path backup_dir) content

  -- `LoadManifest`
  unfoldable pub load_manifest : String → Run World Manifest
  load_manifest backup_dir = do
    content ←
        in_context "backup: read manifest" (ask (λ host. host.read_file (manifest_path backup_dir)))
    in_context "backup: parse manifest" (ask (λ host. sys.unmarshal content))
