-- ===== src/Tests/Backup.antt =====
-- Backups and restores on concrete inputs.
use appliance_ctl.Common.{
  ◌&&◌, String, ◌<>◌, ◌==◌, true, false, if◌then◌else◌, none, some, List, [], ◌∷◌, ok, err, ◌≡◌,
  refl, ◌⊎◌,
}
use appliance_ctl.Common.Text.{trim_space}
use appliance_ctl.Lifecycle.Atomic.{Outcomes, update}
use appliance_ctl.Backup.{
  Manifest, stop, enable_and_start, mkdir_all, write_file, write_atomic, Visit, not_exist, System,
  World, load_manifest, copy_dir, save_manifest,
}
use appliance_ctl.Backup.Create.{create_server}
use appliance_ctl.Backup.Create as Create
use appliance_ctl.Backup.Create.Restarts.{NoError, create-restarts}
use appliance_ctl.Backup.Integrity.{verify, verify_iff}
use appliance_ctl.Backup.Restore.{restore_server}
use appliance_ctl.Backup.Restore as Restore
use appliance_ctl.Backup.Restore.Refuses.{Ends, restore-Ends}
use appliance_ctl.Backup.Starts.{IsRestarted}
use appliance_ctl.Verify.{verify_digest}
use appliance_ctl.Tests.Verify.{host_of}

abbrev pub manifest : Manifest
manifest = record {
  backup_id = "id";
  created_at = 100;
  appliance_version = "1.4.0";
  metadata_version = "";
  metadata_digest = "";
  files = record { path = "db"; digest = "sha256:ab12"; size_bytes = 7 } ∷ [];
  policy_files = [];
  model_files = [];
}

abbrev pub all_work : Outcomes
all_work = record {
  mkdir_ok = true;
  create_ok = true;
  write_ok = true;
  written = "";
  sync_ok = true;
  close_ok = true;
  chmod_ok = true;
  rename_ok = true;
  remove_ok = true;
}

abbrev pub tree_at : String → List Visit
tree_at src =
    record { path = src; problem = none; is_dir = true }
    ∷ record { path = src <> "/db"; problem = none; is_dir = false }
    ∷ []

abbrev pub sys : System
sys = record {
  on = host_of;
  stat = λ disk path. not_exist;
  walk = λ disk src. tree_at src;
  fails = λ past call. none;
  left = λ past call disk. disk;
  atomic = λ past. all_work;
  atomic_error = λ past. "";
  temp_name = λ past. "/b/id/.tmp";
  rel = λ src path. if path == src then ok "." else ok "db";
  join = λ dir name. dir <> "/" <> name;
  dir = λ path. "/b/id/data";
  under = λ root path. root == "/var/k3s" && path == "/var/k3s/db";
  marshal = λ m. ok "{manifest}";
  unmarshal = λ text. ok manifest;
  decimal = λ n. "1";
}

abbrev pub running : World
running = record {
  calls = [];
  disk = λ path. if path == "/var/k3s/db" then some "payload" else none;
  checks = [];
}

abbrev request : Create.Request
request = record {
  unit_name = "k3s";
  data_dir = "/var/k3s";
  backup_root = "/b";
  appliance_version = "1.4.0";
  metadata_bundles_dir = "";
  metadata_version = "";
  metadata_digest = "";
  models_dir = "";
  now = 100;
  backup_id = "id";
}

-- A backup of one file, with every call.
created_calls :
    (create_server sys request running).world.calls
    ≡ enable_and_start "k3s"
      ∷ write_atomic "/b/id/manifest.json" "{manifest}"
      ∷ mkdir_all "/b/id"
      ∷ write_file "/b/id/data/db" "payload"
      ∷ mkdir_all "/b/id/data"
      ∷ mkdir_all "/b/id/data"
      ∷ stop "k3s"
      ∷ []
unfolding Create.create copy_dir trim_space save_manifest
created_calls = refl

-- A host on which writing the copy fails.
abbrev full : System
full = record sys {
  fails = λ past call. elim call [
    | write_file path content ↦ some "no space left on device"
    | _ ↦ none
  ];
}

-- The failed backup starts K3s again.
failed_calls :
    (create_server full request running).world.calls
    ≡ enable_and_start "k3s"
      ∷ write_file "/b/id/data/db" "payload"
      ∷ mkdir_all "/b/id/data"
      ∷ mkdir_all "/b/id/data"
      ∷ stop "k3s"
      ∷ []
unfolding Create.create copy_dir
failed_calls = refl

create-restarts_example :
    let o = Create.create full request running in
    ((e : String) × (full.fails [] (stop "k3s") ≡ some e)
      × (o.world.calls ≡ stop "k3s" ∷ [])
      × (o.result ≡ err ("backup: stop k3s" <> ": " <> e)))
    ⊎ ((full.fails [] (stop "k3s") ≡ none) × IsRestarted full "k3s" NoError o)
create-restarts_example = create-restarts full request running

-- The disk behind the first backup.
abbrev backed_up : World
backed_up = (create_server sys request running).world

verify_iff_example : (verify sys "/b/id" backed_up).1 ≡ none
unfolding load_manifest Create.create copy_dir trim_space save_manifest
verify_iff_example =
    (verify_iff sys "/b/id" backed_up).1 (manifest, refl, ((("payload", refl, refl), tt), (tt, tt)))

abbrev restoring : Restore.Request
restoring = record {
  unit_name = "k3s";
  backup_dir = "/b/id";
  data_dir = "/var/k3s";
  metadata_bundles_dir = "";
  models_dir = "";
}

-- The file is back behind a restore.
restored_file : (restore_server sys restoring backed_up).world.disk "/var/k3s/db" ≡ some "payload"
unfolding Restore.restore load_manifest verify Create.create copy_dir trim_space save_manifest
    verify_digest
restored_file = refl

-- A tampered copy is refused.
abbrev tampered : World
tampered = record backed_up { disk = update backed_up.disk "/b/id/data/db" (some "other") }

restore-Ends_example :
    Ends sys restoring tampered
      (verify sys "/b/id" tampered).1
      (Restore.restore sys restoring tampered)
restore-Ends_example = restore-Ends sys restoring tampered
