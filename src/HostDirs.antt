-- ===== src/HostDirs.antt =====
-- internal/hostdirs/hostdirs.go: the directories and log files whose owner and mode the tool sets.
-- An os.FileMode is a number, in which os.ModeSetgid is bit 22.
use appliance_ctl.Common.{
  String, ◌<>◌, ℕ, ◌+◌, Bool, if◌then◌else◌, Option, none, some, List, [], ◌∷◌, ◌++◌, ok, err,
}
use appliance_ctl.Common.Effects.{Run, ◌>>◌, in_context}

abbrev pub mode_setgid : ℕ
mode_setgid = 4194304

abbrev pub appliance_dir_owner_uid : ℕ
appliance_dir_owner_uid = 0

abbrev pub appliance_shared_fs_gid : ℕ
appliance_shared_fs_gid = 20000

abbrev pub control_plane_dir_owner_uid : ℕ
control_plane_dir_owner_uid = 10001

abbrev pub ui_dir_owner_uid : ℕ
ui_dir_owner_uid = 10002

abbrev pub registry_dir_owner_uid : ℕ
registry_dir_owner_uid = 10003

abbrev pub workflow_controller_dir_owner_uid : ℕ
workflow_controller_dir_owner_uid = 65532

abbrev pub dns_dir_owner_uid : ℕ
dns_dir_owner_uid = 10004

abbrev pub host_agent_dir_owner_uid : ℕ
host_agent_dir_owner_uid = 10005

abbrev pub inference_dir_owner_uid : ℕ
inference_dir_owner_uid = 10006

abbrev pub automation_runtime_dir_owner_uid : ℕ
automation_runtime_dir_owner_uid = 10007

abbrev pub blob_storage_dir_owner_uid : ℕ
blob_storage_dir_owner_uid = 10009

abbrev pub service_log_dir_mode : ℕ
service_log_dir_mode = 0x1ed + mode_setgid

abbrev pub service_log_file_mode : ℕ
service_log_file_mode = 0x1a4

abbrev pub shared_writable_dir_mode : ℕ
shared_writable_dir_mode = 0x1fd + mode_setgid

abbrev pub workspace_dir_mode : ℕ
workspace_dir_mode = 0x1ff + mode_setgid

abbrev pub inference_models_dir : String
inference_models_dir = "/data/zon/inference/models"

abbrev pub blob_storage_dir : String
blob_storage_dir = "/data/zon/blob-storage"

abbrev pub video_media_projection_dir : String
video_media_projection_dir = "/data/zon/video-media"

abbrev pub metadata_bundles_dir : String
metadata_bundles_dir = "/data/zon/metadata-bundles"

pub record OwnedDir : Type 0 where
  pub check_id : String
  pub path : String
  pub uid : ℕ
  pub gid : ℕ
  pub mode : ℕ

abbrev pub log_dir : String → String → ℕ → OwnedDir
log_dir id path uid = record {
  check_id = id;
  path = path;
  uid = uid;
  gid = appliance_shared_fs_gid;
  mode = service_log_dir_mode;
}

abbrev pub log_file : String → String → ℕ → OwnedDir
log_file id path uid = record {
  check_id = id;
  path = path;
  uid = uid;
  gid = appliance_shared_fs_gid;
  mode = service_log_file_mode;
}

-- `if include { dirs = append(dirs, dir) }`
abbrev pub included : Bool → OwnedDir → List OwnedDir
included test dir = if test then dir ∷ [] else []

-- The capabilities that the log directories depend on.
pub record Included : Type 0 where
  pub artifact : Bool
  pub workflows : Bool
  pub dns : Bool
  pub inference : Bool
  pub host : Bool

-- `ServiceLogDirs` with its optional argument; `includeFiles` is not used.
unfoldable pub service_log_dirs : Included → List OwnedDir
service_log_dirs i =
    (log_dir "api-server-log-directory-owned" "/data/zon/logs/api-server"
        control_plane_dir_owner_uid
      ∷ log_dir "ui-log-directory-owned" "/data/zon/logs/ui" ui_dir_owner_uid
      ∷ log_dir "automation-runtime-log-directory-owned" "/data/zon/logs/automation-runtime"
          automation_runtime_dir_owner_uid
      ∷ [])
    ++ (included i.host (
          log_dir "host-agent-log-directory-owned" "/data/zon/logs/host-agent"
            host_agent_dir_owner_uid)
        ++ (included i.artifact (
              log_dir "artifactserver-log-directory-owned" "/data/zon/logs/artifactserver"
                registry_dir_owner_uid)
            ++ (included i.workflows (
                  log_dir "workflow-controller-log-directory-owned"
                    "/data/zon/logs/workflow-controller" workflow_controller_dir_owner_uid)
                ++ (included i.dns
                      (log_dir "dns-log-directory-owned" "/data/zon/logs/dns" dns_dir_owner_uid)
                    ++ included i.inference (
                        log_dir "inference-log-directory-owned" "/data/zon/logs/inference"
                          inference_dir_owner_uid)))))

-- `ServiceLogFiles`
unfoldable pub service_log_files : Included → List OwnedDir
service_log_files i =
    included i.host
      (log_file "host-agent-daemon-log-readable" "/data/zon/logs/host-agent/host-agentd.log" 0)
    ++ included i.artifact (
        log_file "artifactserver-application-log-readable"
          "/data/zon/logs/artifactserver/application.log" registry_dir_owner_uid)

-- The system calls of both functions below.
pub data Syscall : Type 0 where
  mkdir_all create close : String → Syscall
  chmod : String → ℕ → Syscall
  chown : String → ℕ → ℕ → Syscall

-- os, and fmt's %d.
module _ (fails : List Syscall → Syscall → Option String) (decimal : ℕ → String) where
  unfoldable pub syscall : Syscall → Run (List Syscall) (Unit {0})
  syscall c past = record {
    world = c ∷ past;
    result = elim (fails past c) [ none ↦ ok tt | some e ↦ err e ];
  }

  unfoldable pub set_owner : OwnedDir → Run (List Syscall) (Unit {0})
  unfolding syscall
  set_owner d = do
    in_context ("hostdirs: chmod " <> d.path) (syscall (chmod d.path d.mode))
    in_context ("hostdirs: chown " <> d.path <> " to " <> decimal d.uid <> ":" <> decimal d.gid)
        (syscall (chown d.path d.uid d.gid))

  -- `EnsureOwnedDir`
  unfoldable pub ensure_owned_dir : OwnedDir → Run (List Syscall) (Unit {0})
  unfolding syscall set_owner
  ensure_owned_dir d = do
    in_context ("hostdirs: create " <> d.path) (syscall (mkdir_all d.path))
    set_owner d

  -- `EnsureOwnedFile`
  unfoldable pub ensure_owned_file : OwnedDir → Run (List Syscall) (Unit {0})
  unfolding syscall set_owner
  ensure_owned_file d = do
    in_context ("hostdirs: create " <> d.path) (syscall (create d.path))
    in_context ("hostdirs: close " <> d.path) (syscall (close d.path))
    set_owner d
