-- ===== src/Upgrade/Preparation.antt =====
-- internal/upgrade/upgrade.go: what Upgrade prepares in front of the backup, the values files of the
-- charts, the directories and the metadata bundle, with StageMetadataBundle of
-- internal/install/install.go.
use appliance_ctl.Common.{String, ◌<>◌, ◌==◌, ℕ, Bool, not, ◌&&◌, if◌then◌else◌}
use appliance_ctl.Common.Effects.{Run, ◌>>=◌, ◌>>◌, return, fail_with}
use appliance_ctl.Common.Text.{trim_space, is_empty, is_blank, join}
use appliance_ctl.Evidence.{pass}
use appliance_ctl.HostDirs.{
  OwnedDir, appliance_dir_owner_uid, appliance_shared_fs_gid, automation_runtime_dir_owner_uid,
  blob_storage_dir, blob_storage_dir_owner_uid, inference_dir_owner_uid, inference_models_dir,
  metadata_bundles_dir, shared_writable_dir_mode, video_media_projection_dir, workspace_dir_mode,
}
use appliance_ctl.ProductConfig.Identity.{ApplianceIdentity}
use appliance_ctl.ProductConfig.Profiles.{or_else}
use appliance_ctl.State.{InstalledState}
use appliance_ctl.Upgrade.Admission.{refuse_if, target_version}
use appliance_ctl.Upgrade.Host.{
  Values, Staging, prepare_values, inject_node, own, stage_bundle, staged, Answer, System, World,
  note, or_fail, ask, deferred,
}
use appliance_ctl.Upgrade.Options.{Options, Resolved}
use appliance_ctl.Upgrade.Resolved.{database_engine}
use appliance_ctl.Upgrade.Undo.{result_of}
use appliance_ctl.Upgrade.Version.{is_supported_source}

module _ (sys : System) (opts : Options) where
  -- A call in front of the backup, whose error ends the run.
  unfoldable pub stage : String → Staging → Run World Answer
  stage context c = do a ← ask sys (staged c); or_fail context (result_of a.problem); return a

  unfoldable pub inject_if : Bool → String → Run World (Unit {0})
  inject_if test path =
      if test then stage "upgrade: " (inject_node path opts.node_name) >> return tt else return tt

  -- A values file that is removed when the run returns.
  unfoldable pub prepared :
      {A : Type 0}
      → Values
      → Bool
      → ApplianceIdentity
      → String
      → (String → Run World A)
      → Run World A
  prepared v inject i ip next = do
    a ← stage "upgrade: " (prepare_values v i ip)
    deferred sys a.text (inject_if inject a.text >> next a.text)

  -- That of a chart whose capability may be off.
  unfoldable pub prepared_if :
      {A : Type 0}
      → Bool
      → Values
      → Bool
      → ApplianceIdentity
      → String
      → (String → Run World A)
      → Run World A
  prepared_if test v inject i ip next = if test then prepared v inject i ip next else next ""

  abbrev pub dir_of : String → String → ℕ → ℕ → OwnedDir
  dir_of id path uid mode = record {
    check_id = id;
    path = path;
    uid = uid;
    gid = appliance_shared_fs_gid;
    mode = mode;
  }

  unfoldable pub own_step : String → OwnedDir → Run World (Unit {0})
  own_step name d = do
    stage ("upgrade: prepare " <> name <> " directory: ") (own d)
    note d.check_id "host" pass
        (d.path <> " owned by " <> sys.decimal d.uid <> ":" <> sys.decimal d.gid)

  unfoldable pub own_if : Bool → String → OwnedDir → Run World (Unit {0})
  own_if test name d = if test then own_step name d else return tt

  -- `metadataBundlesDir`
  unfoldable pub bundles_dir : String
  bundles_dir = or_else (trim_space opts.metadata_bundles_dir) metadata_bundles_dir

  unfoldable pub own_steps : Resolved → Run World (Unit {0})
  own_steps r = do
    own_if (r.build_enabled && not (is_empty opts.workspace_root_dir)) "workspace" (
        dir_of "workspace-directory-owned" opts.workspace_root_dir appliance_dir_owner_uid
          workspace_dir_mode)
    own_if r.inference_enabled "inference models" (
        dir_of "inference-models-directory-owned" inference_models_dir inference_dir_owner_uid
          workspace_dir_mode)
    own_step "blob storage" (
        dir_of "blob-storage-directory-owned" blob_storage_dir blob_storage_dir_owner_uid
          workspace_dir_mode)
    own_step "video media projection" (
        dir_of "video-media-projection-directory-owned" video_media_projection_dir
          appliance_dir_owner_uid shared_writable_dir_mode)
    own_step "metadata-bundles" (
        dir_of "metadata-bundles-directory-owned" bundles_dir automation_runtime_dir_owner_uid
          shared_writable_dir_mode)

  -- `install.StageMetadataBundle`, for the profile of the release.
  unfoldable pub stage_metadata_bundle : Resolved → Run World Answer
  stage_metadata_bundle r =
      if is_blank r.metadata_bundle_archive_path
      then fail_with "upgrade: stage metadata bundle: metadata bundle archive path is empty"
      else stage "upgrade: stage metadata bundle: " (
          stage_bundle (trim_space r.metadata_bundle_archive_path)
            (sys.join_path (sys.dir opts.installed_state_path) "metadata-bundles") bundles_dir
            r.effective_profile)

  -- The directories and the bundle, with the version and the digest of the bundle.
  unfoldable pub stage_host : Resolved → Run World Answer
  stage_host r = do
    own_steps r
    a ← stage_metadata_bundle r
    note "metadata-bundle-staged" "manifest" pass (
        "staged and extracted metadata bundle " <> a.text <> " (profile " <> r.effective_profile
        <> " validated)")
    return a

  -- The guards that stand behind the staging.
  unfoldable pub refuse_source : InstalledState → Resolved → Run World (Unit {0})
  refuse_source s r = do
    refuse_if
        (not (trim_space s.installed_version == target_version opts r)
          && not
              (is_supported_source s.installed_version r.compatibility.supported_upgrade_sources))
        ("upgrade: "
          <> s.installed_version
          <> " is not a supported upgrade source for target "
          <> target_version opts r
          <> " (supported: ["
          <> join " " r.compatibility.supported_upgrade_sources
          <> "])")
    refuse_if (database_engine r == "postgres")
        "upgrade: PostgreSQL recovery-set backup is not yet implemented; refusing upgrade because legacy rollback would omit the control-plane database"
