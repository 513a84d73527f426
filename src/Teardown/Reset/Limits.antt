-- ===== src/Teardown/Reset/Limits.antt =====
-- What FactoryReset may remove, and in which order.
use appliance_ctl.Common.{
  String, Bool, true, false, not, ◌&&◌, ◌||◌, List, [], ◌∷◌, contains, ok, is_ok, ◌≡◌, ◌⊎◌,
  if◌then◌else◌, ◌==◌,
}
use appliance_ctl.Common.Effects.{Outcome}
use appliance_ctl.Common.Text.{is_empty, trim_space}
use appliance_ctl.Teardown.{
  Call, stop, remove, remove_all, cleanup_node_network, remove_kubectl_symlink, daemon_reload,
  restore_host_dns, System, World, Layout, k3s_files,
}
use appliance_ctl.Teardown.Log.{Has, Allowed}
use appliance_ctl.Teardown.Reset.{Reset, zonctl_files}

module _ (sys : System) (l : Layout) (r : Reset) where
  abbrev bundles_dir : String
  bundles_dir =
      if is_empty (trim_space r.metadata_bundles_dir)
      then "/data/zon/metadata-bundles"
      else trim_space r.metadata_bundles_dir

  abbrev database_dir : String
  database_dir = sys.clean (trim_space r.control_plane_database_dir)

  abbrev models_dir : String
  models_dir = sys.clean (trim_space r.inference_models_dir)

  abbrev workspace_root : String
  workspace_root = sys.clean (trim_space r.workspace_root_dir)

  -- An absolute path other than the root of the file system.
  abbrev is_valid : String → Bool
  is_valid dir = not (dir == ".") && not (dir == "/") && sys.is_abs dir

  -- The trees that the reset may remove: the database and the models only at a valid path, the
  -- workspaces only on request and at a valid path.
  pub data IsWiped : String → Type 0 where
    data_tree : IsWiped r.data_dir
    bundles_tree : IsWiped bundles_dir
    state_tree : IsWiped r.state_dir
    database_tree : is_valid database_dir ≡ true → IsWiped database_dir
    models_tree : is_valid models_dir ≡ true → IsWiped models_dir
    workspaces_tree :
        r.wipe_workspaces ≡ true → is_valid workspace_root ≡ true → IsWiped workspace_root

  -- The removals in front of that of zonctl itself.
  abbrev pub wipes : List Call
  wipes = remove_all r.state_dir ∷ remove_all bundles_dir ∷ remove_all r.data_dir ∷ []

  -- The rule on the next call.
  abbrev pub Permitted : List Call → Call → Type 0
  Permitted past (stop unit) = unit ≡ l.unit_name
  Permitted past (remove p) =
      (contains p (k3s_files sys l) ≡ true)
      ⊎ ((contains p (zonctl_files sys r.zonctl_real_path r.zonctl_launcher_path) ≡ true)
          × Has wipes past)
  Permitted past (remove_all p) = IsWiped p
  Permitted past (cleanup_node_network dir names) =
      (dir ≡ l.cni_network_dir) × (names ≡ l.cni_interface_names)
  Permitted past (remove_kubectl_symlink binary link) =
      (binary ≡ l.binary_path) × (link ≡ l.kubectl_symlink_path)
  Permitted past daemon_reload = Unit
  Permitted past restore_host_dns = sys.has_dns_hook ≡ true

  -- The operator has a verified backup or accepts the loss, and asks for no invalid workspace root.
  abbrev pub is_permitted : Bool
  is_permitted =
      (r.recent_backup_verified || r.data_loss_override)
      && (not r.wipe_workspaces || is_valid workspace_root)

  abbrev pub IsLimited : Outcome World (Unit {0}) → Type 0
  IsLimited o =
      ((is_permitted ≡ false) × (o.world.calls ≡ []) × (is_ok o.result ≡ false))
      ⊎ ((is_permitted ≡ true)
          × Allowed Permitted o.world.calls
          × (o.result ≡ ok tt → Has wipes o.world.calls))
