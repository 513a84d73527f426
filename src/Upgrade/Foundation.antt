-- ===== src/Upgrade/Foundation.antt =====
-- internal/upgrade/upgrade.go: the steps of Upgrade from the import of the images to the settings
-- of Traefik.
use appliance_ctl.Common.{
  String, ◌<>◌, ◌==◌, Bool, true, false, not, ◌&&◌, if◌then◌else◌, List, [], ◌∷◌, ◌++◌,
}
use appliance_ctl.Common.Effects.{Run, ◌>>=◌, ◌>>◌, return}
use appliance_ctl.Common.Text.{trim_space, is_blank, is_empty}
use appliance_ctl.Backup.{exists}
use appliance_ctl.Backup as Recovery
use appliance_ctl.Evidence.{pass}
use appliance_ctl.ProductConfig.Profiles.{
  or_else, has_capability_in_catalog, capability_plaintext_http,
}
use appliance_ctl.Upgrade.Host.{
  no_labels, restricted, Release, Change, preload, stop, start, restart, write_config, write_unit,
  install_binary, install_packages, ensure_prereqs, ensure_namespace, replicate_keys,
  inject_pull_secrets, ensure_baseline, ensure_pull_secrets, ensure_tls, label_inference_node,
  read_node_uid, configure_nvidia, wait_ready, set_external_ips, set_timeouts, Undo, drop_keys,
  drop_pull_secrets, drop_tls, changed, Answer, System, World, note, set_pending, ask,
}
use appliance_ctl.Upgrade.Options.{Options, Resolved}
use appliance_ctl.Upgrade.Resolved.{filter_oci_images}
use appliance_ctl.Upgrade.Steps.{Plan, drop_images, guarded, settled, step}
use appliance_ctl.Upgrade.Undo.{k3s_paths, snapshot_file, fail_upgrade, write_image_pull_registries}

abbrev pub registry_namespace : String
registry_namespace = "artifacts"

abbrev pub control_plane_apps_namespace : String
control_plane_apps_namespace = "ace-apps"

abbrev pub application_namespace : String
application_namespace = "apps"

-- `productconfig.ProductNamespaces`
unfoldable pub product_namespaces : String → List String
product_namespaces control_plane =
    "ace-infra"
    ∷ or_else (trim_space control_plane) "ace-system"
    ∷ control_plane_apps_namespace
    ∷ application_namespace
    ∷ registry_namespace
    ∷ "dns"
    ∷ "inference"
    ∷ "workflows"
    ∷ "appliance-builds"
    ∷ []

abbrev pub is_there : Recovery.Stat → Bool
is_there exists = true
is_there Recovery.not_exist = false
is_there (Recovery.failed e) = false

module _ (sys : System) (opts : Options) (r : Resolved) (p : Plan) (backup_dir : String) where
  -- The images of K3s and those of the product.
  unfoldable pub preload_step : Run World (List String)
  preload_step = do
    a ← ask sys (changed (preload (r.k3s_images ++ filter_oci_images r r.oci_images)))
    settled sys opts p backup_dir "upgrade: " (drop_images a.names) a
    return a.names

  -- The loop over `snapPaths`.
  unfoldable pub snapshot_steps : List String → List String → Run World (Unit {0})
  snapshot_steps imported [] = return tt
  snapshot_steps imported (path ∷ rest) = do
    guarded sys opts p backup_dir "upgrade: preserve current k3s files: " (drop_images imported)
        (snapshot_file sys path)
    snapshot_steps imported rest

  -- registries.yaml belongs to the files if it is there.
  unfoldable pub snapshot_paths : World → List String
  snapshot_paths w =
      let path = trim_space opts.k3s_registries_path in
      k3s_paths opts
      ++ (if not (is_empty path) && is_there ((sys.recovery w.calls).stat w.disk path)
          then path ∷ []
          else [])

  abbrev pub node_release : String → String → String → String → Release
  node_release name chart namespace values = record {
    name = name;
    chart_path = chart;
    namespace = namespace;
    values_path = values;
    labels = no_labels;
  }

  -- The error of a K3s step.
  unfoldable pub k3s_step : List String → String → Change → Run World (Unit {0})
  k3s_step imported name c =
      step sys opts p backup_dir c ("upgrade: " <> name <> " k3s: ") (drop_images imported)
      >> return tt

  -- `steps`
  unfoldable pub swap_k3s : List String → Run World (Unit {0})
  swap_k3s imported = do
    k3s_step imported "stop" (stop opts.k3s_unit_name)
    k3s_step imported "write config"
        (write_config opts.k3s_config_path opts.node_name opts.k3s_data_dir p.tls_sans)
    guarded sys opts p backup_dir "upgrade: write registries k3s: " (drop_images imported)
        (write_image_pull_registries sys opts)
    k3s_step imported "write unit" (write_unit opts.k3s_unit_path opts.k3s_binary_dest_path)
    k3s_step imported "install binary" (install_binary r.k3s_binary_path opts.k3s_binary_dest_path)
    k3s_step imported "start" (start opts.k3s_unit_name)

  -- Where the version of K3s changed.
  unfoldable pub replace_k3s : List String → Run World (Unit {0})
  replace_k3s imported = do
    (λ w. snapshot_steps imported (snapshot_paths w) w)
    set_pending (λ q. record q { binary = true })
    swap_k3s imported
    note "upgrade-k3s-binary" "k3s" pass (
        "k3s upgraded from " <> p.installed.components.k3s_version <> " to "
        <> r.compatibility.k3s_version)

  unfoldable pub restart_step : List String → Run World (Unit {0})
  restart_step imported =
      if is_blank opts.image_pull_registry
      then return tt
      else step sys opts p backup_dir (restart opts.k3s_unit_name)
          "upgrade: restart k3s after registries.yaml: " (drop_images imported)
        >> note "k3s-registries-restart" "k3s" pass
            "k3s restarted to load image-pull registries.yaml"

  -- Where it did not.
  unfoldable pub keep_k3s : List String → Run World (Unit {0})
  keep_k3s imported = do
    guarded sys opts p backup_dir "upgrade: " (drop_images imported)
        (write_image_pull_registries sys opts)
    restart_step imported
    note "upgrade-k3s-binary" "k3s" pass "k3s version unchanged; binary not replaced"

  unfoldable pub k3s_steps : List String → Run World (Unit {0})
  k3s_steps imported =
      if r.compatibility.k3s_version == p.installed.components.k3s_version
      then keep_k3s imported
      else replace_k3s imported

  -- The service that the packages are installed for.
  abbrev pub mdns_service : String
  mdns_service = if r.lan_discovery_enabled then "avahi-daemon.service" else ""

  unfoldable pub install_packages_step : Run World (Unit {0})
  install_packages_step = do
    a ← ask sys (changed (install_packages r.host_packages_root_dir p.facts mdns_service))
    set_pending (λ q. record q { packages = a.flag })
    settled sys opts p backup_dir "upgrade: install host packages: " [] a
    note "host-packages-installed" "host" pass (
        "installed offline host packages from " <> r.host_packages_root_dir
        <> " for foundation mDNS; Wi-Fi services remain off until enabled via host APIs")

  unfoldable pub packages_step : Run World (Unit {0})
  packages_step =
      if is_empty r.host_packages_root_dir
      then fail_upgrade sys opts backup_dir p.bundles_dir
          "upgrade: foundation mDNS requires host-packages" []
      else install_packages_step

  abbrev pub product_release : Release
  product_release =
      node_release opts.chart_release_name r.chart_path opts.chart_namespace p.product_values

  -- A step whose cleanup drops the images, behind other calls.
  unfoldable pub cluster_step : List String → Change → String → List Undo → Run World Answer
  cluster_step imported c context undos =
      step sys opts p backup_dir c context (undos ++ drop_images imported)

  unfoldable pub namespace_steps : List String → Run World Answer
  namespace_steps imported = do
    cluster_step imported (ensure_prereqs product_release) "upgrade: " []
    cluster_step imported (ensure_namespace control_plane_apps_namespace no_labels)
        ("upgrade: prepare apps namespace " <> control_plane_apps_namespace <> ": ") []
    cluster_step imported (ensure_namespace application_namespace restricted)
        ("upgrade: prepare application namespace " <> application_namespace <> ": ") []
    cluster_step imported (replicate_keys opts.chart_namespace control_plane_apps_namespace)
        "upgrade: " (drop_keys ∷ [])

  -- The loop over the values files of the other charts.
  unfoldable pub inject_steps : List String → List String → Run World (Unit {0})
  inject_steps imported [] = return tt
  inject_steps imported (path ∷ rest) =
      let later = inject_steps imported rest in
      if is_blank path
      then later
      else cluster_step imported (inject_pull_secrets path)
          ("upgrade: inject image-pull secrets into " <> path <> ": ") (drop_keys ∷ [])
        >> later

  unfoldable pub pull_secret_steps : List String → Run World (Unit {0})
  pull_secret_steps imported = do
    cluster_step imported (inject_pull_secrets p.product_values)
        "upgrade: inject image-pull secrets into values: " (drop_keys ∷ [])
    inject_steps imported (p.registry_values ∷ p.dns_values ∷ p.inference_values ∷ [])
    cluster_step imported (ensure_pull_secrets (product_namespaces opts.chart_namespace))
        "upgrade: " (drop_pull_secrets ∷ drop_keys ∷ [])
    return tt

  unfoldable pub pull_secrets_step : List String → Run World (Unit {0})
  pull_secrets_step imported =
      if is_blank opts.image_pull_registry then return tt else pull_secret_steps imported

  unfoldable pub label_step : List String → Run World (Unit {0})
  label_step imported =
      if r.inference_enabled
      then cluster_step imported (label_inference_node opts.node_name) "upgrade: " [] >> return tt
      else return tt

  unfoldable pub nvidia_steps : List String → Run World (Unit {0})
  nvidia_steps imported = do
    cluster_step imported (configure_nvidia opts.k3s_unit_name)
        "upgrade: configure NVIDIA runtime for K3s: " []
    cluster_step imported wait_ready
        "upgrade: containerd not ready after NVIDIA runtime configure: " []
    note "nvidia-k3s-runtime" "inference" pass
        "configured NVIDIA container runtime for K3s and applied RuntimeClass nvidia"

  unfoldable pub nvidia_step : List String → Run World (Unit {0})
  nvidia_step imported =
      if r.inference_enabled && sys.has_nvidia then nvidia_steps imported else return tt

  unfoldable pub traefik_steps : List String → Run World Answer
  traefik_steps imported = do
    cluster_step imported (set_external_ips (sys.literal_ipv4s opts.tls_sans)) "upgrade: " []
    cluster_step imported
        (set_timeouts
          (has_capability_in_catalog r.effective_profile capability_plaintext_http
            r.profile_catalog)
          opts.node_name)
        "upgrade: " []

  unfoldable pub tls_steps : List String → Run World Answer
  tls_steps imported = do
    cluster_step imported
        (ensure_tls opts.chart_namespace r.artifact_enabled p.identity.fqdn p.node_ipv4 p.tls_sans)
        "upgrade: " (drop_tls ∷ [])
    cluster_step imported (ensure_baseline p.product_values) "upgrade: " []

  -- The steps that prepare the cluster, with the UID of the control-plane node.
  unfoldable pub cluster_steps : List String → Run World String
  cluster_steps imported = do
    namespace_steps imported
    pull_secrets_step imported
    tls_steps imported
    label_step imported
    a ← cluster_step imported (read_node_uid opts.node_name) "upgrade: " []
    nvidia_step imported
    traefik_steps imported
    return a.text
