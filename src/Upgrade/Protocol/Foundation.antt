-- ===== src/Upgrade/Protocol/Foundation.antt =====
-- The steps of Upgrade/Foundation keep to the changes.
use appliance_ctl.Common.{String, ◌<>◌, ◌==◌, ◌&&◌, List, [], ◌∷◌, ◌++◌}
use appliance_ctl.Common.Text.{is_blank, is_empty}
use appliance_ctl.Upgrade.Foundation.{
  preload_step, snapshot_steps, snapshot_paths, k3s_step, swap_k3s, replace_k3s, restart_step,
  keep_k3s, k3s_steps, mdns_service, install_packages_step, packages_step, cluster_step,
  namespace_steps, inject_steps, pull_secret_steps, pull_secrets_step, label_step, nvidia_steps,
  nvidia_step, traefik_steps, tls_steps, cluster_steps,
}
use appliance_ctl.Upgrade.Host.{
  Change, preload, install_packages, inject_pull_secrets, label_inference_node, read_node_uid,
  restart, Undo, drop_keys, System,
}
use appliance_ctl.Upgrade.Options.{Options, Resolved}
use appliance_ctl.Upgrade.Protocol.Changes.{
  Keeps, ask-Changes, snapshot_file-Changes, write_image_pull_registries-Changes,
  fail_upgrade-Keeps, guarded-Keeps, settled-Keeps, step-Keeps, step_done-Keeps,
}
use appliance_ctl.Upgrade.Protocol.Holds.{
  return-Holds, note-Holds, set_pending-Holds, >>=-Holds, >>-Holds, if-Holds, look-Holds,
}
use appliance_ctl.Upgrade.Resolved.{filter_oci_images}
use appliance_ctl.Upgrade.Steps.{Plan, drop_images}

module _ (sys : System) (opts : Options) (r : Resolved) (p : Plan) (dir : String) where
  pub preload_step-Keeps : Keeps sys opts p dir (preload_step sys opts r p dir)
  unfolding preload_step
  preload_step-Keeps =
      >>=-Holds (ask-Changes sys dir (preload (r.k3s_images ++ filter_oci_images r r.oci_images)))
        λ a.
          >>-Holds (settled-Keeps sys opts p dir "upgrade: " (drop_images a.names) a)
            (return-Holds a.names)

  snapshot_steps-Keeps :
      (imported paths : List String)
      → Keeps sys opts p dir (snapshot_steps sys opts r p dir imported paths)
  unfolding snapshot_steps
  snapshot_steps-Keeps imported [] = return-Holds tt
  snapshot_steps-Keeps imported (path ∷ rest) =
      >>-Holds
        (guarded-Keeps sys opts p dir "upgrade: preserve current k3s files: " (drop_images imported)
          (snapshot_file-Changes sys dir path))
        (snapshot_steps-Keeps imported rest)

  k3s_step-Keeps :
      (imported : List String) (name : String) (c : Change)
      → Keeps sys opts p dir (k3s_step sys opts r p dir imported name c)
  unfolding k3s_step
  k3s_step-Keeps imported name c =
      step_done-Keeps sys opts p dir c ("upgrade: " <> name <> " k3s: ") (drop_images imported)

  swap_k3s-Keeps :
      (imported : List String) → Keeps sys opts p dir (swap_k3s sys opts r p dir imported)
  unfolding swap_k3s
  swap_k3s-Keeps imported = >>-Holds (k3s_step-Keeps imported "stop" _) (
      >>-Holds (k3s_step-Keeps imported "write config" _) (
        >>-Holds
          (guarded-Keeps sys opts p dir _ (drop_images imported)
            (write_image_pull_registries-Changes sys dir opts))
          (>>-Holds (k3s_step-Keeps imported "write unit" _) (
            >>-Holds (k3s_step-Keeps imported "install binary" _)
              (k3s_step-Keeps imported "start" _)))))

  replace_k3s-Keeps :
      (imported : List String) → Keeps sys opts p dir (replace_k3s sys opts r p dir imported)
  unfolding replace_k3s
  replace_k3s-Keeps imported =
      >>-Holds (look-Holds λ w. snapshot_steps-Keeps imported (snapshot_paths sys opts r p dir w))
        (>>-Holds (set_pending-Holds _) (>>-Holds (swap_k3s-Keeps imported) (note-Holds _ _ _ _)))

  restart_step-Keeps :
      (imported : List String) → Keeps sys opts p dir (restart_step sys opts r p dir imported)
  unfolding restart_step
  restart_step-Keeps imported = if-Holds (is_blank opts.image_pull_registry) (return-Holds tt) (
      >>-Holds
        (step-Keeps sys opts p dir (restart opts.k3s_unit_name)
          "upgrade: restart k3s after registries.yaml: " (drop_images imported))
        (note-Holds _ _ _ _))

  keep_k3s-Keeps :
      (imported : List String) → Keeps sys opts p dir (keep_k3s sys opts r p dir imported)
  unfolding keep_k3s
  keep_k3s-Keeps imported =
      >>-Holds
        (guarded-Keeps sys opts p dir _ (drop_images imported)
          (write_image_pull_registries-Changes sys dir opts))
        (>>-Holds (restart_step-Keeps imported) (note-Holds _ _ _ _))

  pub k3s_steps-Keeps :
      (imported : List String) → Keeps sys opts p dir (k3s_steps sys opts r p dir imported)
  unfolding k3s_steps
  k3s_steps-Keeps imported =
      if-Holds (r.compatibility.k3s_version == p.installed.components.k3s_version)
        (keep_k3s-Keeps imported) (replace_k3s-Keeps imported)

  install_packages_step-Keeps : Keeps sys opts p dir (install_packages_step sys opts r p dir)
  unfolding install_packages_step
  install_packages_step-Keeps =
      >>=-Holds
        (ask-Changes sys dir
          (install_packages r.host_packages_root_dir p.facts (mdns_service sys opts r p dir)))
        λ a. >>-Holds (set_pending-Holds _) (
          >>-Holds (settled-Keeps sys opts p dir "upgrade: install host packages: " [] a)
            (note-Holds _ _ _ _))

  pub packages_step-Keeps : Keeps sys opts p dir (packages_step sys opts r p dir)
  unfolding packages_step
  packages_step-Keeps =
      if-Holds (is_empty r.host_packages_root_dir)
        (fail_upgrade-Keeps sys opts p dir "upgrade: foundation mDNS requires host-packages" [])
        install_packages_step-Keeps

  cluster_step-Keeps :
      (imported : List String) (c : Change) (context : String) (undos : List Undo)
      → Keeps sys opts p dir (cluster_step sys opts r p dir imported c context undos)
  unfolding cluster_step
  cluster_step-Keeps imported c context undos =
      step-Keeps sys opts p dir c context (undos ++ drop_images imported)

  namespace_steps-Keeps :
      (imported : List String) → Keeps sys opts p dir (namespace_steps sys opts r p dir imported)
  unfolding namespace_steps
  namespace_steps-Keeps imported = >>-Holds (cluster_step-Keeps imported _ _ _) (
      >>-Holds (cluster_step-Keeps imported _ _ _)
        (>>-Holds (cluster_step-Keeps imported _ _ _) (cluster_step-Keeps imported _ _ _)))

  inject_steps-Keeps :
      (imported paths : List String)
      → Keeps sys opts p dir (inject_steps sys opts r p dir imported paths)
  unfolding inject_steps
  inject_steps-Keeps imported [] = return-Holds tt
  inject_steps-Keeps imported (path ∷ rest) =
      if-Holds (is_blank path) (inject_steps-Keeps imported rest) (
        >>-Holds (cluster_step-Keeps imported (inject_pull_secrets path) _ (drop_keys ∷ []))
          (inject_steps-Keeps imported rest))

  pull_secret_steps-Keeps :
      (imported : List String) → Keeps sys opts p dir (pull_secret_steps sys opts r p dir imported)
  unfolding pull_secret_steps
  pull_secret_steps-Keeps imported = >>-Holds (cluster_step-Keeps imported _ _ _) (
      >>-Holds
        (inject_steps-Keeps imported (p.registry_values ∷ p.dns_values ∷ p.inference_values ∷ []))
        (>>-Holds (cluster_step-Keeps imported _ _ _) (return-Holds tt)))

  pull_secrets_step-Keeps :
      (imported : List String) → Keeps sys opts p dir (pull_secrets_step sys opts r p dir imported)
  unfolding pull_secrets_step
  pull_secrets_step-Keeps imported =
      if-Holds (is_blank opts.image_pull_registry) (return-Holds tt)
        (pull_secret_steps-Keeps imported)

  label_step-Keeps :
      (imported : List String) → Keeps sys opts p dir (label_step sys opts r p dir imported)
  unfolding label_step
  label_step-Keeps imported =
      if-Holds r.inference_enabled
        (>>-Holds (cluster_step-Keeps imported (label_inference_node opts.node_name) "upgrade: " [])
          (return-Holds tt))
        (return-Holds tt)

  nvidia_steps-Keeps :
      (imported : List String) → Keeps sys opts p dir (nvidia_steps sys opts r p dir imported)
  unfolding nvidia_steps
  nvidia_steps-Keeps imported =
      >>-Holds (cluster_step-Keeps imported _ _ _)
        (>>-Holds (cluster_step-Keeps imported _ _ _) (note-Holds _ _ _ _))

  nvidia_step-Keeps :
      (imported : List String) → Keeps sys opts p dir (nvidia_step sys opts r p dir imported)
  unfolding nvidia_step
  nvidia_step-Keeps imported =
      if-Holds (r.inference_enabled && sys.has_nvidia) (nvidia_steps-Keeps imported)
        (return-Holds tt)

  traefik_steps-Keeps :
      (imported : List String) → Keeps sys opts p dir (traefik_steps sys opts r p dir imported)
  unfolding traefik_steps
  traefik_steps-Keeps imported =
      >>-Holds (cluster_step-Keeps imported _ _ _) (cluster_step-Keeps imported _ _ _)

  tls_steps-Keeps :
      (imported : List String) → Keeps sys opts p dir (tls_steps sys opts r p dir imported)
  unfolding tls_steps
  tls_steps-Keeps imported =
      >>-Holds (cluster_step-Keeps imported _ _ _) (cluster_step-Keeps imported _ _ _)

  pub cluster_steps-Keeps :
      (imported : List String) → Keeps sys opts p dir (cluster_steps sys opts r p dir imported)
  unfolding cluster_steps
  cluster_steps-Keeps imported = >>-Holds (namespace_steps-Keeps imported) (
      >>-Holds (pull_secrets_step-Keeps imported) (
        >>-Holds (tls_steps-Keeps imported) (
          >>-Holds (label_step-Keeps imported) (
            >>=-Holds (cluster_step-Keeps imported (read_node_uid opts.node_name) "upgrade: " [])
              λ a.
                >>-Holds (nvidia_step-Keeps imported)
                  (>>-Holds (traefik_steps-Keeps imported) (return-Holds a.text))))))
