-- ===== src/Teardown/Kept.antt =====
-- What Uninstall keeps.
use appliance_ctl.Common.{String, List, [], ◌∷◌, contains, true, ◌≡◌}
use appliance_ctl.Teardown.{
  Call, stop, remove, remove_all, cleanup_node_network, remove_kubectl_symlink, daemon_reload,
  restore_host_dns, System, World, Layout, k3s_files,
}

abbrev pub new_run : World
new_run = record { calls = []; checks = [] }

-- What Uninstall may do: no tree is removed, and no file but those of K3s and the receipt; the
-- network state and the kubectl link of K3s go by the paths of the layout.
abbrev pub Harmless : System → Layout → String → List Call → Call → Type 0
Harmless sys l receipt past (stop unit) = unit ≡ l.unit_name
Harmless sys l receipt past (remove p) = contains p (receipt ∷ k3s_files sys l) ≡ true
Harmless sys l receipt past (remove_all p) = ⊥
Harmless sys l receipt past (cleanup_node_network dir names) =
    (dir ≡ l.cni_network_dir) × (names ≡ l.cni_interface_names)
Harmless sys l receipt past (remove_kubectl_symlink binary link) =
    (binary ≡ l.binary_path) × (link ≡ l.kubectl_symlink_path)
Harmless sys l receipt past daemon_reload = Unit
Harmless sys l receipt past restore_host_dns = sys.has_dns_hook ≡ true
