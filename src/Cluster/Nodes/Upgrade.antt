-- ===== src/Cluster/Nodes/Upgrade.antt =====
-- The gate that the control plane passes before it upgrades.
use appliance_ctl.Common.{
  String, ◌==◌, eq_iff, false, ◌||◌, some, List, [], ◌∷◌, ok, ◌>>=◌, All, ◌≡◌, refl, ◌↔◌, ◌⊎◌, inl,
  inr, arith, >>=-eq-ok, fail_if->>, Bool-cases, Option-cases,
}
use appliance_ctl.Common.Text.{trim_space, is_blank}
use appliance_ctl.State.{ClusterNode, node_role_control_plane}
use appliance_ctl.Cluster.Nodes.{
  Kubectl, configured, validate_inventory, check_worker, check_workers,
  validate_worker_upgrade_readiness, target_required,
}

-- A worker is a node with a name whose role is not the control plane's.
abbrev pub IsControlPlane : ClusterNode → Type 0
IsControlPlane node = (node.role ≡ node_role_control_plane) ⊎ (node.name ≡ "")

-- The node is no worker, or its kubelet reports the target.
abbrev pub Reports : Kubectl → String → ClusterNode → Type 0
Reports kubectl target node =
    IsControlPlane node
    ⊎ ((v : String) × (kubectl.get_kubelet_version node.name ≡ some v) × (trim_space v ≡ target))

check_worker_iff :
    (kubectl : Kubectl) (target : String) (node : ClusterNode)
    → (check_worker kubectl target node ≡ ok tt) ↔ Reports kubectl target node
unfolding check_worker
check_worker_iff kubectl target node =
    let role = eq_iff node.role node_role_control_plane in
    let name = eq_iff node.name "" in
    elim (Option-cases (kubectl.get_kubelet_version node.name)) [
      | inl e ↦ (
        λ h. inl (ground (arith, e, role, name)),
        λ h. elim h [ inl c ↦ ground (arith, e, role, name) | inr (v, k, t) ↦ cc (e, k) ],
      )
      | inr (v, e) ↦
          let version = eq_iff (trim_space v) target in
          (
            λ h. elim (Bool-cases (node.role == node_role_control_plane || node.name == "")) [
              | inl c ↦ inl (ground (arith, c, role, name))
              | inr w ↦ inr (v, e, ground (arith, w, e, version))
            ],
            λ h. elim h [
              | inl c ↦ ground (arith, e, role, name)
              | inr (u, k, t) ↦
                  ground (arith, e, k, t, role, name, version, eq_iff (trim_space u) target)
            ],
          )
    ]

check_workers_iff :
    (kubectl : Kubectl) (target : String) (expected : List ClusterNode)
    → (check_workers kubectl target expected ≡ ok tt) ↔ All (Reports kubectl target) expected
unfolding check_workers
check_workers_iff kubectl target [] = (λ h. tt, λ h. refl)
check_workers_iff kubectl target (node ∷ rest) = (
  λ h.
      let (_, c, h1) =
        >>=-eq-ok (check_worker kubectl target node) (λ _. check_workers kubectl target rest) h in
      ((check_worker_iff kubectl target node).0 c, (check_workers_iff kubectl target rest).0 h1),
  λ h.
      rw ((check_worker_iff kubectl target node).1 h.0)
        ((check_workers_iff kubectl target rest).1 h.1),
)

-- The control plane may upgrade exactly when a target version is given, the cluster agrees with
-- its record, and every enrolled worker reports the target.
pub validate_worker_upgrade_readiness_iff :
    (kubectl : Kubectl) (kubeconfig : String) (expected : List ClusterNode) (target : String)
    → (validate_worker_upgrade_readiness (some kubectl) kubeconfig expected target ≡ ok tt) ↔ (
        (is_blank target ≡ false)
        × (validate_inventory (some kubectl) kubeconfig expected ≡ ok tt)
        × All (Reports kubectl (trim_space target)) expected)
unfolding validate_worker_upgrade_readiness validate_inventory configured
validate_worker_upgrade_readiness_iff kubectl kubeconfig expected target =
    elim (Bool-cases (is_blank kubeconfig)) [
      | inl blank ↦ (λ h. ground (arith, blank), λ h. ground (arith, blank))
      | inr set ↦ (
        λ h.
            let (given, h1) = fail_if->> (is_blank target) target_required _ h in
            let (_, agrees, h2) =
              >>=-eq-ok (validate_inventory (some kubectl) kubeconfig expected)
                (λ _. configured (some kubectl) kubeconfig >>= λ k.
                  check_workers k (trim_space target) expected)
                h1 in
            (
              given,
              agrees,
              (check_workers_iff kubectl (trim_space target) expected).0 (ground (arith, set, h2)),
            ),
        λ h. rw (h.0, h.1, set) ((check_workers_iff kubectl (trim_space target) expected).1 h.2),
      )
    ]
