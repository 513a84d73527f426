-- ===== src/Cluster/Nodes/Agreement.antt =====
-- When the enrolled inventory and the live cluster agree.
use appliance_ctl.Common.{
  String, eq_iff, true, false, ◌||◌, some, List, [], ◌∷◌, map, ok, ◌>>=◌, ◌>>◌, fail_if, contains,
  All, ◌≡◌, ◌≢◌, refl, ap, ◌∙◌, ◌↔◌, inl, inr, arith, >>=-eq-ok, fail_if->>, Option-cases,
}
use mathlib.Core.Path.{subst}
use appliance_ctl.Common.Text.{trim_space, is_blank}
use appliance_ctl.State.{ClusterNode}
use appliance_ctl.Cluster.Nodes.{
  ObservedNode, Kubectl, Reply, failed, undecodable, items, decode, recorded, is_ready,
  observed_name, check_observed, check_all, check_present, is_nil, configured, validate_inventory,
  empty_inventory,
}

-- The observed node is enrolled under its UID and Ready.
pub record IsEnrolled (expected : List ClusterNode) (o : ObservedNode) : Type 0 where
  pub named : (observed_name o ≡ "") → ⊥
  pub has_uid : (trim_space o.uid ≡ "") → ⊥
  pub node : ClusterNode
  pub is_recorded : recorded (observed_name o) expected ≡ some node
  pub uid_kept : is_blank node.node_uid ≡ false
  pub same_uid : node.node_uid ≡ trim_space o.uid
  pub ready : is_ready o.conditions ≡ true

names_of : List ObservedNode → List String → List String
names_of [] seen = seen
names_of (o ∷ rest) seen = names_of rest (observed_name o ∷ seen)

check_observed-ok :
    (expected : List ClusterNode) (o : ObservedNode) {name : String}
    → check_observed expected o ≡ ok name
    → IsEnrolled expected o × (observed_name o ≡ name)
unfolding check_observed
check_observed-ok expected o h = elim (Option-cases (recorded (observed_name o) expected)) [
  | inl e ↦ ground (arith, e)
  | inr (node, e) ↦ (
    record {
      named = ground (arith, e, eq_iff (observed_name o) "");
      has_uid = ground (arith, e, eq_iff (trim_space o.uid) "");
      node = node;
      is_recorded = e;
      uid_kept = ground (arith, e);
      same_uid = ground (arith, e, eq_iff node.node_uid (trim_space o.uid));
      ready = ground (arith, e);
    },
    ground (arith, e),
  )
]

check_observed_of_IsEnrolled :
    (expected : List ClusterNode) (o : ObservedNode)
    → IsEnrolled expected o
    → check_observed expected o ≡ ok (observed_name o)
unfolding check_observed
check_observed_of_IsEnrolled expected o e = ground (
  arith,
  e.is_recorded,
  eq_iff (observed_name o) "",
  eq_iff (trim_space o.uid) "",
  eq_iff e.node.node_uid (trim_space o.uid),
)

check_all_iff :
    (expected : List ClusterNode) (nodes : List ObservedNode) (seen found : List String)
    → (check_all expected nodes seen ≡ ok found)
      ↔ (All (IsEnrolled expected) nodes × (names_of nodes seen ≡ found))
unfolding check_all names_of
check_all_iff expected [] seen found = (λ h. (tt, ground arith), λ h. ground arith)
check_all_iff expected (o ∷ rest) seen found = (
  λ h.
      let (name, c, h1) =
        >>=-eq-ok (check_observed expected o) (λ name. check_all expected rest (name ∷ seen)) h in
      let (enrolled, same) = check_observed-ok expected o c in
      let (all, names) = (check_all_iff expected rest (name ∷ seen) found).0 h1 in
      ((enrolled, all), ap (λ n. names_of rest (n ∷ seen)) same ∙ names),
  λ h.
      rw (check_observed_of_IsEnrolled expected o h.0.0)
        ((check_all_iff expected rest (observed_name o ∷ seen) found).1 (h.0.1, h.1)),
)

contains-names_of :
    (x : String) (nodes : List ObservedNode) (seen : List String)
    → contains x (names_of nodes seen) ≡ (contains x (map observed_name nodes) || contains x seen)
unfolding names_of
contains-names_of x [] seen = refl
contains-names_of x (o ∷ rest) seen =
    ground (arith, contains-names_of x rest (observed_name o ∷ seen))

Present : List String → ClusterNode → Type 0
Present seen node = contains node.name seen ≡ true

check_present_iff :
    (expected : List ClusterNode) (nodes : List ObservedNode)
    → (check_present expected (names_of nodes []) ≡ ok tt)
      ↔ All (λ node. contains node.name (map observed_name nodes) ≡ true) expected
unfolding check_present
check_present_iff [] nodes = (λ h. tt, λ h. refl)
check_present_iff (node ∷ rest) nodes =
    let c = contains-names_of node.name nodes [] in
    (
      λ h. (ground (arith, c), (check_present_iff rest nodes).0 (ground (arith, c))),
      λ h. ground (arith, c, (check_present_iff rest nodes).1 h.1),
    )

-- The cluster record is not empty, every observed node is enrolled under its UID and Ready, and
-- every enrolled node is observed.
pub record Agrees (expected : List ClusterNode) (nodes : List ObservedNode) : Type 0 where
  pub not_empty : expected ≢ []
  pub all_enrolled : All (IsEnrolled expected) nodes
  pub all_present : All (λ node. contains node.name (map observed_name nodes) ≡ true) expected

module _ (kubectl : Kubectl) (kubeconfig : String) (expected : List ClusterNode) where
  check-Agrees :
      (nodes : List ObservedNode)
      → ((do
        fail_if (is_nil expected) empty_inventory
        seen ← check_all expected nodes []
        check_present expected seen)
          ≡ ok tt)
        ↔ Agrees expected nodes
  check-Agrees nodes = (
    λ h.
        let (filled, h1) = fail_if->> (is_nil expected) empty_inventory _ h in
        let (seen, c, h2) = >>=-eq-ok (check_all expected nodes []) (check_present expected) h1 in
        let (all, names) = (check_all_iff expected nodes [] seen).0 c in
        record {
          not_empty = λ e. cc (filled, ap is_nil e);
          all_enrolled = all;
          all_present =
              (check_present_iff expected nodes).0 (ap (check_present expected) names ∙ h2);
        },
    λ a.
        rw (not_nil a.not_empty, (check_all_iff expected nodes [] _).1 (a.all_enrolled, refl))
          ((check_present_iff expected nodes).1 a.all_present),
  )
    where
      not_nil : expected ≢ [] → is_nil expected ≡ false
      not_nil h = ground arith

  -- With a runner and a kubeconfig, the inventory is healthy exactly when the nodes could be
  -- listed and agree with the cluster record.
  pub validate_inventory_iff :
      is_blank kubeconfig ≡ false
      → (validate_inventory (some kubectl) kubeconfig expected ≡ ok tt)
        ↔ ((nodes : List ObservedNode) × (kubectl.get_nodes ≡ items nodes) × Agrees expected nodes)
  unfolding validate_inventory configured decode
  validate_inventory_iff present = rw present (go kubectl.get_nodes)
    where
      go :
          (reply : Reply)
          → ((do
            nodes ← decode reply
            fail_if (is_nil expected) empty_inventory
            seen ← check_all expected nodes []
            check_present expected seen)
              ≡ ok tt)
            ↔ ((nodes : List ObservedNode) × (reply ≡ items nodes) × Agrees expected nodes)
      go failed = (λ h. cc, λ h. cc (h.1))
      go undecodable = (λ h. cc, λ h. cc (h.1))
      go (items nodes) = (
        λ h. (nodes, refl, (check-Agrees nodes).0 h),
        λ h.
            let same : h.0 ≡ nodes = cc (h.1) in
            (check-Agrees nodes).1 (subst (Agrees expected) same h.2),
      )
