-- ===== src/Upgrade/Transaction/Finish.antt =====
-- internal/upgrade/upgrade.go: what becomes of the cluster's record at the end of Upgrade.
use mathlib.Core.Path.{subst}
use appliance_ctl.Common.{
  String, ◌<>◌, Bool, true, false, if◌then◌else◌, ok, Option, none, some, List, [], ◌∷◌, ◌++◌, All,
  err, ◌≡◌, refl, ap, ◌∙◌, inl, inr, Bool-cases,
}
use appliance_ctl.Common.Effects.{Outcome, Run, ◌>>◌, return, fail_with, continue}
use appliance_ctl.Common.Text.{is_empty}
use appliance_ctl.State.{ClusterNode, Cluster, new_single_server_cluster, InstalledState}
use appliance_ctl.Upgrade.Host.{System, World, ask, saved, remove_zonctl}
use appliance_ctl.Upgrade.Charts.{undo_product}
use appliance_ctl.Upgrade.Undo.{
  undo_all, rollback, result_of, fail_upgrade, preserved_note, rolled_back_note,
}
use appliance_ctl.Upgrade.Undo.Restarts.{Anything, anything_kept, returns, rollback-Restarts}
use appliance_ctl.Upgrade.Protocol.Retreat.{undo_all-Holds}
use appliance_ctl.Upgrade.Options.{Options, Resolved}
use appliance_ctl.Upgrade.Receipt.{
  recorded_cluster, cluster_or_migrated, is_control_plane, behind, set_node_uid, updated_state,
}
use appliance_ctl.Upgrade.Steps.{Plan, guard}
use appliance_ctl.Upgrade.Transaction.{no_control_plane, record_state, save_step, finish}

-- None of the nodes is a control plane of that name.
abbrev pub HasNone : String → List ClusterNode → Type 0
HasNone name = All (λ n. is_control_plane name n ≡ false)

-- Only the UID of the first control plane of that name is another.
pub record Refreshed (name uid : String) (old new : List ClusterNode) : Type 0 where
  pub before : List ClusterNode
  pub node : ClusterNode
  pub after : List ClusterNode
  pub first : HasNone name before
  pub matches : is_control_plane name node ≡ true
  pub was : old ≡ before ++ (node ∷ after)
  pub is : new ≡ before ++ (record node { node_uid = uid } ∷ after)

abbrev pub SetsUid : String → String → List ClusterNode → Option (List ClusterNode) → Type 0
SetsUid name uid old none = HasNone name old
SetsUid name uid old (some new) = Refreshed name uid old new

behind-SetsUid :
    (name uid : String) (n : ClusterNode) (rest : List ClusterNode)
    (later : Option (List ClusterNode))
    → is_control_plane name n ≡ false
    → SetsUid name uid rest later
    → SetsUid name uid (n ∷ rest) (behind n later)
behind-SetsUid name uid n rest none other h = (other, h)
behind-SetsUid name uid n rest (some new) other h = record {
  before = n ∷ h.before;
  node = h.node;
  after = h.after;
  first = (other, h.first);
  matches = h.matches;
  was = ap (λ ns. n ∷ ns) h.was;
  is = ap (λ ns. n ∷ ns) h.is;
}

set_node_uid-SetsUid :
    (name uid : String) (nodes : List ClusterNode)
    → SetsUid name uid nodes (set_node_uid name uid nodes)
unfolding set_node_uid
set_node_uid-SetsUid name uid [] = tt
set_node_uid-SetsUid name uid (n ∷ rest) =
    let ih = set_node_uid-SetsUid name uid rest in
    elim (Bool-cases (is_control_plane name n)) [
      | inl h ↦ rw h (record {
        before = [];
        node = n;
        after = rest;
        first = tt;
        matches = h;
        was = refl;
        is = refl;
      })
      | inr h ↦ rw h (behind-SetsUid name uid n rest (set_node_uid name uid rest) h ih)
    ]

-- The cluster's record, or that of the single server where there is none.
abbrev pub starting_cluster : InstalledState → String → Option Cluster → Cluster
starting_cluster s node none =
    new_single_server_cluster s.appliance_instance_id node "10.44.0.0/16" "10.43.0.0/16"
starting_cluster s node (some c) =
    if is_empty c.id
    then new_single_server_cluster s.appliance_instance_id node "10.44.0.0/16" "10.43.0.0/16"
    else c

recorded_cluster-starting :
    (s : InstalledState) (node : String)
    → recorded_cluster s node ≡ starting_cluster s node s.cluster
unfolding recorded_cluster
recorded_cluster-starting s node = by_record s.cluster
  where
    by_record : (c : Option Cluster) → cluster_or_migrated s node c ≡ starting_cluster s node c
    by_record none = refl
    by_record (some c) = refl

module _ (sys : System) (opts : Options) (r : Resolved) (p : Plan) (backup_dir : String) where
  -- The state that is saved: the appliance and its first installation are the same, the release is
  -- the target, and only the nodes of the cluster are others.
  pub record IsUpgraded (nodes : List ClusterNode) (s : InstalledState) : Type 0 where
    pub cluster :
        s.cluster
        ≡ some (record (starting_cluster p.installed opts.node_name p.installed.cluster) {
          nodes = nodes;
        })
    pub instance_id : s.appliance_instance_id ≡ p.installed.appliance_instance_id
    pub version : s.installed_version ≡ p.target_version
    pub release : s.installed_release_id ≡ r.release_id
    pub profile : s.appliance_profile ≡ r.effective_profile
    pub name : s.appliance_name ≡ p.identity.name
    pub zone : s.dns_zone ≡ p.identity.zone
    pub k3s : s.components.k3s_version ≡ r.compatibility.k3s_version
    pub chart : s.components.chart_version ≡ r.compatibility.chart_version
    pub metadata :
        (s.components.metadata_version ≡ p.metadata_version)
        × (s.components.metadata_digest ≡ p.metadata_digest)
    pub owner :
        (s.k3s_ownership.owned ≡ true)
        × (s.k3s_ownership.owner_appliance_version ≡ p.target_version)
    pub operation :
        (s.last_operation.type ≡ "upgrade")
        × (s.last_operation.status ≡ "completed")
        × (s.last_operation.source_version ≡ p.installed.installed_version)
        × (s.last_operation.target_version ≡ p.target_version)
    pub created : s.created_at ≡ p.installed.created_at
    pub updated : s.updated_at ≡ sys.now

  -- The host behind the call of state.Save.
  abbrev asked : InstalledState → World → World
  asked s w = (ask sys (saved opts.installed_state_path s) w).world

  -- What is taken back if that failed.
  abbrev unsaved : List String → Run World (Unit {0})
  unsaved imported =
      undo_all sys (remove_zonctl ∷ undo_product sys opts r p backup_dir imported)
      >> rollback sys opts backup_dir p.bundles_dir

  abbrev Fails :
      List String → Bool → String → InstalledState → World → Outcome World InstalledState → Type 0
  Fails imported true e s w o =
      o ≡ record { world = asked s w; result = err (("upgrade: " <> e) <> preserved_note) }
  Fails imported false e s w o = o ≡ record {
    world = (unsaved imported (asked s w)).world;
    result = err (("upgrade: " <> e) <> rolled_back_note);
  }

  -- By the answer of state.Save.
  abbrev Saves :
      List String → Option String → InstalledState → World → Outcome World InstalledState → Type 0
  Saves imported none s w o = o ≡ record { world = asked s w; result = ok s }
  Saves imported (some e) s w o = Fails imported opts.preserve_failed_state e s w o

  failed-then :
      (m : Run World (Unit {0})) (e : String) (s : InstalledState) (w : World)
      → (m w).result ≡ ok tt
      → ((m >> fail_with {A = Unit {0}} e) >> return s) w
        ≡ record { world = (m w).world; result = err e }
  failed-then m e s w h =
      ap
        (λ answer.
          let o = continue {B = Unit {0}} (m w).world answer (λ done. fail_with e) in
          continue o.world o.result (λ done. return s))
        h

  unsaved-ok : (imported : List String) (w : World) → (unsaved imported w).result ≡ ok tt
  unsaved-ok imported w =
      let undos = remove_zonctl ∷ undo_product sys opts r p backup_dir imported in
      let undone = undo_all sys undos w in
      let (done, h) = returns sys opts backup_dir p.bundles_dir (undo_all sys undos) w (
        undo_all-Holds sys (Anything sys opts backup_dir p.bundles_dir)
          (anything_kept sys opts backup_dir p.bundles_dir) undos) in
      ap
        (λ answer.
          (continue undone.world answer (λ d. rollback sys opts backup_dir p.bundles_dir)).result)
        h
      ∙ (rollback-Restarts sys opts backup_dir p.bundles_dir undone.world).0

  fail_upgrade-Fails :
      (imported : List String) (preserve : Bool) (e : String) (s : InstalledState) (w : World)
      → Fails imported preserve e s w (
          ((if preserve
                then fail_with {A = Unit {0}} (("upgrade: " <> e) <> preserved_note)
                else unsaved imported
                  >> fail_with {A = Unit {0}} (("upgrade: " <> e) <> rolled_back_note))
              >> return s)
            (asked s w))
  fail_upgrade-Fails imported true e s w = refl
  fail_upgrade-Fails imported false e s w =
      failed-then (unsaved imported) (("upgrade: " <> e) <> rolled_back_note) s (asked s w)
        (unsaved-ok imported (asked s w))

  guard-Saves :
      (imported : List String) (problem : Option String) (s : InstalledState) (w : World)
      → Saves imported problem s w (
          (guard sys opts p backup_dir "upgrade: "
                (remove_zonctl ∷ undo_product sys opts r p backup_dir imported)
                (result_of problem)
              >> return s)
            (asked s w))
  unfolding guard fail_upgrade
  guard-Saves imported none s w = refl
  guard-Saves imported (some e) s w = fail_upgrade-Fails imported opts.preserve_failed_state e s w

  -- How `finish` goes on, by what the loop over the nodes found.
  abbrev pub Finishes :
      List String
      → String
      → World
      → Option (List ClusterNode)
      → Outcome World InstalledState
      → Type 0
  Finishes imported uid w none o =
      HasNone opts.node_name (starting_cluster p.installed opts.node_name p.installed.cluster).nodes
      × (o ≡ record { world = w; result = err (no_control_plane (sys.quote opts.node_name)) })
  Finishes imported uid w (some nodes) o =
      Refreshed opts.node_name uid
        (starting_cluster p.installed opts.node_name p.installed.cluster).nodes nodes
      × ((s : InstalledState) × IsUpgraded nodes s
          × Saves imported (sys.answer w.calls (saved opts.installed_state_path s)).problem s w o)

  updated_state-IsUpgraded :
      (nodes : List ClusterNode)
      → IsUpgraded nodes (
          updated_state opts r p sys.now
            (record (recorded_cluster p.installed opts.node_name) { nodes = nodes }))
  unfolding updated_state
  updated_state-IsUpgraded nodes = record {
    cluster =
        ap (λ (c : Cluster). some (record c { nodes = nodes }))
          (recorded_cluster-starting p.installed opts.node_name);
    instance_id = refl;
    version = refl;
    release = refl;
    profile = refl;
    name = refl;
    zone = refl;
    k3s = refl;
    chart = refl;
    metadata = (refl, refl);
    owner = (refl, refl);
    operation = (refl, refl, refl, refl);
    created = refl;
    updated = refl;
  }

  record_state-Finishes :
      (imported : List String) (uid : String) (w : World) (nodes : Option (List ClusterNode))
      → SetsUid opts.node_name uid
          (starting_cluster p.installed opts.node_name p.installed.cluster).nodes
          nodes
      → Finishes imported uid w nodes (record_state sys opts r p backup_dir imported nodes w)
  unfolding record_state save_step ask guard
  record_state-Finishes imported uid w none h = (h, refl)
  record_state-Finishes imported uid w (some nodes) h =
      let s =
        updated_state opts r p sys.now
          (record (recorded_cluster p.installed opts.node_name) { nodes = nodes }) in
      (h, (s, updated_state-IsUpgraded nodes, guard-Saves imported _ s w))

  -- The end of Upgrade saves a state in which the appliance and its first installation are the same,
  -- the release is the target, and of the cluster only the UID of the first control plane of that
  -- name is another. If state.Save returned nil, Upgrade returns that state behind no other call;
  -- if not, it keeps the failed state on request, and else takes zonctl and the product back and
  -- rolls back. Without such a node it returns an error and makes no call, so that nothing is
  -- rolled back.
  pub finish-Finishes :
      (imported : List String) (uid : String) (w : World)
      → (nodes : Option (List ClusterNode)) × Finishes imported uid w nodes
          (finish sys opts r p backup_dir imported uid w)
  unfolding finish
  finish-Finishes imported uid w =
      let found = λ (c : Cluster). set_node_uid opts.node_name uid c.nodes in
      let recorded = recorded_cluster p.installed opts.node_name in
      (
        found recorded,
        record_state-Finishes imported uid w (found recorded) (
            subst (λ (c : Cluster). SetsUid opts.node_name uid c.nodes (found recorded))
              (recorded_cluster-starting p.installed opts.node_name)
              (set_node_uid-SetsUid opts.node_name uid recorded.nodes)),
      )
