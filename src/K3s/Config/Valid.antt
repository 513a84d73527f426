-- ===== src/K3s/Config/Valid.antt =====
-- What `Config.Validate` accepts.
use appliance_ctl.Common.{
  String, ◌==◌, eq_iff, true, false, Option, [], ◌≡◌, ◌≢◌, ◌↔◌, ◌⊎◌, inl, inr, arith, ok,
  fail_if->>, >>=-eq-ok, Bool-cases, if◌then◌else◌,
}
use appliance_ctl.Common.Text.{is_blank}
use appliance_ctl.Topology.Inventory.{Addr, embedded_etcd_v1}
use appliance_ctl.K3s.Config.{
  node_name_required, data_dir_required, Config, effective_mode, node_mode_server, node_mode_agent,
  is_ipv4, check_topology, check_mode, validate,
}

server_not_agent : ◌≢◌ {A = String} node_mode_server node_mode_agent
server_not_agent = ground (arith, eq_iff node_mode_server node_mode_agent)

module _ (parse_addr : String → Option Addr) (c : Config) where
  -- A server of the embedded-etcd topology: it has an IPv4 address and SANs, and it starts the
  -- cluster or joins one, not both.
  pub record IsEmbedded : Type 0 where
    pub topology_ok : c.deployment_topology ≡ embedded_etcd_v1
    pub is_server : effective_mode c ≡ node_mode_server
    pub has_ip : is_ipv4 parse_addr c.node_ip ≡ true
    pub starts_or_joins :
        ((c.cluster_init ≡ true) × (is_blank c.server_url ≡ true))
        ⊎ ((c.cluster_init ≡ false) × (is_blank c.server_url ≡ false))
    pub has_sans : c.tls_sans ≢ []

  -- A host that joins names the server and the token; the one that starts the cluster joins none.
  abbrev pub Joins : Type 0
  Joins =
      (c.cluster_init ≡ false) × (is_blank c.server_url ≡ false) × (is_blank c.token_file ≡ false)

  abbrev pub FitsMode : Type 0
  FitsMode =
      ((effective_mode c ≡ node_mode_server) × ((is_blank c.server_url ≡ true) ⊎ Joins))
      ⊎ ((effective_mode c ≡ node_mode_agent) × Joins)

  check_topology_iff : (check_topology parse_addr c ≡ ok tt) ↔ IsEmbedded
  unfolding check_topology
  check_topology_iff = (
    λ h. ground (
      arith,
      eq_iff c.deployment_topology embedded_etcd_v1,
      eq_iff (effective_mode c) node_mode_server,
    ),
    λ h. ground (
      arith,
      eq_iff c.deployment_topology embedded_etcd_v1,
      eq_iff (effective_mode c) node_mode_server,
    ),
  )

  check_mode_iff : (check_mode c ≡ ok tt) ↔ FitsMode
  unfolding check_mode
  check_mode_iff = (
    λ h. ground (
      arith,
      eq_iff (effective_mode c) node_mode_server,
      eq_iff (effective_mode c) node_mode_agent,
    ),
    λ h. ground (
      arith,
      eq_iff (effective_mode c) node_mode_server,
      eq_iff (effective_mode c) node_mode_agent,
      server_not_agent,
    ),
  )

  topology_part :
      (if c.deployment_topology == "" then ok tt else check_topology parse_addr c) ≡ ok tt
      → (c.deployment_topology ≡ "") ⊎ IsEmbedded
  topology_part h = elim (Bool-cases (c.deployment_topology == "")) [
    | inl empty ↦ inl ((eq_iff _ _).0 empty)
    | inr other ↦ inr (check_topology_iff.0 (rw other at h))
  ]

  topology_part_of :
      (c.deployment_topology ≡ "") ⊎ IsEmbedded
      → (if c.deployment_topology == "" then ok tt else check_topology parse_addr c) ≡ ok tt
  topology_part_of h = elim (Bool-cases (c.deployment_topology == "")) [
    | inl empty ↦ rw empty
    | inr other ↦ rw other (elim h [
      | inl empty ↦ cc (other, (eq_iff c.deployment_topology "").1 empty)
      | inr embedded ↦ check_topology_iff.1 embedded
    ])
  ]

  -- `Validate` accepts a configuration exactly when it names the node and the data directory, is
  -- consistent with its deployment topology where it has one, and is either a server, which names
  -- no other server or joins one with a token, or an agent, which joins one with a token.
  pub config_validate_iff : (validate parse_addr c ≡ ok tt) ↔ (
      (is_blank c.node_name ≡ false)
      × (is_blank c.data_dir ≡ false)
      × ((c.deployment_topology ≡ "") ⊎ IsEmbedded)
      × FitsMode)
  unfolding validate
  config_validate_iff =
      let m = check_mode_iff in
      (
        λ h.
            let (name, h1) = fail_if->> (is_blank c.node_name) node_name_required _ h in
            let (dir, h2) = fail_if->> (is_blank c.data_dir) data_dir_required _ h1 in
            let (_, top, mode) =
              >>=-eq-ok (if c.deployment_topology == "" then ok tt else check_topology parse_addr c)
                (λ _. check_mode c) h2 in
            (name, dir, topology_part top, m.0 mode),
        λ h. rw (h.0, h.1, topology_part_of h.2) (m.1 h.3),
      )
