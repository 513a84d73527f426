-- ===== src/K3s/Config/EmbeddedEtcd.antt =====
-- `EmbeddedEtcdConfig` on a valid inventory.
use appliance_ctl.Common.{
  String, ◌<>◌, ◌==◌, eq_iff, true, false, Option, none, some, List, [], ◌∷◌, contains, All, length,
  ok, ◌≡◌, ◌≢◌, refl, sym, ap, ◌∙◌, ◌⊎◌, inl, inr, arith, Bool-cases,
}
use appliance_ctl.Common.Text.{is_blank, is_blank-https, is_node_name-is_blank}
use appliance_ctl.Topology.Inventory.{
  Node, Inventory, Addr, embedded_etcd_v1, address_of, addresses, api_sans, bootstrap_api_endpoint,
}
use appliance_ctl.Topology.Inventory.Valid.{names_of, Named, IsReachable, IsValid}
use appliance_ctl.Topology.Inventory.Endpoints.{api_endpoints-perm}
use appliance_ctl.Topology.Inventory
use appliance_ctl.K3s.Config.Valid.{IsEmbedded, FitsMode, config_validate_iff}
use appliance_ctl.K3s.Config.{
  Config, effective_mode, is_ipv4, validate, derive, embedded_etcd_config, is_nil,
}

module _ (parse_addr : String → Option Addr) where
  address_of-IsReachable :
      (name : String) (nodes : List Node)
      → All (IsReachable parse_addr) nodes
      → contains name (names_of nodes) ≡ true
      → (a : Addr) × (parse_addr (address_of name nodes) ≡ some a) × (a.is4 ≡ true)
  unfolding address_of
  address_of-IsReachable name [] all h = cc
  address_of-IsReachable name (node ∷ rest) ((a, e, four, _), all) h =
      elim (Bool-cases (node.name == name)) [
        | inl here ↦ (a, rw here e, four)
        | inr there ↦ rw there (
            address_of-IsReachable name rest all
              (ground (arith, eq_iff node.name name, eq_iff name node.name)))
      ]

  address_of_ne :
      (name : String) (nodes : List Node)
      → parse_addr "" ≡ none
      → All (IsReachable parse_addr) nodes
      → contains name (names_of nodes) ≡ true
      → (address_of name nodes == "") ≡ false
  address_of_ne name nodes unparsed all h =
      let (a, e, _) = address_of-IsReachable name nodes all h in
      elim (Bool-cases (address_of name nodes == "")) [
        | inl blank ↦ cc (e, unparsed, ap parse_addr ((eq_iff _ _).0 blank))
        | inr other ↦ other
      ]

  is_ipv4-address_of :
      (name : String) (nodes : List Node)
      → All (IsReachable parse_addr) nodes
      → contains name (names_of nodes) ≡ true
      → is_ipv4 parse_addr (address_of name nodes) ≡ true
  unfolding is_ipv4
  is_ipv4-address_of name nodes all h =
      let (a, e, four) = address_of-IsReachable name nodes all h in rw (e, is_ipv4) four

  api_sans_of_IsValid :
      (inv : Inventory) → IsValid parse_addr inv → api_sans parse_addr inv ≡ addresses inv.nodes
  unfolding api_sans
  api_sans_of_IsValid inv v =
      rw ((Inventory.Valid.inventory_validate_iff parse_addr inv).1 v, api_sans)

  is_nil-addresses :
      (nodes : List Node)
      → (length nodes ≡ 1) ⊎ (length nodes ≡ 3)
      → is_nil (addresses nodes) ≡ false
  is_nil-addresses [] h = absurd (omega arith)
  is_nil-addresses (node ∷ rest) h = refl

  is_blank-bootstrap :
      (inv : Inventory)
      → IsValid parse_addr inv
      → is_blank (bootstrap_api_endpoint parse_addr inv) ≡ false
  is_blank-bootstrap inv v = rw ((api_endpoints-perm parse_addr inv v).1) (is_blank-https _)

  name_not_blank :
      (name : String) (nodes : List Node)
      → All Named nodes
      → contains name (names_of nodes) ≡ true
      → is_blank name ≡ false
  name_not_blank name [] all h = cc
  name_not_blank name (node ∷ rest) (named, all) h = elim (Bool-cases (name == node.name)) [
    | inl e ↦ rw ((eq_iff name node.name).0 e) (is_node_name-is_blank node.name named)
    | inr n ↦ name_not_blank name rest all (ground arith)
  ]

  module _ (inv : Inventory) (name data_dir token_file : String) (v : IsValid parse_addr inv)
      (listed : contains name (names_of inv.nodes) ≡ true) where
    abbrev derived : Config
    derived = derive parse_addr inv name data_dir token_file (address_of name inv.nodes)

    -- What the configuration of a server of the inventory holds: the server's own address, all
    -- addresses as SANs, and either the start of the cluster or the bootstrap server and the token.
    abbrev IsServerConfig : Config → Type 0
    IsServerConfig c =
        (c.node_ip ≡ address_of name inv.nodes)
        × (c.tls_sans ≡ addresses inv.nodes)
        × (((name ≡ inv.bootstrap_node) × (c.cluster_init ≡ true) × (c.server_url ≡ ""))
            ⊎ ((name ≢ inv.bootstrap_node)
                × (c.cluster_init ≡ false)
                × (c.server_url ≡ "https://" <> address_of inv.bootstrap_node inv.nodes <> ":6443")
                × (c.token_file ≡ token_file)))

    derived-IsServerConfig : IsServerConfig derived
    unfolding derive
    derived-IsServerConfig = (
      refl,
      api_sans_of_IsValid inv v,
      elim (Bool-cases (name == inv.bootstrap_node)) [
        | inl boot ↦ inl ((eq_iff _ _).0 boot, boot, rw boot)
        | inr peer ↦ inr (
          (λ e. cc (peer, (eq_iff name inv.bootstrap_node).1 e)),
          peer,
          rw peer (api_endpoints-perm parse_addr inv v).1,
          rw peer,
        )
      ],
    )

    derived-IsEmbedded : IsEmbedded parse_addr derived
    unfolding derive effective_mode
    derived-IsEmbedded = record {
      topology_ok = refl;
      is_server = refl;
      has_ip = is_ipv4-address_of name inv.nodes v.all_reachable listed;
      starts_or_joins = elim (Bool-cases (name == inv.bootstrap_node)) [
        | inl boot ↦ inl (boot, rw boot (unfold is_blank in refl))
        | inr peer ↦ inr (peer, rw peer (is_blank-bootstrap inv v))
      ];
      has_sans = λ e. sans_not_nil (sym (api_sans_of_IsValid inv v) ∙ e);
    }
      where
        sans_not_nil : addresses inv.nodes ≢ []
        sans_not_nil e = cc (ap is_nil e, is_nil-addresses inv.nodes v.one_or_three)

    derived-FitsMode :
        (name ≡ inv.bootstrap_node) ⊎ (is_blank token_file ≡ false) → FitsMode parse_addr derived
    unfolding derive effective_mode
    derived-FitsMode token = inl (
      refl,
      elim (Bool-cases (name == inv.bootstrap_node)) [
        | inl boot ↦ inl (rw boot (unfold is_blank in refl))
        | inr peer ↦ inr (
          peer,
          rw peer (is_blank-bootstrap inv v),
          rw peer
              (elim token [ inl e ↦ cc (peer, (eq_iff name inv.bootstrap_node).1 e) | inr t ↦ t ]),
        )
      ],
    )

    -- On a valid inventory, `EmbeddedEtcdConfig` gives each of its servers a configuration that
    -- `Validate` accepts, if the data directory is named and every server but the bootstrap node
    -- has a token file. The empty text must not parse as an address.
    pub embedded_etcd_config-ok :
        parse_addr "" ≡ none
        → is_blank data_dir ≡ false
        → (name ≡ inv.bootstrap_node) ⊎ (is_blank token_file ≡ false)
        → (c : Config) × (embedded_etcd_config parse_addr inv name data_dir token_file ≡ ok c)
          × IsServerConfig c
    unfolding embedded_etcd_config
    embedded_etcd_config-ok unparsed dir token =
        let valid : validate parse_addr derived ≡ ok tt =
          (config_validate_iff parse_addr derived).1
            (named, unfold derive in dir, inr derived-IsEmbedded, derived-FitsMode token) in
        (
          derived,
          rw (
            (Inventory.Valid.inventory_validate_iff parse_addr inv).1 v,
            address_of_ne name inv.nodes unparsed v.all_reachable listed,
            valid,
          ),
          derived-IsServerConfig,
        )
      where
        named : is_blank derived.node_name ≡ false
        named = unfold derive in name_not_blank name inv.nodes v.all_named listed
