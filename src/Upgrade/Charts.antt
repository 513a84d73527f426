-- ===== src/Upgrade/Charts.antt =====
-- internal/upgrade/upgrade.go: the steps of Upgrade from the message broker to the installation of
-- zonctl.
use appliance_ctl.Common.{
  String, ◌<>◌, Bool, true, not, ◌&&◌, if◌then◌else◌, Option, none, some, List, [], ◌∷◌,
}
use appliance_ctl.Common.Effects.{Run, ◌>>=◌, ◌>>◌, return}
use appliance_ctl.Common.Text.{trim_space, is_blank, is_empty}
use appliance_ctl.Evidence.{pass}
use appliance_ctl.HostDirs.{OwnedDir, Included, service_log_dirs, service_log_files}
use appliance_ctl.ProductConfig.Profiles.{or_else}
use appliance_ctl.Upgrade.Foundation.{
  registry_namespace, node_release, product_release, product_namespaces,
}
use appliance_ctl.Upgrade.Host.{
  restricted, privileged, Release, Change, install_release, diagnose, remove_release,
  replicate_registry_key, own_dir, own_file, install_agent, enable_mdns, disable_mdns, prepare_dns,
  quiesce, apply_crd, ensure_pull_secrets, install_zonctl, Undo, drop_prereqs, drop_registry_key,
  uninstall_release, roll_back_release, changed, Answer, System, World, note, set_pending, ask,
}
use appliance_ctl.Upgrade.Options.{Options, Resolved}
use appliance_ctl.Upgrade.Steps.{Plan, drop_images, settled, step}

module _ (sys : System) (opts : Options) (r : Resolved) (p : Plan) (backup_dir : String) where
  -- A step whose cleanup is `rollback` alone.
  unfoldable pub plain_step : Change → String → Run World Answer
  plain_step c context = step sys opts p backup_dir c context []

  unfoldable pub broker_step : Run World (Unit {0})
  broker_step =
      if is_empty r.message_broker_chart_path
      then return tt
      else plain_step
          (install_release (
            node_release sys opts r p backup_dir "message-broker" r.message_broker_chart_path
              "ace-system" ""))
          "upgrade: message broker: "
        >> return tt

  unfoldable pub remove_workflows_step : Run World (Unit {0})
  remove_workflows_step =
      if p.had_workflows && not r.workflows_enabled
      then plain_step (remove_release "appliance-workflows")
          "upgrade: remove workflows capability: "
        >> return tt
      else return tt

  abbrev pub included_logs : Included
  included_logs = record {
    artifact = r.artifact_enabled;
    workflows = r.workflows_enabled;
    dns = r.dns_enabled;
    inference = r.inference_enabled;
    host = r.host_enabled;
  }

  abbrev pub owned_text : OwnedDir → String
  owned_text d = d.path <> " owned by " <> sys.decimal d.uid <> ":" <> sys.decimal d.gid

  -- The loop over the log directories.
  unfoldable pub log_dir_steps : List OwnedDir → Run World (Unit {0})
  log_dir_steps [] = return tt
  log_dir_steps (d ∷ rest) = do
    plain_step (own_dir d) ("upgrade: prepare service log directory " <> d.path <> ": ")
    note d.check_id "host" pass (owned_text d)
    log_dir_steps rest

  -- The loop over the log files.
  unfoldable pub log_file_steps : List OwnedDir → Run World (Unit {0})
  log_file_steps [] = return tt
  log_file_steps (f ∷ rest) = do
    plain_step (own_file f) ("upgrade: prepare service log file " <> f.path <> ": ")
    note f.check_id "host" pass (owned_text f <> " mode " <> sys.octal f.mode)
    log_file_steps rest

  unfoldable pub install_agent_step : Run World (Unit {0})
  install_agent_step = do
    a ← ask sys (changed install_agent)
    set_pending (λ q. record q { agent = a.flag })
    settled sys opts p backup_dir "upgrade: install host agent: " [] a
    note "host-agent-installed" "host" pass (
        "host agent installed at " <> opts.host_agent_binary_dest_path <> " and running via "
        <> opts.host_agent_unit_name)

  unfoldable pub mdns_step : Run World (Unit {0})
  mdns_step =
      if r.lan_discovery_enabled
      then plain_step (enable_mdns opts.host_agent_socket_path p.identity.name)
          "upgrade: enable lan-discovery mDNS: "
        >> note "host-mdns-enabled" "host" pass "lan-discovery mDNS enabled for appliance discovery"
      else plain_step (disable_mdns opts.host_agent_socket_path)
          "upgrade: disable lan-discovery mDNS: "
        >> note "host-mdns-disabled" "host" pass
            "lan-discovery capability is not enabled; host mDNS disabled"

  -- What takes back the release of a capability: a first installation is removed.
  abbrev pub undo_release : Bool → String → Undo
  undo_release had name = if had then roll_back_release name else uninstall_release name

  -- `helm.CollectFailureDiagnostics` behind a release that failed.
  unfoldable pub diagnosed : Release → Option String → Run World (Unit {0})
  diagnosed release none = return tt
  diagnosed release (some e) = ask sys (changed (diagnose release)) >> return tt

  unfoldable pub release_step : Release → List Undo → Run World Answer
  release_step release undos = do
    a ← ask sys (changed (install_release release))
    diagnosed release a.problem
    settled sys opts p backup_dir "upgrade: " undos a

  unfoldable pub registry_steps : Run World (Unit {0})
  registry_steps = do
    plain_step (replicate_registry_key opts.chart_namespace registry_namespace) "upgrade: "
    release_step
        (node_release sys opts r p backup_dir "appliance-registry" r.registry_chart_path
          registry_namespace p.registry_values)
        (drop_registry_key ∷ undo_release p.had_artifact "appliance-registry" ∷ [])
    return tt

  -- The name of the host for /etc/hosts.
  unfoldable pub dns_hostname : String
  dns_hostname =
      or_else (trim_space opts.node_name) (elim sys.hostname [ none ↦ "" | some h ↦ trim_space h ])

  -- Behind `prep.Changed && !hadDNSBefore`.
  unfoldable pub note_dns : Bool → Run World (Unit {0})
  note_dns test =
      if test
      then set_pending (λ q. record q { dns = true })
        >> note "host-dns-stub-disabled" "host" pass
            "prepared host for LAN DNS (systemd-resolved stub disabled and/or node hostname seeded in /etc/hosts)"
      else return tt

  unfoldable pub dns_steps : Run World (Unit {0})
  dns_steps = do
    a ←
        plain_step (prepare_dns dns_hostname p.node_ipv4 p.tls_sans)
          "upgrade: prepare host for LAN DNS on port 53: "
    note_dns (a.flag && not p.had_dns)
    plain_step quiesce "upgrade: free port 53 from stock DNS packages: "
    release_step
        (record (node_release sys opts r p backup_dir "appliance-dns" r.dns_chart_path "dns"
          p.dns_values) { labels = privileged })
        (undo_release p.had_dns "appliance-dns" ∷ [])
    return tt

  unfoldable pub inference_step : Run World (Unit {0})
  inference_step =
      release_step
        (record (node_release sys opts r p backup_dir "appliance-inference" r.inference_chart_path
          "inference" p.inference_values) { labels = restricted })
        (undo_release p.had_inference "appliance-inference" ∷ [])
      >> return tt

  -- The loop over the custom resource definitions of the workflows.
  unfoldable pub crd_steps : List String → Run World (Unit {0})
  crd_steps [] = return tt
  crd_steps (path ∷ rest) = do
    plain_step (apply_crd path) ("upgrade: apply workflows CRD " <> path <> ": ")
    crd_steps rest

  unfoldable pub workflows_chart_step : Run World (Unit {0})
  workflows_chart_step =
      if is_empty r.workflows_chart_path
      then return tt
      else step sys opts p backup_dir
          (install_release (
            node_release sys opts r p backup_dir "appliance-workflows" r.workflows_chart_path
              "workflows" p.workflows_values))
          "upgrade: " (roll_back_release "appliance-workflows" ∷ [])
        >> return tt

  unfoldable pub workflows_steps : Run World (Unit {0})
  workflows_steps = crd_steps r.workflows_crd_paths >> workflows_chart_step

  -- The steps of a capability.
  unfoldable pub if_enabled : Bool → Run World (Unit {0}) → Run World (Unit {0})
  if_enabled test m = if test then m else return tt

  -- What takes the chart of the product back.
  abbrev pub undo_product : List String → List Undo
  undo_product imported =
      drop_prereqs ∷ roll_back_release opts.chart_release_name ∷ drop_images imported

  unfoldable pub reconcile_step : List String → Run World (Unit {0})
  reconcile_step imported =
      if is_blank opts.image_pull_registry
      then return tt
      else step sys opts p backup_dir
          (ensure_pull_secrets (product_namespaces opts.chart_namespace))
          "upgrade: reconcile image-pull secrets: " (undo_product imported)
        >> return tt

  unfoldable pub host_steps : Run World (Unit {0})
  host_steps = do
    broker_step
    remove_workflows_step
    log_dir_steps (service_log_dirs included_logs)
    log_file_steps (service_log_files included_logs)
    install_agent_step
    mdns_step

  unfoldable pub chart_steps : List String → Run World (Unit {0})
  chart_steps imported = do
    if_enabled r.artifact_enabled registry_steps
    if_enabled r.dns_enabled dns_steps
    if_enabled r.inference_enabled inference_step
    if_enabled r.workflows_enabled workflows_steps
    release_step (product_release sys opts r p backup_dir) (undo_product imported)
    reconcile_step imported
    step sys opts p backup_dir install_zonctl "upgrade: install host zonctl: "
        (undo_product imported)
    return tt
