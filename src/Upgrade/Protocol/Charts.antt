-- ===== src/Upgrade/Protocol/Charts.antt =====
-- The steps of Upgrade/Charts keep to the changes.
use appliance_ctl.Common.{String, Bool, true, not, ◌&&◌, Option, none, some, List, [], ◌∷◌}
use appliance_ctl.Common.Effects.{Run}
use appliance_ctl.Common.Text.{is_blank, is_empty}
use appliance_ctl.HostDirs.{OwnedDir, service_log_dirs, service_log_files}
use appliance_ctl.Upgrade.Charts.{
  plain_step, broker_step, remove_workflows_step, included_logs, log_dir_steps, log_file_steps,
  install_agent_step, mdns_step, diagnosed, release_step, registry_steps, dns_hostname, note_dns,
  dns_steps, inference_step, crd_steps, workflows_chart_step, workflows_steps, if_enabled,
  undo_product, reconcile_step, host_steps, chart_steps,
}
use appliance_ctl.Upgrade.Foundation.{product_release}
use appliance_ctl.Upgrade.Host.{
  Release, Change, own_dir, own_file, install_agent, install_release, diagnose, prepare_dns,
  quiesce, apply_crd, install_zonctl, Undo, System, World,
}
use appliance_ctl.Upgrade.Options.{Options, Resolved}
use appliance_ctl.Upgrade.Protocol.{changing}
use appliance_ctl.Upgrade.Protocol.Retreat.{In}
use appliance_ctl.Upgrade.Protocol.Changes.{
  Keeps, ask-Changes, settled-Keeps, step-Keeps, step_done-Keeps,
}
use appliance_ctl.Upgrade.Protocol.Holds.{
  return-Holds, note-Holds, set_pending-Holds, >>=-Holds, >>-Holds, if-Holds,
}
use appliance_ctl.Upgrade.Steps.{Plan}

module _ (sys : System) (opts : Options) (r : Resolved) (p : Plan) (dir : String) where
  plain_step-Keeps :
      (c : Change) (context : String) → Keeps sys opts p dir (plain_step sys opts r p dir c context)
  unfolding plain_step
  plain_step-Keeps c context = step-Keeps sys opts p dir c context []

  broker_step-Keeps : Keeps sys opts p dir (broker_step sys opts r p dir)
  unfolding broker_step
  broker_step-Keeps =
      if-Holds (is_empty r.message_broker_chart_path) (return-Holds tt)
        (>>-Holds (plain_step-Keeps _ _) (return-Holds tt))

  remove_workflows_step-Keeps : Keeps sys opts p dir (remove_workflows_step sys opts r p dir)
  unfolding remove_workflows_step
  remove_workflows_step-Keeps =
      if-Holds (p.had_workflows && not r.workflows_enabled)
        (>>-Holds (plain_step-Keeps _ _) (return-Holds tt)) (return-Holds tt)

  log_dir_steps-Keeps :
      (dirs : List OwnedDir) → Keeps sys opts p dir (log_dir_steps sys opts r p dir dirs)
  unfolding log_dir_steps
  log_dir_steps-Keeps [] = return-Holds tt
  log_dir_steps-Keeps (d ∷ rest) =
      >>-Holds (plain_step-Keeps (own_dir d) _)
        (>>-Holds (note-Holds _ _ _ _) (log_dir_steps-Keeps rest))

  log_file_steps-Keeps :
      (files : List OwnedDir) → Keeps sys opts p dir (log_file_steps sys opts r p dir files)
  unfolding log_file_steps
  log_file_steps-Keeps [] = return-Holds tt
  log_file_steps-Keeps (f ∷ rest) =
      >>-Holds (plain_step-Keeps (own_file f) _)
        (>>-Holds (note-Holds _ _ _ _) (log_file_steps-Keeps rest))

  install_agent_step-Keeps : Keeps sys opts p dir (install_agent_step sys opts r p dir)
  unfolding install_agent_step
  install_agent_step-Keeps = >>=-Holds (ask-Changes sys dir install_agent) λ a.
      >>-Holds (set_pending-Holds _) (
        >>-Holds (settled-Keeps sys opts p dir "upgrade: install host agent: " [] a)
          (note-Holds _ _ _ _))

  mdns_step-Keeps : Keeps sys opts p dir (mdns_step sys opts r p dir)
  unfolding mdns_step
  mdns_step-Keeps =
      if-Holds r.lan_discovery_enabled (>>-Holds (plain_step-Keeps _ _) (note-Holds _ _ _ _))
        (>>-Holds (plain_step-Keeps _ _) (note-Holds _ _ _ _))

  pub host_steps-Keeps : Keeps sys opts p dir (host_steps sys opts r p dir)
  unfolding host_steps
  host_steps-Keeps =
      let included = included_logs sys opts r p dir in
      >>-Holds broker_step-Keeps (
        >>-Holds remove_workflows_step-Keeps (
          >>-Holds (log_dir_steps-Keeps (service_log_dirs included)) (
            >>-Holds (log_file_steps-Keeps (service_log_files included))
              (>>-Holds install_agent_step-Keeps mdns_step-Keeps))))

  diagnosed-Keeps :
      (release : Release) (problem : Option String)
      → Keeps sys opts p dir (diagnosed sys opts r p dir release problem)
  unfolding diagnosed
  diagnosed-Keeps release none = return-Holds tt
  diagnosed-Keeps release (some e) =
      >>-Holds (ask-Changes sys dir (diagnose release)) (return-Holds tt)

  release_step-Keeps :
      (release : Release) (undos : List Undo)
      → Keeps sys opts p dir (release_step sys opts r p dir release undos)
  unfolding release_step
  release_step-Keeps release undos = >>=-Holds (ask-Changes sys dir (install_release release)) λ a.
      >>-Holds (diagnosed-Keeps release a.problem)
        (settled-Keeps sys opts p dir "upgrade: " undos a)

  registry_steps-Keeps : Keeps sys opts p dir (registry_steps sys opts r p dir)
  unfolding registry_steps
  registry_steps-Keeps =
      >>-Holds (plain_step-Keeps _ _) (>>-Holds (release_step-Keeps _ _) (return-Holds tt))

  note_dns-Keeps : (test : Bool) → Keeps sys opts p dir (note_dns sys opts r p dir test)
  unfolding note_dns
  note_dns-Keeps test =
      if-Holds test
        (>>-Holds (set_pending-Holds (λ q. record q { dns = true })) (note-Holds _ _ _ _))
        (return-Holds {Q = λ done. In sys (changing dir)} tt)

  dns_steps-Keeps : Keeps sys opts p dir (dns_steps sys opts r p dir)
  unfolding dns_steps
  dns_steps-Keeps =
      >>=-Holds
        (plain_step-Keeps (prepare_dns (dns_hostname sys opts r p dir) p.node_ipv4 p.tls_sans) _)
        λ a. >>-Holds (note_dns-Keeps (a.flag && not p.had_dns)) (
          >>-Holds (plain_step-Keeps quiesce _)
            (>>-Holds (release_step-Keeps _ _) (return-Holds tt)))

  inference_step-Keeps : Keeps sys opts p dir (inference_step sys opts r p dir)
  unfolding inference_step
  inference_step-Keeps = >>-Holds (release_step-Keeps _ _) (return-Holds tt)

  crd_steps-Keeps : (paths : List String) → Keeps sys opts p dir (crd_steps sys opts r p dir paths)
  unfolding crd_steps
  crd_steps-Keeps [] = return-Holds tt
  crd_steps-Keeps (path ∷ rest) =
      >>-Holds (plain_step-Keeps (apply_crd path) _) (crd_steps-Keeps rest)

  workflows_chart_step-Keeps : Keeps sys opts p dir (workflows_chart_step sys opts r p dir)
  unfolding workflows_chart_step
  workflows_chart_step-Keeps =
      if-Holds (is_empty r.workflows_chart_path) (return-Holds tt)
        (step_done-Keeps sys opts p dir _ _ _)

  workflows_steps-Keeps : Keeps sys opts p dir (workflows_steps sys opts r p dir)
  unfolding workflows_steps
  workflows_steps-Keeps =
      >>-Holds (crd_steps-Keeps r.workflows_crd_paths) workflows_chart_step-Keeps

  if_enabled-Keeps :
      {m : Run World (Unit {0})} (test : Bool)
      → Keeps sys opts p dir m
      → Keeps sys opts p dir (if_enabled sys opts r p dir test m)
  unfolding if_enabled
  if_enabled-Keeps test h = if-Holds test h (return-Holds tt)

  reconcile_step-Keeps :
      (imported : List String) → Keeps sys opts p dir (reconcile_step sys opts r p dir imported)
  unfolding reconcile_step
  reconcile_step-Keeps imported =
      if-Holds (is_blank opts.image_pull_registry) (return-Holds tt)
        (step_done-Keeps sys opts p dir _ _ _)

  pub chart_steps-Keeps :
      (imported : List String) → Keeps sys opts p dir (chart_steps sys opts r p dir imported)
  unfolding chart_steps
  chart_steps-Keeps imported = >>-Holds (if_enabled-Keeps r.artifact_enabled registry_steps-Keeps) (
      >>-Holds (if_enabled-Keeps r.dns_enabled dns_steps-Keeps) (
        >>-Holds (if_enabled-Keeps r.inference_enabled inference_step-Keeps) (
          >>-Holds (if_enabled-Keeps r.workflows_enabled workflows_steps-Keeps) (
            >>-Holds
              (release_step-Keeps (product_release sys opts r p dir)
                (undo_product sys opts r p dir imported))
              (>>-Holds (reconcile_step-Keeps imported) (
                step_done-Keeps sys opts p dir install_zonctl _
                  (undo_product sys opts r p dir imported)))))))
