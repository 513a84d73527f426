-- ===== src/Upgrade/Orchestration.antt =====
-- internal/upgrade/upgrade.go: Upgrade.
use appliance_ctl.Common.{String, true, false}
use appliance_ctl.Common.Effects.{Run, ◌>>=◌, ◌>>◌}
use appliance_ctl.Preflight.{Facts}
use appliance_ctl.ProductConfig.Identity.{ApplianceIdentity}
use appliance_ctl.ProductConfig.Profiles.{
  capability_artifact, capability_dns, capability_inference, capability_workflows,
}
use appliance_ctl.State.{InstalledState}
use appliance_ctl.Upgrade.Admission.{
  with_appliance_fqdn, had, target_version, refuse_release, owned_state, resolve_release,
  target_identity, match_host,
}
use appliance_ctl.Upgrade.Host.{
  product_values, registry_values, dns_values, inference_values, workflows_values, Answer, System,
  World, or_fail,
}
use appliance_ctl.Upgrade.Options.{Options, Resolved}
use appliance_ctl.Upgrade.Preparation.{
  prepared, prepared_if, bundles_dir, stage_host, refuse_source,
}
use appliance_ctl.Upgrade.Steps.{Plan}
use appliance_ctl.Upgrade.Transaction.{back_up_and_change}

-- The values files that were prepared.
pub record Files : Type 0 where
  pub product : String
  pub registry : String
  pub dns : String
  pub inference : String
  pub workflows : String

module _ (sys : System) (opts : Options) where
  unfoldable pub plan_of :
      InstalledState → Resolved → ApplianceIdentity → Facts → Files → Answer → Plan
  plan_of s r i f files a =
      let sans = with_appliance_fqdn i.fqdn opts.tls_sans in
      record {
        installed = s;
        target_version = target_version opts r;
        had_artifact = had s r capability_artifact;
        had_workflows = had s r capability_workflows;
        had_dns = had s r capability_dns;
        had_inference = had s r capability_inference;
        identity = i;
        facts = f;
        tls_sans = sans;
        node_ipv4 = sys.preferred_ipv4 sans;
        product_values = files.product;
        registry_values = files.registry;
        dns_values = files.dns;
        inference_values = files.inference;
        workflows_values = files.workflows;
        bundles_dir = bundles_dir sys opts;
        metadata_version = a.text;
        metadata_digest = a.digest;
      }

  -- From the directories on.
  unfoldable pub stage_and_change :
      InstalledState → Resolved → ApplianceIdentity → Facts → Files → Run World InstalledState
  stage_and_change s r i f files = do
    a ← stage_host sys opts r
    refuse_source sys opts s r
    back_up_and_change sys opts (plan_of s r i f files a) r

  -- From the values files on.
  unfoldable pub prepare_and_change :
      InstalledState → Resolved → ApplianceIdentity → Facts → Run World InstalledState
  prepare_and_change s r i f =
      let ip = sys.preferred_ipv4 (with_appliance_fqdn i.fqdn opts.tls_sans) in
      prepared sys opts product_values true i ip λ product.
        prepared_if sys opts r.artifact_enabled registry_values true i ip λ registry.
          prepared_if sys opts r.dns_enabled dns_values true i ip λ dns.
            prepared_if sys opts r.inference_enabled inference_values false i ip λ inference.
              prepared_if sys opts r.workflows_enabled workflows_values false i ip λ workflows.
                stage_and_change s r i f (record {
                  product = product;
                  registry = registry;
                  dns = dns;
                  inference = inference;
                  workflows = workflows;
                })

  -- `Upgrade`
  unfoldable pub upgrade : Run World InstalledState
  unfolding owned_state resolve_release refuse_release target_identity match_host prepare_and_change
  upgrade = do
    loaded ← or_fail "upgrade: " (sys.load_state opts.installed_state_path)
    s ← owned_state loaded
    r ← resolve_release sys opts s
    refuse_release sys opts s r
    i ← target_identity sys opts s
    f ← match_host sys opts r
    prepare_and_change s r i f
