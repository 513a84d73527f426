-- ===== src/Upgrade/Steps.antt =====
-- internal/upgrade/upgrade.go: a step of Upgrade behind the backup, which calls failUpgrade if it
-- fails, and what the steps read.
use appliance_ctl.Common.{String, ◌<>◌, Bool, List, [], ◌∷◌, Result, ok, err}
use appliance_ctl.Common.Effects.{Run, ◌>>=◌, ◌>>◌, return, attempt}
use appliance_ctl.Preflight.{Facts}
use appliance_ctl.ProductConfig.Identity.{ApplianceIdentity}
use appliance_ctl.State.{InstalledState}
use appliance_ctl.Upgrade.Host.{Change, Undo, remove_images, changed, Answer, System, World, ask}
use appliance_ctl.Upgrade.Options.{Options}
use appliance_ctl.Upgrade.Undo.{fail_upgrade, result_of}

-- The variables of Upgrade that are set before the backup.
pub record Plan : Type 0 where
  pub installed : InstalledState
  pub target_version : String
  pub had_artifact : Bool
  pub had_workflows : Bool
  pub had_dns : Bool
  pub had_inference : Bool
  pub identity : ApplianceIdentity
  pub facts : Facts
  pub tls_sans : List String
  pub node_ipv4 : String
  pub product_values : String
  pub registry_values : String
  pub dns_values : String
  pub inference_values : String
  pub workflows_values : String
  pub bundles_dir : String
  pub metadata_version : String
  pub metadata_digest : String

-- `importer.Rollback(ctx, preloadResult.NewlyImported)`
abbrev pub drop_images : List String → List Undo
drop_images imported = remove_images imported ∷ []

module _ (sys : System) (opts : Options) (p : Plan) (backup_dir : String) where
  -- Behind the error of a step.
  unfoldable pub guard : String → List Undo → Result String (Unit {0}) → Run World (Unit {0})
  guard context undos (ok done) = return tt
  guard context undos (err e) = fail_upgrade sys opts backup_dir p.bundles_dir (context <> e) undos

  unfoldable pub guarded : String → List Undo → Run World (Unit {0}) → Run World (Unit {0})
  guarded context undos m = do o ← attempt m; guard context undos o

  -- Behind the answer of a call.
  unfoldable pub settled : String → List Undo → Answer → Run World Answer
  settled context undos a = guard context undos (result_of a.problem) >> return a

  unfoldable pub step : Change → String → List Undo → Run World Answer
  step c context undos = do a ← ask sys (changed c); settled context undos a
