-- ===== src/Upgrade/Resolved.antt =====
-- internal/install/source.go: the methods of Resolved, and DatabaseEngine.
use appliance_ctl.Common.{
  String, Bool, true, false, not, ◌&&◌, ◌||◌, if◌then◌else◌, Option, none, some, List, [], ◌∷◌,
}
use appliance_ctl.Common.Text.{trim_space, is_blank, strip_prefix}
use appliance_ctl.Upgrade.Options.{Category, dependency, other_category, Image, Resolved}

abbrev pub is_some : Option String → Bool
is_some none = false
is_some (some rest) = true

-- `strings.HasPrefix`
abbrev pub has_prefix : String → String → Bool
has_prefix prefix s = is_some (strip_prefix prefix s)

-- `strings.Contains`
unfoldable pub has_substring : String → String → Bool
has_substring part String.[] = has_prefix part String.[]
has_substring part (String.◌∷◌ c s) = has_prefix part (String.◌∷◌ c s) || has_substring part s

-- `isHostAgentImageReference`
unfoldable pub is_host_agent_image_reference : String → Bool
unfolding trim_space
is_host_agent_image_reference ref =
    has_prefix "registry.local/appliance-host-agent@sha256:" (trim_space ref)

abbrev pub is_workflow_image : String → Bool
is_workflow_image name =
    has_substring "/argoproj/workflow-controller:" name
    || has_substring "/appliance-workflow-controller:" name
    || has_substring "/argoproj/argoexec:" name

abbrev pub is_inference_image : String → Bool
is_inference_image name =
    has_prefix "registry.local/inference-runtime@" name
    || has_prefix "registry.local/inference-manager@" name
    || has_prefix "registry.local/open-webui@" name
    || has_prefix "registry.local/open-webui-gateway@" name

-- The images that belong to a capability which is off.
unfoldable pub is_skipped_dependency : Resolved → String → Category → Bool
unfolding has_substring
is_skipped_dependency r name dependency =
    (has_prefix "registry.local/artifact-server@" name && not r.artifact_enabled)
    || (is_workflow_image name && not r.workflows_enabled)
    || (has_prefix "registry.local/coredns@" name && not r.dns_enabled)
    || (is_inference_image name && not r.inference_enabled)
is_skipped_dependency r name other_category = false

unfoldable pub is_skipped : Resolved → Image → Bool
unfolding is_host_agent_image_reference is_skipped_dependency
is_skipped r image =
    (is_host_agent_image_reference image.name && not r.host_enabled)
    || (has_prefix "registry.local/workspace-provisioner@" image.name && not r.build_enabled)
    || is_skipped_dependency r image.name image.category

-- `FilterOCIImages`
unfoldable pub filter_oci_images : Resolved → List Image → List Image
unfolding is_skipped
filter_oci_images r [] = []
filter_oci_images r (image ∷ rest) =
    let kept = filter_oci_images r rest in if is_skipped r image then kept else image ∷ kept

-- `ArtifactServerComponentVersion`
abbrev pub artifact_server_component_version : Resolved → String → String
artifact_server_component_version r version = if r.artifact_enabled then version else ""

-- `DNSComponentVersion`
abbrev pub dns_component_version : Resolved → String → String
dns_component_version r version = if r.dns_enabled then version else ""

-- `InferenceComponentVersion`
abbrev pub inference_component_version : Resolved → String → String
inference_component_version r version = if r.inference_enabled then version else ""

-- `DatabaseEngine`
unfoldable pub database_engine : Resolved → String
unfolding is_blank
database_engine r = if is_blank r.postgres_image_reference then "" else "postgres"
