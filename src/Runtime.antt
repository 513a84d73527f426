-- ===== src/Runtime.antt =====
-- internal/runtimeconfig/runtime.go: the inference runtime that a release selects.
use appliance_ctl.Common.{
  String, ◌==◌, Bool, not, ◌&&◌, ◌||◌, if◌then◌else◌, Result, ok, ◌>>◌, fail_if,
}
use appliance_ctl.Common.Text.{trim_space, is_empty}
use appliance_ctl.Evidence.Sanitize.{to_lower}
use appliance_ctl.State.{Selection}

pub data Problem : Type 0 where
  unsupported : Selection → Problem
  other_architecture : Selection → String → Problem

-- `Equal`
unfoldable pub equal : Selection → Selection → Bool
equal l r =
    l.package_name == r.package_name
    && l.inference_engine == r.inference_engine
    && l.architecture == r.architecture

abbrev pub canonical : String → String
canonical a =
    if a == "x86_64" || a == "x86-64" then "amd64" else if a == "aarch64" then "arm64" else a

-- `normalizeArchitecture`
unfoldable pub normalize_architecture : String → String
unfolding to_lower trim_space
normalize_architecture value = canonical (to_lower (trim_space value))

-- The packages and their engines.
abbrev pub is_known_package : Selection → Bool
is_known_package r =
    (r.package_name == "std-llm" && r.inference_engine == "ollama")
    || (r.package_name == "acc-llm" && r.inference_engine == "vllm")

-- `ValidateInference`
unfoldable pub validate_inference : Selection → Result Problem (Unit {0})
unfolding normalize_architecture
validate_inference r = do
  let arch = normalize_architecture r.architecture
  fail_if (not (arch == "amd64") && not (arch == "arm64")) (unsupported r)
  fail_if (not (is_known_package r)) (unsupported r)
  ok tt

-- `RequiresGPU`; strings.EqualFold against an ASCII text without k or s folds as ToLower.
unfoldable pub requires_gpu : Selection → Bool
unfolding to_lower trim_space
requires_gpu r = to_lower (trim_space r.inference_engine) == "vllm"

-- `ValidateTargetArchitecture`
unfoldable pub validate_target_architecture : Selection → String → Result Problem (Unit {0})
unfolding normalize_architecture
validate_target_architecture r target = do
  let want = normalize_architecture r.architecture
  let have = normalize_architecture target
  fail_if (is_empty want || is_empty have || not (want == have)) (other_architecture r target)
  ok tt
