-- ===== src/Verify/Vulnerability.antt =====
-- internal/verify/vulnerability.go: EvaluateVulnerabilityPolicy. A severity is its text, as in Go;
-- a timestamp is its distance from the zero time, and `format_time` is its RFC 3339 form.
pub mod Covered
use appliance_ctl.Common.{
  String, ◌<>◌, ◌==◌, ℕ, ltb, Bool, not, if◌then◌else◌, Option, none, some, List, [], ◌∷◌, contains,
}
use appliance_ctl.Evidence.{Check, pass, fail}
use appliance_ctl.Evidence.Sanitize.{sanitize_id_segment}
use appliance_ctl.Verify.Artifacts.{Report, check_of, also, nothing, joined_error}

abbrev pub Severity : Type 0
Severity = String

abbrev pub severity_low : Severity
severity_low = "low"

abbrev pub severity_medium : Severity
severity_medium = "medium"

abbrev pub severity_high : Severity
severity_high = "high"

abbrev pub severity_critical : Severity
severity_critical = "critical"

-- `severityRank[s]`, 0 for a text that is no key.
unfoldable pub severity_rank : Severity → ℕ
severity_rank s =
    if s == severity_medium
    then 1
    else if s == severity_high
    then 2
    else if s == severity_critical
    then 3
    else 0

pub record Finding : Type 0 where
  pub id : String
  pub package_name : String
  pub severity : Severity

pub record Exception : Type 0 where
  pub id : String
  pub reason : String
  pub expires_at : ℕ
  pub signed_by : String

-- `exceptionsByID[id]` behind the loop that fills the map: a later exception replaces an earlier.
unfoldable pub exception_by_id : List Exception → String → Option Exception → Option Exception
exception_by_id [] id found = found
exception_by_id (e ∷ rest) id found = exception_by_id rest id (if e.id == id then some e else found)

-- "<id> (<severity>) in <package>", with which every message begins.
abbrev pub finding_text : Finding → String
finding_text f = f.id <> " (" <> f.severity <> ") in " <> f.package_name

module _ (decimal : ℕ → String) (quote : String → String) (format_time : ℕ → String)
    (trusted_signers : List String) (threshold : Severity) (now : ℕ) where
  abbrev pub finding_passes : Finding → String → Report
  finding_passes f message = record {
    checks = check_of ("vulnerability-" <> sanitize_id_segment f.id) "dependency" pass message ∷ [];
    failures = [];
  }

  abbrev pub finding_fails : Finding → String → Report
  finding_fails f message = record {
    checks = check_of ("vulnerability-" <> sanitize_id_segment f.id) "dependency" fail message ∷ [];
    failures = message ∷ [];
  }

  -- The `switch` on the exception of a finding.
  unfoldable pub judge_exception : Finding → Option Exception → Report
  judge_exception f none = finding_fails f (finding_text f <> " has no policy exception")
  judge_exception f (some exc) =
      if not (contains exc.signed_by trusted_signers)
      then finding_fails f (
          finding_text f
          <> " has an exception signed by untrusted identity "
          <> quote exc.signed_by)
      else if not (ltb now exc.expires_at)
      then finding_fails f (
          finding_text f
          <> " has an expired exception (expired "
          <> format_time exc.expires_at
          <> ")")
      else finding_passes f (
          finding_text f
          <> " is covered by exception "
          <> quote exc.id
          <> ", signed by "
          <> quote exc.signed_by
          <> ", expiring "
          <> format_time exc.expires_at)

  -- The body of the loop.
  unfoldable pub evaluate_finding : List Exception → Finding → Report
  unfolding judge_exception
  evaluate_finding exceptions f =
      if ltb (severity_rank f.severity) (severity_rank threshold)
      then finding_passes f (finding_text f <> " is below policy threshold " <> threshold)
      else judge_exception f (exception_by_id exceptions f.id none)

  unfoldable pub evaluate_findings : List Exception → List Finding → Report
  unfolding also nothing evaluate_finding
  evaluate_findings exceptions [] = nothing
  evaluate_findings exceptions (f ∷ rest) =
      also (evaluate_finding exceptions f) (evaluate_findings exceptions rest)

  -- `EvaluateVulnerabilityPolicy`
  unfoldable pub evaluate_vulnerability_policy :
      List Finding → List Exception → List Check × Option String
  unfolding evaluate_findings
  evaluate_vulnerability_policy findings exceptions =
      let r = evaluate_findings exceptions findings in
      (r.checks, joined_error decimal "verify" " vulnerability policy failure(s): " r.failures)
