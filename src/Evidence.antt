-- ===== src/Evidence.antt =====
-- internal/evidence/evidence.go: check results and their most severe status. The fields that only
-- carry the clock, Timestamp and DurationMs, are left out, and so are Idempotent and
-- SecretsRedacted, which every caller in scope sets to true.
pub mod Severity
pub mod Sanitize
use appliance_ctl.Common.{String, ℕ, List, [], ◌∷◌, ltb, if◌then◌else◌}

pub data Status : Type 0 where
  pass auto_fix operator_action unsupported fail skipped : Status

pub record Check : Type 0 where
  pub id : String
  pub category : String
  pub status : Status
  pub message : String
  pub remediation : String

-- `statusPriority`, from the most to the least severe.
abbrev pub status_priority : Status → ℕ
status_priority fail = 0
status_priority unsupported = 1
status_priority operator_action = 2
status_priority auto_fix = 3
status_priority skipped = 4
status_priority pass = 5

-- The loop of `OverallStatus`, with `overall` and `best`.
unfoldable pub overall_from : Status → ℕ → List Check → Status
overall_from overall best [] = overall
overall_from overall best (c ∷ rest) =
    let p = status_priority c.status in
    overall_from (if ltb p best then c.status else overall) (if ltb p best then p else best) rest

-- `OverallStatus`
unfoldable pub overall_status : List Check → Status
unfolding overall_from
overall_status checks = overall_from pass (status_priority pass) checks
