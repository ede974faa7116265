-- ===== src/Models/Vulnerabilities.antt =====
-- models/vulnerability.py: severities, vulnerabilities, findings and snapshots.
use argus_sbomguard.Common.{ℕ, Option, List, Text, text, Bool, true, false}
use argus_sbomguard.Common.Json.{Json}

pub data Severity : Type 0 where
  critical high medium low unknown : Severity

-- The value of a member of `VulnerabilitySeverity`.
abbrev pub severity_value : Severity → Text
severity_value critical = text "CRITICAL"
severity_value high = text "HIGH"
severity_value medium = text "MEDIUM"
severity_value low = text "LOW"
severity_value unknown = text "UNKNOWN"

pub data Status : Type 0 where
  open_status fixed_status : Status

abbrev pub is_open : Status → Bool
is_open open_status = true
is_open fixed_status = false

pub record Vulnerability : Type 0 where
  pub id : ℕ
  pub cve_id : Text
  pub source : Text
  pub severity : Option Severity
  pub cvss_score : Option ℕ
  pub epss_score : Option ℕ
  pub epss_percentile : Option ℕ
  pub summary : Option Text
  pub affected_packages : List Text
  pub published_at : Option ℕ
  pub extra_data : Json

-- SBOMVulnerability: the finding of a vulnerability in a package of an SBOM.
pub record Finding : Type 0 where
  pub sbom_id : ℕ
  pub dependency_purl : Text
  pub vulnerability_id : ℕ
  pub status : Status
  pub fixed_at : Option ℕ
  pub detected_at : ℕ

pub record Snapshot : Type 0 where
  pub project_id : Option ℕ
  pub snapshot_date : ℕ
  pub critical_count : ℕ
  pub high_count : ℕ
  pub medium_count : ℕ
  pub low_count : ℕ
  pub fixed_count : ℕ
  pub total_dependencies : ℕ
