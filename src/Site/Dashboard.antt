-- ===== src/Site/Dashboard.antt =====
-- api/pages/dashboard.py: the counts, the recent SBOMs and the chart. `strftime` writes the day of a
-- label. A count by severity is of the severity itself, which is stored in upper case.
use argus_sbomguard.Common.{
  ℕ, Option, none, some, List, [], ◌∷◌, ◌++◌, filter, find, map, take, length, ltb, not, ◌==◌,
  nat_eq, Text,
}
use mathlib.Core.List.{reverse}
use argus_sbomguard.Models.{Severity, Project, Service, Sbom, Snapshot, is_open}
use argus_sbomguard.Snapshots.{MetricTables, count_of, distinct_ids}
use argus_sbomguard.Mcp.Paging.{order_by}
use argus_sbomguard.Mcp.Listing.{outer_service_name, is_platform_wide}
use argus_sbomguard.Mcp.Posture.{PostureTables, open_now}

pub record DashboardTables : Type 0 where
  pub metric : MetricTables
  pub projects : List Project
  pub services : List Service
  pub snapshots : List Snapshot

-- An SBOM with the names of its project and its service.
abbrev pub RecentSbom : Type 0
RecentSbom = Sbom × Text × Option Text

pub record Dashboard : Type 0 where
  pub project_count : ℕ
  pub sbom_count : ℕ
  pub critical : ℕ
  pub high : ℕ
  pub medium : ℕ
  pub low : ℕ
  pub fixed_count : ℕ
  pub recent_sboms : List RecentSbom
  pub chart_labels : List Text
  pub chart_critical : List ℕ
  pub chart_high : List ℕ
  pub chart_medium : List ℕ
  pub chart_low : List ℕ
  pub chart_fixed : List ℕ

abbrev pub posture_of : MetricTables → PostureTables
posture_of t = record {
  vulnerabilities = t.vulnerabilities;
  findings = t.findings;
  sboms = t.sboms;
  acceptances = t.acceptances;
}

module _ (t : DashboardTables) where
  abbrev recent_row : Sbom → Option Project → List RecentSbom
  recent_row s none = []
  recent_row s (some p) = (s, p.name, outer_service_name t.services s.service_id) ∷ []

  abbrev recent_rows : List Sbom → List RecentSbom
  recent_rows [] = []
  recent_rows (s ∷ sboms) =
      recent_row s (find (λ p. p.id == s.project_id) t.projects) ++ recent_rows sboms

  unfoldable pub recent_sboms : List RecentSbom
  unfolding order_by
  recent_sboms =
      take 5 (order_by (λ a b. ltb b.0.uploaded_at a.0.uploaded_at) (recent_rows t.metric.sboms))

-- The newest snapshots, the oldest first.
unfoldable pub snap_rows : ℕ → List Snapshot → List Snapshot
unfolding order_by
snap_rows retention_days snapshots = reverse (
    take retention_days
      (order_by (λ a b. ltb b.snapshot_date a.snapshot_date) (filter is_platform_wide snapshots)))

unfoldable pub dashboard : (ℕ → Text) → ℕ → DashboardTables → Dashboard
unfolding open_now recent_sboms snap_rows
dashboard strftime retention_days t =
    let rows = snap_rows retention_days t.snapshots in
    let vulns = open_now (posture_of t.metric) in
    record {
      project_count = length t.projects;
      sbom_count = length t.metric.sboms;
      critical = count_of Severity.critical vulns;
      high = count_of Severity.high vulns;
      medium = count_of Severity.medium vulns;
      low = count_of Severity.low vulns;
      fixed_count = length (distinct_ids (filter (λ l. not (is_open l.status)) t.metric.findings));
      recent_sboms = recent_sboms t;
      chart_labels = map (λ s. strftime s.snapshot_date) rows;
      chart_critical = map (λ s. s.critical_count) rows;
      chart_high = map (λ s. s.high_count) rows;
      chart_medium = map (λ s. s.medium_count) rows;
      chart_low = map (λ s. s.low_count) rows;
      chart_fixed = map (λ s. s.fixed_count) rows;
    }
