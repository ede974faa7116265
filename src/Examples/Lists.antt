-- ===== src/Examples/Lists.antt =====
-- The lists of vulnerabilities and the dashboard at a small database.
use argus_sbomguard.Common.{
  suc, none, some, Bool, true, false, [], ◌∷◌, last, contains, Memᴰ, Text, text, nat_eq, pair_eq,
  list_eq, ◌≡◌, ◌↔◌, refl, arith,
}
use mathlib.Core.List.{Perm}
use argus_sbomguard.Models.{Vulnerability, Severity, Project}
use argus_sbomguard.Alerting.{open_pairs, open_rows}
use argus_sbomguard.Snapshots.{MetricTables}
use argus_sbomguard.Mcp.Posture.{PostureTables}
use argus_sbomguard.Queries.{QueryTables, selected, apply_vuln_ordering}
use argus_sbomguard.Queries.Sorted.{
  severity, ascending, MayPrecede, Pairwise, apply_vuln_ordering-IsSorted,
}
use argus_sbomguard.Queries.Total.{selected-iff-open_pairs, of_project}
use argus_sbomguard.Site.Dashboard.{DashboardTables, Dashboard, dashboard}
use argus_sbomguard.Site.Chart.{dashboard-chart, after_snapshot}
use argus_sbomguard.Examples.Data.{flaw, old_sbom, finding_in}

abbrev posture : PostureTables
posture = record {
  vulnerabilities = flaw ∷ [];
  findings = finding_in 100 ∷ [];
  sboms = old_sbom ∷ [];
  acceptances = [];
}

abbrev unlike : Text → Text → Bool
unlike value pattern = false

selected-iff-open_pairs_example :
    Memᴰ flaw (selected unlike posture (of_project unlike posture 10)) ↔ (
      Memᴰ flaw posture.vulnerabilities
      × (contains
            (open_pairs (open_rows posture.sboms posture.acceptances posture.findings))
            (10, flaw.id)
          ≡ true))
selected-iff-open_pairs_example = selected-iff-open_pairs unlike posture 10 flaw

-- A second vulnerability, less severe.
abbrev minor : Vulnerability
minor = record flaw { id = 8; severity = some Severity.low; cvss_score = some 3000000 }

apply_vuln_ordering-IsSorted_example :
    Perm
      (apply_vuln_ordering (minor ∷ flaw ∷ []) (text "severity") (text "asc"))
      (minor ∷ flaw ∷ [])
    × Pairwise
        (MayPrecede severity ascending)
        (apply_vuln_ordering (minor ∷ flaw ∷ []) (text "severity") (text "asc"))
apply_vuln_ordering-IsSorted_example =
    apply_vuln_ordering-IsSorted (minor ∷ flaw ∷ []) severity ascending

-- The critical one is listed first.
critical_first :
    apply_vuln_ordering (minor ∷ flaw ∷ []) (text "severity") (text "asc") ≡ flaw ∷ minor ∷ []
unfolding apply_vuln_ordering
critical_first = refl

abbrev shop : Project
shop = record {
  id = 10;
  name = text "Shop";
  slug = text "shop";
  description = none;
  repo_url = none;
  platform = none;
  created_at = 0;
}

abbrev query_tables : QueryTables
query_tables = record { posture = posture; projects = shop ∷ []; services = [] }

abbrev metric_tables : MetricTables
metric_tables = record {
  vulnerabilities = flaw ∷ [];
  findings = finding_in 100 ∷ [];
  sboms = old_sbom ∷ [];
  acceptances = [];
  dependencies = [];
}

abbrev board : DashboardTables
board = record { metric = metric_tables; projects = shop ∷ []; services = []; snapshots = [] }

-- The page right after the snapshot of day 9.
abbrev shown : Dashboard
shown = dashboard (λ d. text "Jan 10") (suc 29) (after_snapshot 9 board)

dashboard-chart_example :
    (last shown.chart_critical ≡ some shown.critical)
    × (last shown.chart_high ≡ some shown.high)
    × (last shown.chart_medium ≡ some shown.medium)
    × (last shown.chart_low ≡ some shown.low)
    × (last shown.chart_fixed ≡ some shown.fixed_count)
dashboard-chart_example =
    dashboard-chart (λ d. text "Jan 10") 29 9 board (refl, tt) tt (omega arith)
