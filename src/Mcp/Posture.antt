-- ===== src/Mcp/Posture.antt =====
-- services/mcp_server.py: `summarize_vulnerabilities`, and of api/v1/vulnerabilities.py the
-- `vulnerability_summary`, over the same tables.
use argus_sbomguard.Common.{
  ℕ, ◌+◌, ◌++◌, find, Option, none, some, not, ◌&&◌, List, [], ◌∷◌, any, filter, length, map, add,
  ◌==◌, nat_eq,
}
use argus_sbomguard.Models.{Vulnerability, Severity, Finding, Sbom, RiskAcceptance, is_open}
use argus_sbomguard.Acceptance.{covered_by_acceptance}
use argus_sbomguard.Alerting.{OpenRow, open_rows, is_actionable, sbom_of}
use argus_sbomguard.Snapshots.{joined, count_of, distinct_ids}

pub record SeverityCounts : Type 0 where
  pub critical : ℕ
  pub high : ℕ
  pub medium : ℕ
  pub low : ℕ
  pub unknown : ℕ

abbrev pub no_counts : SeverityCounts
no_counts = record { critical = 0; high = 0; medium = 0; low = 0; unknown = 0 }

-- `counts[key] += 1`; no severity counts as unknown.
abbrev pub count_one : Option Severity → SeverityCounts → SeverityCounts
count_one (some Severity.critical) c = record c { critical = c.critical + 1 }
count_one (some Severity.high) c = record c { high = c.high + 1 }
count_one (some Severity.medium) c = record c { medium = c.medium + 1 }
count_one (some Severity.low) c = record c { low = c.low + 1 }
count_one (some Severity.unknown) c = record c { unknown = c.unknown + 1 }
count_one none c = record c { unknown = c.unknown + 1 }

abbrev pub tally : List (Option Severity) → SeverityCounts
tally [] = no_counts
tally (s ∷ l) = count_one s (tally l)

-- `sum(counts.values())`
abbrev pub sum_of : SeverityCounts → ℕ
sum_of c = c.critical + (c.high + (c.medium + (c.low + c.unknown)))

pub record PostureTables : Type 0 where
  pub vulnerabilities : List Vulnerability
  pub findings : List Finding
  pub sboms : List Sbom
  pub acceptances : List RiskAcceptance

pub record SummarizeResponse : Type 0 where
  pub counts : SeverityCounts
  pub total : ℕ
  pub affected_projects : ℕ
  pub affected_services : ℕ
  pub fixed : ℕ

abbrev distinct : List ℕ → List ℕ
distinct [] = []
distinct (k ∷ l) = add k (distinct l)

abbrev services_in : List OpenRow → List ℕ
services_in [] = []
services_in ((vuln, project, none) ∷ rows) = services_in rows
services_in ((vuln, project, some s) ∷ rows) = s ∷ services_in rows

module _ (t : PostureTables) where
  -- The vulnerabilities with an actionable finding, each once.
  unfoldable pub open_now : List Vulnerability
  open_now =
      filter
        (λ v.
          any
            (λ l.
              l.vulnerability_id == v.id
              && joined (is_actionable t.sboms t.acceptances) l (sbom_of t.sboms t.acceptances l))
            t.findings)
        t.vulnerabilities

  -- The findings of a vulnerability that the query of the API joins with it.
  abbrev pub joined_findings : Vulnerability → List Finding
  joined_findings v =
      filter
        (λ l.
          l.vulnerability_id == v.id
          && joined (λ l s. is_open l.status && not (covered_by_acceptance t.acceptances none l s))
              l (find (λ s. s.id == l.sbom_id) t.sboms))
        t.findings

  abbrev pub once_if_joined : Vulnerability → List Finding → List Vulnerability
  once_if_joined v [] = []
  once_if_joined v (l ∷ links) = v ∷ []

  abbrev pub distinct_rows : List Vulnerability → List Vulnerability
  distinct_rows [] = []
  distinct_rows (v ∷ vs) = once_if_joined v (joined_findings v) ++ distinct_rows vs

  -- `vuln_subq` of the API: the rows of the join, each vulnerability once.
  unfoldable pub vuln_subq : List Vulnerability
  vuln_subq = distinct_rows t.vulnerabilities

  -- `count(distinct(SBOM.project_id))` of the actionable findings.
  unfoldable pub affected_projects : ℕ
  unfolding open_rows add
  affected_projects =
      length (distinct (map (λ row. row.1) (open_rows t.sboms t.acceptances t.findings)))

  unfoldable pub summarize_vulnerabilities : SummarizeResponse
  unfolding open_now affected_projects
  summarize_vulnerabilities =
      let counts = tally (map (λ v. v.severity) open_now) in
      record {
        counts = counts;
        total = sum_of counts;
        affected_projects = affected_projects;
        affected_services =
            length (distinct (services_in (open_rows t.sboms t.acceptances t.findings)));
        fixed = length (distinct_ids (filter (λ l. not (is_open l.status)) t.findings));
      }

  -- The counts of the API: the unknown ones are not counted.
  unfoldable pub summary_counts : SeverityCounts
  unfolding vuln_subq
  summary_counts = record {
    critical = count_of Severity.critical vuln_subq;
    high = count_of Severity.high vuln_subq;
    medium = count_of Severity.medium vuln_subq;
    low = count_of Severity.low vuln_subq;
    unknown = 0;
  }

  -- The answer of the API: the counts, their sum, and the affected projects.
  unfoldable pub vulnerability_summary : SeverityCounts × ℕ × ℕ
  unfolding summary_counts affected_projects
  vulnerability_summary = (summary_counts, sum_of summary_counts, affected_projects)
