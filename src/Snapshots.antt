-- ===== src/Snapshots.antt =====
-- services/snapshots.py: the counts of a day, and the one row that keeps them. A date counts days,
-- and an instant microseconds, both in UTC. A query with DISTINCT on the vulnerability lists each
-- vulnerability that has a finding of the kind.
pub mod Daily
use argus_sbomguard.Common.{
  ℕ, ◌+◌, ◌-◌, ◌*◌, ◌/◌, suc, Option, none, some, Bool, true, false, not, ◌&&◌, ◌||◌, List, [], ◌∷◌,
  ◌++◌, filter, any, length, add, update_where, ltb, leb, ◌==◌, nat_eq, Text, if◌then◌else◌,
  Outcome, return, raise, ◌>>=◌, value_error,
}
use argus_sbomguard.Models.{
  Vulnerability, Severity, Finding, Sbom, Dependency, RiskAcceptance, Snapshot, is_open,
}
use argus_sbomguard.Acceptance.{covered_by_acceptance}
use argus_sbomguard.Alerting.{sbom_of, is_actionable}

-- The tables that are counted.
pub record MetricTables : Type 0 where
  pub vulnerabilities : List Vulnerability
  pub findings : List Finding
  pub sboms : List Sbom
  pub acceptances : List RiskAcceptance
  pub dependencies : List Dependency

abbrev pub day_microseconds : ℕ
day_microseconds = 86_400_000_000

-- `datetime.combine(target_date, time.max)`
abbrev pub day_end : ℕ → ℕ
day_end d = suc d * day_microseconds - 1

-- `fixed_at IS NULL OR fixed_at > day_end`
abbrev is_fixed_later : ℕ → Option ℕ → Bool
is_fixed_later instant none = true
is_fixed_later instant (some t) = ltb instant t

abbrev is_fixed_by : ℕ → Option ℕ → Bool
is_fixed_by d none = false
is_fixed_by d (some t) = leb (t / day_microseconds) d

-- The finding was open on a day of the past, and not accepted by its end.
unfoldable pub was_actionable : List RiskAcceptance → ℕ → Finding → Sbom → Bool
was_actionable acceptances d link sbom =
    leb link.detected_at (day_end d)
    && (is_fixed_later (day_end d) link.fixed_at
        && not (covered_by_acceptance acceptances (some (day_end d)) link sbom))

abbrev pub joined : (Finding → Sbom → Bool) → Finding → Option Sbom → Bool
joined test link none = false
joined test link (some sbom) = test link sbom

abbrev pub has_severity : Vulnerability → Bool
has_severity v = elim v.severity [ none ↦ false | some s ↦ true ]

abbrev pub severity_is : Severity → Severity → Bool
severity_is Severity.critical Severity.critical = true
severity_is Severity.high Severity.high = true
severity_is Severity.medium Severity.medium = true
severity_is Severity.low Severity.low = true
severity_is Severity.unknown Severity.unknown = true
severity_is _ _ = false

abbrev pub is_severity : Severity → Vulnerability → Bool
is_severity s v = elim v.severity [ none ↦ false | some r ↦ severity_is s r ]

abbrev pub count_of : Severity → List Vulnerability → ℕ
count_of s vulns = length (filter (is_severity s) vulns)

abbrev pub is_fixed_finding : ℕ → Finding → Bool
is_fixed_finding d l = not (is_open l.status) && is_fixed_by d l.fixed_at

-- The distinct vulnerabilities of some findings.
abbrev pub distinct_ids : List Finding → List ℕ
distinct_ids [] = []
distinct_ids (l ∷ links) = add l.vulnerability_id (distinct_ids links)

module _ (t : MetricTables) where
  -- The finding counts for the day: as it is, if the day is today, or as it was then.
  unfoldable pub counts_for : ℕ → ℕ → Finding → Bool
  unfolding was_actionable is_actionable
  counts_for today d link =
      joined
        (if d == today then is_actionable t.sboms t.acceptances else was_actionable t.acceptances d)
        link (sbom_of t.sboms t.acceptances link)

  -- The vulnerabilities of `total_dict`.
  unfoldable pub counted : ℕ → ℕ → List Vulnerability
  counted today d =
      filter
        (λ v.
          has_severity v
          && any (λ l. l.vulnerability_id == v.id && counts_for today d l) t.findings)
        t.vulnerabilities

  -- `SBOM.created_at <= target_date`: a date is compared as its first instant.
  abbrev is_dependency_by : ℕ → Dependency → Bool
  is_dependency_by d dep =
      any (λ s. s.id == dep.sbom_id && leb s.created_at (d * day_microseconds)) t.sboms

  unfoldable pub metrics : ℕ → ℕ → Snapshot
  unfolding counted counts_for add
  metrics today d =
      let vulns = counted today d in
      record {
        project_id = none;
        snapshot_date = d;
        critical_count = count_of Severity.critical vulns;
        high_count = count_of Severity.high vulns;
        medium_count = count_of Severity.medium vulns;
        low_count = count_of Severity.low vulns;
        fixed_count = length (distinct_ids (filter (is_fixed_finding d) t.findings));
        total_dependencies = length (filter (is_dependency_by d) t.dependencies);
      }

-- The platform-wide row of a day, which the unique index allows once.
abbrev pub is_row_of_day : ℕ → Snapshot → Bool
is_row_of_day d s = s.snapshot_date == d && elim s.project_id [ none ↦ true | some p ↦ false ]

-- `ON CONFLICT ... DO UPDATE`
unfoldable pub upsert_snapshot : Snapshot → List Snapshot → List Snapshot
upsert_snapshot row snapshots =
    if any (is_row_of_day row.snapshot_date) snapshots
    then update_where (is_row_of_day row.snapshot_date) (λ s. row) snapshots
    else snapshots ++ row ∷ []

-- `date.fromisoformat` is a parameter, `none` where it raises ValueError.
abbrev pub target_date : (Text → Option ℕ) → ℕ → Option Text → Outcome ℕ
target_date fromisoformat today none = return today
target_date fromisoformat today (some []) = return today
target_date fromisoformat today (some (c ∷ s)) = elim (fromisoformat (c ∷ s)) [
  | none ↦ raise value_error
  | some d ↦ return d
]

unfoldable pub do_snapshot_metrics :
    (Text → Option ℕ) → ℕ → Option Text → MetricTables → List Snapshot → Outcome (List Snapshot)
unfolding metrics upsert_snapshot
do_snapshot_metrics fromisoformat today snapshot_date t snapshots = do
  d ← target_date fromisoformat today snapshot_date
  return (upsert_snapshot (metrics t today d) snapshots)
