-- ===== src/Examples/Snapshot.antt =====
-- The row of a day with one critical vulnerability, and the same day again.
use argus_sbomguard.Common.{◌+◌, none, not, [], ◌∷◌, filter, length, ◌≡◌, arith, list_eq, nat_eq}
use argus_sbomguard.Models.{Severity, Snapshot}
use argus_sbomguard.Snapshots.{MetricTables, count_of, metrics, is_row_of_day, upsert_snapshot}
use argus_sbomguard.Snapshots.Daily.{upsert_snapshot-row, open_vulnerabilities, metrics-count}
use argus_sbomguard.Examples.Data.{flaw, old_sbom, finding_in}

abbrev tables : MetricTables
tables = record {
  vulnerabilities = flaw ∷ [];
  findings = finding_in 100 ∷ [];
  sboms = old_sbom ∷ [];
  acceptances = [];
  dependencies = [];
}

abbrev morning : Snapshot
morning = record {
  project_id = none;
  snapshot_date = 9;
  critical_count = 0;
  high_count = 0;
  medium_count = 0;
  low_count = 0;
  fixed_count = 0;
  total_dependencies = 0;
}

upsert_snapshot-row_example :
    (filter (is_row_of_day 9) (upsert_snapshot (metrics tables 9 9) (morning ∷ []))
      ≡ metrics tables 9 9 ∷ [])
    × (filter (λ s. not (is_row_of_day 9 s)) (upsert_snapshot (metrics tables 9 9) (morning ∷ []))
        ≡ filter (λ s. not (is_row_of_day 9 s)) (morning ∷ []))
upsert_snapshot-row_example = upsert_snapshot-row 9 9 tables (morning ∷ []) (omega arith)

metrics-count_example :
    (metrics tables 9 9).critical_count
      + ((metrics tables 9 9).high_count
          + ((metrics tables 9 9).medium_count
              + ((metrics tables 9 9).low_count
                  + count_of Severity.unknown (open_vulnerabilities tables))))
    ≡ length (open_vulnerabilities tables)
metrics-count_example = metrics-count tables 9
