-- ===== src/Examples/Scan.antt =====
-- A scan of the newer SBOM.
use argus_sbomguard.Common.{
  ◌+◌, Option, none, some, true, false, [], ◌∷◌, ◌≡◌, refl, All, Memᴰ, Outcome, return, raise, text,
  nat_eq, list_eq, pair_eq, contains,
}
use argus_sbomguard.Common.Json.{Json, str, obj, arr, nil, cons, end, field, truthy, get}
use argus_sbomguard.Models.{Finding, is_open, Severity}
use argus_sbomguard.Scanner.{
  ScanWorld, ScanTables, ScanState, scan_with_grype, process_matches, store_report, fits_columns,
  read_match, Report, is_open_in, reported_ids, older_ids, current_ids, reconcile_vulnerabilities,
  fix_at,
}
use argus_sbomguard.Scanner.Complete.{IsStored, process_matches_complete}
use argus_sbomguard.Scanning.{scan_sbom_row}
use argus_sbomguard.Scanning.Results.{scan_sbom_row-result}
use argus_sbomguard.Examples.Data.{flaw, old_sbom, new_sbom, finding_in, closed_finding}

abbrev match_data : Json
match_data = obj (
    field (text "vulnerability")
      (obj (
        field (text "id") (str (text "CVE-2026-2"))
          (field (text "severity") (str (text "High")) end)))
      (field (text "artifact") (obj (field (text "purl") (str (text "pkg:npm/left-pad@1.3.0")) end))
        end))

abbrev results : Json
results = obj (field (text "matches") (arr (cons match_data nil)) end)

abbrev world : Option Json → ScanWorld
world grype = record {
  now = 5000;
  new_id = λ k. k + 1000;
  other_vulnerabilities = λ k. [];
  other_findings = λ k. [];
  calendar = λ s. none;
  grype = λ raw. grype;
}

abbrev tables : ScanTables
tables = record {
  vulnerabilities = flaw ∷ [];
  findings = finding_in 100 ∷ finding_in 101 ∷ closed_finding ∷ [];
}

abbrev report : Report
report = record {
  vuln_id = text "CVE-2026-2";
  purl = text "pkg:npm/left-pad@1.3.0";
  severity = Severity.high;
  cvss_score = none;
  pub_date = none;
  epss_score = none;
  epss_percentile = none;
  description = some [];
  vuln_data = obj (
      field (text "id") (str (text "CVE-2026-2"))
        (field (text "severity") (str (text "High")) end));
}

reported : read_match (world none).calendar match_data ≡ return (some report)
unfolding read_match
reported = refl

state_or : ScanState → Outcome ScanState → ScanState
state_or st (return st') = st'
state_or st (raise e) = st

abbrev begin : ScanState
begin = record { tables = tables; reported = [] }

after_matches : ScanState
unfolding state_or
after_matches = state_or begin (process_matches (world none) new_sbom 0 (match_data ∷ []) begin)

matches_return :
    process_matches (world none) new_sbom 0 (match_data ∷ []) begin ≡ return after_matches
unfolding after_matches process_matches store_report fits_columns read_match
matches_return = refl

process_matches_complete_example : IsStored (world none) new_sbom report after_matches
process_matches_complete_example =
    process_matches_complete (world none) new_sbom 0 (match_data ∷ []) begin after_matches
      match_data report matches_return (Memᴰ.head refl) reported (λ e. cc)

scan_returns : scan_with_grype (world (some results)) new_sbom tables ≡ return (some after_matches)
unfolding after_matches scan_with_grype process_matches store_report fits_columns read_match get
    truthy
scan_returns = refl

scan_sbom_row-result_example :
    (after : ScanTables) × (scan_sbom_row
        (world (some results))
        (old_sbom ∷ new_sbom ∷ [])
        new_sbom
        tables
      ≡ return after)
    × All
        (λ l.
          is_open_in new_sbom.id l ≡ true
          → contains (reported_ids after_matches.reported after.vulnerabilities) l.vulnerability_id
            ≡ true)
        after.findings
    × ((l : Finding) → Memᴰ l tables.findings → is_open l.status ≡ false → Memᴰ l after.findings)
scan_sbom_row-result_example =
    scan_sbom_row-result (world (some results)) (old_sbom ∷ new_sbom ∷ []) new_sbom tables
      after_matches scan_returns

-- The finding of the older SBOM is closed, since the newer one has none.
reconcile_closes_one :
    reconcile_vulnerabilities 5000 (old_sbom ∷ new_sbom ∷ []) new_sbom (finding_in 100 ∷ [])
    ≡ fix_at 5000 (finding_in 100) ∷ []
unfolding reconcile_vulnerabilities older_ids current_ids
reconcile_closes_one = refl
