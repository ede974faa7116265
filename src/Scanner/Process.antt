-- ===== src/Scanner/Process.antt =====
-- `_process_grype_results` and `scan_with_grype`.
use argus_sbomguard.Common.{
  ℕ, ◌+◌, Option, none, some, List, [], ◌∷◌, ◌++◌, Text, text, Outcome, return, raise, ◌>>=◌,
  type_error, data_error, Bool, leb, length, ◌&&◌, if◌then◌else◌,
}
use argus_sbomguard.Common.Json.{Json, arr, nil, truthy, get, items}
use argus_sbomguard.Models.{Vulnerability, Finding, Sbom}
use argus_sbomguard.Scanner.Match.{Report, Calendar, read_match}
use argus_sbomguard.Scanner.Store.{upsert_vulnerability, link_vulnerability}

-- What is outside of the scan: the clock, the ids of new rows, the rows that other scans commit
-- while this one works on its k-th match, the calendar, and grype (`none`: the
-- scan failed, or printed `null`).
pub record ScanWorld : Type 0 where
  pub now : ℕ
  pub new_id : ℕ → ℕ
  pub other_vulnerabilities : ℕ → List Vulnerability
  pub other_findings : ℕ → List Finding
  pub calendar : Calendar
  pub grype : Json → Option Json

pub record ScanTables : Type 0 where
  pub vulnerabilities : List Vulnerability
  pub findings : List Finding

-- The tables, and the ids that were reported, in order.
pub record ScanState : Type 0 where
  pub tables : ScanTables
  pub open tables use *
  pub reported : List Text

-- The columns `cve_id`, of 50 characters, and `dependency_purl`, of 1024.
unfoldable pub fits_columns : Report → Bool
fits_columns r = leb (length r.vuln_id) 50 && leb (length r.purl) 1024

module _ (world : ScanWorld) (sbom : Sbom) where
  -- The tables behind a report that the database takes.
  unfoldable pub stored_report : ℕ → Report → ScanState → ScanState
  stored_report k r st =
      let (v, vulnerabilities) =
        upsert_vulnerability (world.new_id k) r (world.other_vulnerabilities k)
          st.vulnerabilities in
      record {
        tables = record {
          vulnerabilities = vulnerabilities;
          findings = link_vulnerability sbom r.purl v.id (world.other_findings k) st.findings;
        };
        reported = st.reported ++ r.vuln_id ∷ [];
      }

  -- A longer value is a DataError of the insert, which is not caught. No row has one, so it would be a
  -- new row in each case.
  unfoldable pub store_report : ℕ → Report → ScanState → Outcome ScanState
  unfolding stored_report fits_columns
  store_report k r st = if fits_columns r then return (stored_report k r st) else raise data_error

  abbrev pub store_if_any : ℕ → Option Report → ScanState → Outcome ScanState
  store_if_any k none st = return st
  store_if_any k (some r) st = store_report k r st

  unfoldable pub process_matches : ℕ → List Json → ScanState → Outcome ScanState
  unfolding store_report
  process_matches k [] st = return st
  process_matches k (m ∷ rest) st =
      let next = process_matches (k + 1) rest in
      do r ← read_match world.calendar m; after ← store_if_any k r st; next after

  abbrev pub match_list : Json → Outcome (List Json)
  match_list (arr l) = return (items l)
  match_list _ = raise type_error

  unfoldable pub process_grype_results : Json → ScanTables → Outcome ScanState
  unfolding process_matches
  process_grype_results results tables = do
    found ← get results (text "matches") (arr nil)
    matches ← match_list found
    process_matches 0 matches (record { tables = tables; reported = [] })

  abbrev pub process_if_any : Option Json → ScanTables → Outcome (Option ScanState)
  process_if_any none tables = return none
  process_if_any (some results) tables = do
    st ← process_grype_results results tables
    return (some st)

  -- `none`: the scan failed.
  unfoldable pub scan_with_grype : ScanTables → Outcome (Option ScanState)
  unfolding process_grype_results
  scan_with_grype tables =
      if truthy sbom.raw_sbom
      then process_if_any (world.grype sbom.raw_sbom) tables
      else return (some (record { tables = tables; reported = [] }))
