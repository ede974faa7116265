-- ===== src/Scanning.antt =====
-- services/scanning.py: the scan of one SBOM, and the SBOMs that are rescanned.
pub mod Results
pub mod Latest
use argus_sbomguard.Common.{
  ℕ, suc, Option, none, some, Bool, not, ◌&&◌, ◌||◌, List, [], ◌∷◌, map, filter, find, length, ltb,
  ◌==◌, nat_eq, option_eq, Text, Outcome, return, raise, ◌>>=◌,
}
use argus_sbomguard.Models.{Sbom}
use argus_sbomguard.Scanner.{
  ScanWorld, ScanTables, ScanState, scan_with_grype, retire_stale_vulnerabilities,
  reconcile_vulnerabilities,
}

module _ (world : ScanWorld) (sboms : List Sbom) where
  -- The two updates behind a scan that did not fail.
  unfoldable pub after_scan : Sbom → ScanState → ScanTables
  after_scan sbom st = record {
    vulnerabilities = st.vulnerabilities;
    findings =
        reconcile_vulnerabilities world.now sboms sbom
          (retire_stale_vulnerabilities world.now sbom st.reported st.vulnerabilities st.findings);
  }

  abbrev after_scan_of : Sbom → ScanTables → Option ScanState → ScanTables
  after_scan_of sbom tables none = tables
  after_scan_of sbom tables (some st) = after_scan sbom st

  unfoldable pub scan_sbom_row : Sbom → ScanTables → Outcome ScanTables
  unfolding after_scan
  scan_sbom_row sbom tables = do
    st ← scan_with_grype world sbom tables
    return (after_scan_of sbom tables st)

  abbrev scan_row : Option Sbom → ScanTables → Outcome ScanTables
  scan_row none tables = return tables
  scan_row (some sbom) tables = scan_sbom_row sbom tables

  abbrev scan_id : Option ℕ → ScanTables → Outcome ScanTables
  scan_id none tables = return tables
  scan_id (some k) tables = scan_row (find (λ s. s.id == k) sboms) tables

  -- The tables as they are committed. `parse_uuid` is `uuid.UUID`, `none` where it raises
  -- ValueError. An exception leaves the transaction uncommitted.
  unfoldable pub do_scan_sbom : (Text → Option ℕ) → Text → ScanTables → Outcome ScanTables
  unfolding scan_sbom_row
  do_scan_sbom parse_uuid sbom_id tables = scan_id (parse_uuid sbom_id) tables

-- The scope of an SBOM in `PARTITION BY project_id, service_id`.
unfoldable pub same_scope : Sbom → Sbom → Bool
same_scope a b = a.project_id == b.project_id && option_eq.beq a.service_id b.service_id

-- `ORDER BY uploaded_at DESC, id DESC`: `a` comes before `b`.
unfoldable pub ranks_before : Sbom → Sbom → Bool
ranks_before a b =
    ltb b.uploaded_at a.uploaded_at || (a.uploaded_at == b.uploaded_at && ltb b.id a.id)

-- `row_number()` over the scope.
unfoldable pub row_number : List Sbom → Sbom → ℕ
unfolding same_scope ranks_before
row_number sboms s = suc (length (filter (λ t. same_scope t s && ranks_before t s) sboms))

-- The column of the raw document is never NULL, so the query's condition on it always holds.
unfoldable pub latest_sbom_ids : List Sbom → List ℕ
unfolding row_number
latest_sbom_ids sboms = map (λ s. s.id) (filter (λ s. row_number sboms s == 1) sboms)
