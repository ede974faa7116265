-- ===== src/Scanning/Results.antt =====
-- The scan of one SBOM as a whole.
use argus_sbomguard.Common.{
  some, true, false, List, [], ◌++◌, contains, nat_eq, list_eq, ◌≡◌, inl, inr, sym, ap, ◌∙◌, arith,
  Memᴰ, All, All-update_where, mem-append_left, mem-update_where_kept, return, ◌>>=◌, >>=-eq-return,
  Bool-cases, Option-cases, text,
}
use mathlib.Core.List.{append-nil}
use argus_sbomguard.Common.Json.{Json, truthy, get, arr, nil}
use argus_sbomguard.Models.{Finding, Sbom, is_open}
use argus_sbomguard.Scanner.{
  ScanWorld, ScanTables, ScanState, scan_with_grype, process_grype_results, process_matches,
  match_list, retire_stale_vulnerabilities, is_open_in, reported_ids, fix_at,
}
use argus_sbomguard.Scanner.Closing.{is_gone, is_stale, reconcile_lem, retire_lem, retire-closes}
use argus_sbomguard.Scanner.Complete.{process_matches-extends}
use argus_sbomguard.Scanning.{after_scan, scan_sbom_row}

module _ (world : ScanWorld) (sboms : List Sbom) (sbom : Sbom) where
  -- After a scan that did not fail, every open finding of the SBOM is of a reported CVE.
  after_scan-open :
      (st : ScanState)
      → All
          (λ l.
            is_open_in sbom.id l ≡ true
            → contains (reported_ids st.reported st.vulnerabilities) l.vulnerability_id ≡ true)
          (after_scan world sboms sbom st).findings
  unfolding after_scan
  after_scan-open st =
      rw
        (reconcile_lem world.now sboms sbom
          (retire_stale_vulnerabilities world.now sbom st.reported st.vulnerabilities st.findings))
        (All-update_where
          (λ l.
            is_open_in sbom.id l ≡ true
            → contains (reported_ids st.reported st.vulnerabilities) l.vulnerability_id ≡ true)
          (is_gone sboms sbom (
            retire_stale_vulnerabilities world.now sbom st.reported st.vulnerabilities st.findings))
          (fix_at world.now) (λ l h g o. ground arith)
          (retire_stale_vulnerabilities world.now sbom st.reported st.vulnerabilities st.findings)
          (retire-closes world.now sbom st.reported st.vulnerabilities st.findings))

  -- A closed finding passes through the two updates as it is.
  after_scan-closed :
      (st : ScanState) (l : Finding)
      → Memᴰ l st.findings
      → is_open l.status ≡ false
      → Memᴰ l (after_scan world sboms sbom st).findings
  unfolding after_scan
  after_scan-closed st l m h =
      rw
        (reconcile_lem world.now sboms sbom
          (retire_stale_vulnerabilities world.now sbom st.reported st.vulnerabilities st.findings))
        (mem-update_where_kept
          (is_gone sboms sbom (
            retire_stale_vulnerabilities world.now sbom st.reported st.vulnerabilities st.findings))
          (fix_at world.now)
          (retire_stale_vulnerabilities world.now sbom st.reported st.vulnerabilities st.findings)
          (rw (retire_lem world.now sbom st.reported st.vulnerabilities st.findings) (
            mem-update_where_kept (is_stale sbom st.reported st.vulnerabilities) (fix_at world.now)
              st.findings m (ground arith)))
          (ground arith))

  process_extends :
      (results : Json) (tables : ScanTables) (st : ScanState)
      → process_grype_results world sbom results tables ≡ return st
      → (more : List Finding) × (st.findings ≡ tables.findings ++ more)
  unfolding process_grype_results
  process_extends results tables st e =
      let (found, got, rest) =
        >>=-eq-return (get results (text "matches") (arr nil))
          (λ found. match_list world sbom found >>= λ matches.
            process_matches world sbom 0 matches (record { tables = tables; reported = [] }))
          e in
      let (matches, listed, run) =
        >>=-eq-return (match_list world sbom found)
          (λ matches.
            process_matches world sbom 0 matches (record { tables = tables; reported = [] }))
          rest in
      process_matches-extends world sbom 0 matches _ st run

  scan_extends :
      (tables : ScanTables) (st : ScanState)
      → scan_with_grype world sbom tables ≡ return (some st)
      → (more : List Finding) × (st.findings ≡ tables.findings ++ more)
  unfolding scan_with_grype
  scan_extends tables st e = elim (Bool-cases (truthy sbom.raw_sbom)) [
    | inr empty ↦
        let same : record { tables = tables; reported = [] } ≡ st = ground arith in
        ([], ap (λ (t : ScanState). t.findings) (sym same) ∙ sym (append-nil tables.findings))
    | inl full ↦ elim (Option-cases (world.grype sbom.raw_sbom)) [
      | inl failed ↦ cc (rw (full, failed) at e)
      | inr (results, found) ↦
          let (s, run, last) =
            >>=-eq-return (process_grype_results world sbom results tables) (λ s. return (some s))
              (rw (full, found) at e) in
          let same : s ≡ st = cc in process_extends results tables st (rw same at run)
    ]
  ]

-- If the scan of an SBOM does not fail, then what is committed has this: every open finding of the
-- SBOM is of a CVE that the scan reported, and every finding that was closed before the scan is
-- there as it was, so that a scan neither reopens a finding nor moves its date.
pub scan_sbom_row-result :
    (world : ScanWorld) (sboms : List Sbom) (sbom : Sbom) (tables : ScanTables) (st : ScanState)
    → scan_with_grype world sbom tables ≡ return (some st)
    → (after : ScanTables) × (scan_sbom_row world sboms sbom tables ≡ return after)
      × All
          (λ l.
            is_open_in sbom.id l ≡ true
            → contains (reported_ids st.reported after.vulnerabilities) l.vulnerability_id ≡ true)
          after.findings
      × ((l : Finding) → Memᴰ l tables.findings → is_open l.status ≡ false → Memᴰ l after.findings)
unfolding scan_sbom_row
scan_sbom_row-result world sboms sbom tables st e =
    let (more, grown) = scan_extends world sboms sbom tables st e in
    (
      after_scan world sboms sbom st,
      rw e,
      unfold after_scan in after_scan-open world sboms sbom st,
      λ l m h.
          after_scan-closed world sboms sbom st l
            (rw grown (mem-append_left tables.findings more m)) h,
    )
