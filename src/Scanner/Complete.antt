-- ===== src/Scanner/Complete.antt =====
-- The loop over the matches: every report with a package ends as a finding, and the findings that
-- were there before stay as they are.
use argus_sbomguard.Common.{
  ℕ, ◌+◌, Option, none, some, Bool, true, ◌&&◌, List, [], ◌∷◌, ◌++◌, find, any, ◌==◌, nat_eq,
  list_eq, Text, ◌≡◌, ◌≢◌, inl, inr, refl, sym, ap, ◌∙◌, Memᴰ, ==_refl, return, >>=-eq-return,
  ◌>>=◌, any-append_left, any-append_right, any-update_where, mem_of_find, find-holds, any_of_mem,
  Bool-cases,
}
use mathlib.Core.List.{append-nil, append_assoc}
use argus_sbomguard.Common.Json.{Json}
use argus_sbomguard.Models.{Vulnerability, Finding, Sbom}
use argus_sbomguard.Scanner.{
  Report, read_match, ScanWorld, ScanState, stored_report, store_report, fits_columns, store_if_any,
  process_matches, refresh, has_cve, new_vulnerability, new_finding, saved, insert_or_read,
  upsert_found, upsert_vulnerability, is_finding_of, link_vulnerability,
}
use argus_sbomguard.Scanner.Unique.{link_vulnerability-holds}

-- The row has the id and the CVE.
abbrev pub is_row_of : ℕ → Text → Vulnerability → Bool
is_row_of id cve w = w.id == id && w.cve_id == cve

saved-holds :
    (id : ℕ) (cve : Text) (r : Report) (v : Vulnerability) (table : List Vulnerability)
    → any (is_row_of id cve) (saved r v table).1 ≡ any (is_row_of id cve) table
unfolding refresh
saved-holds id cve r v table =
    any-update_where (is_row_of id cve) (λ w. w.id == v.id) (refresh r) (λ w. refl) table

row_of_find :
    (cve : Text) (table : List Vulnerability) (v : Vulnerability)
    → find (has_cve cve) table ≡ some v
    → any (is_row_of v.id cve) table ≡ true
row_of_find cve table v e =
    any_of_mem (is_row_of v.id cve) table (mem_of_find (has_cve cve) table v e)
      (rw (==_refl v.id) (find-holds (has_cve cve) table v e))

module _ (id : ℕ) (r : Report) (others table : List Vulnerability) where
  -- The row that is returned is in the table, under the CVE of the report.
  upsert-holds :
      any
        (is_row_of (upsert_vulnerability id r others table).0.id r.vuln_id)
        (upsert_vulnerability id r others table).1
      ≡ true
  unfolding upsert_vulnerability
  upsert-holds = found (find (has_cve r.vuln_id) table) refl
    where
      inserted :
          (o : Option Vulnerability)
          → find (has_cve r.vuln_id) (table ++ others) ≡ o
          → any
              (is_row_of (insert_or_read id r (table ++ others) o).0.id r.vuln_id)
              (insert_or_read id r (table ++ others) o).1
            ≡ true
      inserted (some v) e =
          saved-holds v.id r.vuln_id r v (table ++ others)
          ∙ row_of_find r.vuln_id (table ++ others) v e
      inserted none e =
          any-append_right (is_row_of id r.vuln_id) (table ++ others)
            (refresh r (new_vulnerability id r) ∷ []) (rw (==_refl id, ==_refl r.vuln_id))

      found :
          (o : Option Vulnerability)
          → find (has_cve r.vuln_id) table ≡ o
          → any
              (is_row_of (upsert_found id r others table o).0.id r.vuln_id)
              (upsert_found id r others table o).1
            ≡ true
      found (some v) e =
          saved-holds v.id r.vuln_id r v (table ++ others)
          ∙ any-append_left (is_row_of v.id r.vuln_id) table others
              (row_of_find r.vuln_id table v e)
      found none e = inserted (find (has_cve r.vuln_id) (table ++ others)) refl

  -- Rows that were there stay, with their ids and CVEs.
  upsert-keeps :
      (j : ℕ) (cve : Text)
      → any (is_row_of j cve) table ≡ true
      → any (is_row_of j cve) (upsert_vulnerability id r others table).1 ≡ true
  unfolding upsert_vulnerability
  upsert-keeps j cve h = found (find (has_cve r.vuln_id) table)
    where
      wide : any (is_row_of j cve) (table ++ others) ≡ true
      wide = any-append_left (is_row_of j cve) table others h

      inserted :
          (o : Option Vulnerability)
          → any (is_row_of j cve) (insert_or_read id r (table ++ others) o).1 ≡ true
      inserted (some v) = saved-holds j cve r v (table ++ others) ∙ wide
      inserted none = any-append_left (is_row_of j cve) (table ++ others) _ wide

      found :
          (o : Option Vulnerability)
          → any (is_row_of j cve) (upsert_found id r others table o).1 ≡ true
      found (some v) = saved-holds j cve r v (table ++ others) ∙ wide
      found none = inserted (find (has_cve r.vuln_id) (table ++ others))

-- A link leaves the table as it is, and may add rows at its end.
link-extends :
    (sbom : Sbom) (purl : Text) (vuln : ℕ) (others table : List Finding)
    → (more : List Finding) × (link_vulnerability sbom purl vuln others table ≡ table ++ more)
unfolding link_vulnerability
link-extends sbom [] vuln others table = (others, refl)
link-extends sbom (c ∷ s) vuln others table =
    elim (Bool-cases (any (is_finding_of sbom.id (c ∷ s) vuln) (table ++ others))) [
      | inl t ↦ (others, rw t)
      | inr f ↦ (others ++ new_finding sbom (c ∷ s) vuln ∷ [], rw f (append_assoc table others _))
    ]

module _ (world : ScanWorld) (sbom : Sbom) where
  -- The report is stored: its vulnerability has a row, and the package a finding of it.
  abbrev pub IsStored : Report → ScanState → Type 0
  IsStored r st =
      (id : ℕ) × (any (is_row_of id r.vuln_id) st.vulnerabilities ≡ true)
      × (any (is_finding_of sbom.id r.purl id) st.findings ≡ true)

  stored_report-IsStored :
      (k : ℕ) (r : Report) (st : ScanState)
      → r.purl ≢ []
      → IsStored r (stored_report world sbom k r st)
  unfolding stored_report
  stored_report-IsStored k r st h = (
    _,
    upsert-holds (world.new_id k) r (world.other_vulnerabilities k) st.vulnerabilities,
    link_vulnerability-holds sbom r.purl _ (world.other_findings k) st.findings h,
  )

  stored_report-keeps :
      (k : ℕ) (q r : Report) (st : ScanState)
      → IsStored r st
      → IsStored r (stored_report world sbom k q st)
  unfolding stored_report
  stored_report-keeps k q r st (id, row, finding) =
      let (more, e) =
        link-extends sbom q.purl
          (upsert_vulnerability (world.new_id k) q (world.other_vulnerabilities k)
            st.vulnerabilities).0.id
          (world.other_findings k) st.findings in
      (
        id,
        upsert-keeps (world.new_id k) q (world.other_vulnerabilities k) st.vulnerabilities id
            r.vuln_id row,
        rw e (any-append_left (is_finding_of sbom.id r.purl id) st.findings more finding),
      )

  store_report-eq-return :
      (k : ℕ) (r : Report) (st after : ScanState)
      → store_report world sbom k r st ≡ return after
      → stored_report world sbom k r st ≡ after
  unfolding store_report
  store_report-eq-return k r st after e = elim (Bool-cases (fits_columns r)) [
    | inl fits ↦ cc (rw fits at e)
    | inr long ↦ cc (rw long at e)
  ]

  -- What each stored report keeps, the loop keeps.
  process_matches-inv {κ} :
      (P : ScanState → Type κ)
      → ((k : ℕ) (r : Report) (st : ScanState) → P st → P (stored_report world sbom k r st))
      → (k : ℕ) (matches : List Json) (st st' : ScanState)
      → process_matches world sbom k matches st ≡ return st'
      → P st
      → P st'
  unfolding process_matches
  process_matches-inv P keep k [] st st' e h = let e' : st ≡ st' = cc in rw (← e') h
  process_matches-inv P keep k (m ∷ rest) st st' e h =
      let (r, read, e1) =
        >>=-eq-return (read_match world.calendar m)
          (λ r. store_if_any world sbom k r st >>= λ after.
            process_matches world sbom (k + 1) rest after)
          e in
      let (after, stored, next) =
        >>=-eq-return (store_if_any world sbom k r st)
          (λ after. process_matches world sbom (k + 1) rest after) e1 in
      process_matches-inv P keep (k + 1) rest after st' next (one r after stored)
    where
      one :
          (r : Option Report) (after : ScanState)
          → store_if_any world sbom k r st ≡ return after
          → P after
      one none after stored = let same : st ≡ after = cc in rw (← same) h
      one (some r) after stored = rw (← store_report-eq-return k r st after stored) (keep k r st h)

  -- If the loop over the matches returns, then each match that reports a CVE for a package with a
  -- purl has a vulnerability of that CVE and a finding of it in the SBOM, whatever other scans commit.
  pub process_matches_complete :
      (k : ℕ) (matches : List Json) (st st' : ScanState) (m : Json) (r : Report)
      → process_matches world sbom k matches st ≡ return st'
      → Memᴰ m matches
      → read_match world.calendar m ≡ return (some r)
      → r.purl ≢ []
      → IsStored r st'
  unfolding process_matches
  process_matches_complete k [] st st' m r e mem read h = elim mem [ ]
  process_matches_complete k (x ∷ rest) st st' m r e (Memᴰ.head same) read h =
      let read' : read_match world.calendar x ≡ return (some r) = rw (← same) read in
      let (after, stored, next) =
        >>=-eq-return (store_report world sbom k r st)
          (λ after. process_matches world sbom (k + 1) rest after) (rw read' at e) in
      process_matches-inv (IsStored r) (λ j q t. stored_report-keeps j q r t) (k + 1) rest after st'
        next (rw (← store_report-eq-return k r st after stored) (stored_report-IsStored k r st h))
  process_matches_complete k (x ∷ rest) st st' m r e (Memᴰ.tail mem) read h =
      let (q, read_x, e1) =
        >>=-eq-return (read_match world.calendar x)
          (λ q. store_if_any world sbom k q st >>= λ after.
            process_matches world sbom (k + 1) rest after)
          e in
      let (after, stored, next) =
        >>=-eq-return (store_if_any world sbom k q st)
          (λ after. process_matches world sbom (k + 1) rest after) e1 in
      process_matches_complete (k + 1) rest after st' m r next mem read h

  stored_report-extends :
      (k : ℕ) (r : Report) (st : ScanState)
      → (more : List Finding) × ((stored_report world sbom k r st).findings ≡ st.findings ++ more)
  unfolding stored_report
  stored_report-extends k r st = link-extends sbom r.purl _ (world.other_findings k) st.findings

  -- If the loop over the matches returns, the findings that were there are unchanged and in their
  -- order, and new ones stand behind them.
  pub process_matches-extends :
      (k : ℕ) (matches : List Json) (st st' : ScanState)
      → process_matches world sbom k matches st ≡ return st'
      → (more : List Finding) × (st'.findings ≡ st.findings ++ more)
  process_matches-extends k matches st st' e =
      process_matches-inv (λ t. (more : List Finding) × (t.findings ≡ st.findings ++ more)) step k
        matches st st' e ([], sym (append-nil st.findings))
    where
      step :
          (j : ℕ) (r : Report) (t : ScanState)
          → (more : List Finding) × (t.findings ≡ st.findings ++ more)
          → (more : List Finding) × ((stored_report world sbom j r t).findings
              ≡ st.findings ++ more)
      step j r t (more, same) =
          let (added, e) = stored_report-extends j r t in
          (more ++ added, e ∙ ap (λ l. l ++ added) same ∙ append_assoc st.findings more added)
