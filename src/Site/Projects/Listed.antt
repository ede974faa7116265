-- ===== src/Site/Projects/Listed.antt =====
-- Which vulnerabilities the list of a project shows.
use argus_sbomguard.Common.{
  ℕ, Option, none, some, Bool, true, false, not, ◌&&◌, ◌||◌, List, [], ◌∷◌, find, any, any-filter,
  any-append, map, map-map, contains, contains-map, IsUnique, ◌==◌, nat_eq, list_eq, Text, ◌≡◌,
  refl, sym, ap, ◌∙◌, arith, Bool-cases, inl, inr, return, ◌>>=◌, >>=-eq-return, ==_refl,
}
use argus_sbomguard.Models.{Sbom, Finding, Vulnerability, Dependency}
use argus_sbomguard.Alerting.{is_actionable, sbom_of}
use argus_sbomguard.Snapshots.{joined}
use argus_sbomguard.Queries.{LinkRow, link_rows}
use argus_sbomguard.Queries.Members.{any-order_by}
use argus_sbomguard.Queries.Names.{any-link_rows}
use argus_sbomguard.Site.Labels.{extra_of}
use argus_sbomguard.Site.Projects.{
  PageTables, VulnRow, Entry, cve_of, first_rows, entry_of, entries_of, get_project_vulns,
  latest_sboms, vuln_rows, entry_with, with_dependencies, rows_of_link, rows_of_links,
}

same_cve :
    (seen : List Text) (row : VulnRow) (c : Text)
    → (cve_of row == c) ≡ true
    → contains seen (cve_of row) ≡ contains seen c
same_cve seen row c h = ap (contains seen) ((list_eq.beq_iff (cve_of row) c).0 h)

-- A line is opened for the CVEs that were not seen.
contains-first_rows :
    (seen : List Text) (rows : List VulnRow) (c : Text)
    → contains (map cve_of (first_rows seen rows)) c
      ≡ (not (contains seen c) && contains (map cve_of rows) c)
unfolding first_rows
contains-first_rows seen [] c = ground arith
contains-first_rows seen (row ∷ rows) c = elim (Bool-cases (contains seen (cve_of row))) [
  | inl t ↦ rw t (contains-first_rows seen rows c ∙ ground (arith, same_cve seen row c))
  | inr f ↦ rw f (
      ap (◌||◌ (cve_of row == c)) (contains-first_rows (cve_of row ∷ seen) rows c)
      ∙ ground (arith, same_cve seen row c))
]

first_rows-IsUnique :
    (seen : List Text) (rows : List VulnRow) → IsUnique (map cve_of (first_rows seen rows))
unfolding first_rows
first_rows-IsUnique seen [] = tt
first_rows-IsUnique seen (row ∷ rows) = elim (Bool-cases (contains seen (cve_of row))) [
  | inl t ↦ rw t (first_rows-IsUnique seen rows)
  | inr f ↦ rw f (
    contains-first_rows (cve_of row ∷ seen) rows (cve_of row) ∙ rw (==_refl (cve_of row)) refl,
    first_rows-IsUnique (cve_of row ∷ seen) rows,
  )
]

abbrev pub cve_of_entry : Entry → Text
cve_of_entry entry = entry.vulnerability.cve_id

module _ (format_dt : ℕ → Text) (t : PageTables) where
  pub entry_of-eq-return :
      (rows : List VulnRow) (row : VulnRow) (entry : Entry)
      → entry_of format_dt t rows row ≡ return entry
      → entry.vulnerability ≡ row.vulnerability
  unfolding entry_of
  entry_of-eq-return rows row entry e =
      let (extra, _, made) =
        >>=-eq-return (extra_of row.vulnerability)
          (λ extra. return (entry_with format_dt t rows row extra)) e in
      let same : entry_with format_dt t rows row extra ≡ entry = cc in
      sym (ap (λ (entry : Entry). entry.vulnerability) same) ∙ (unfold entry_with in refl)

  pub vulnerabilities-entries_of :
      (rows others : List VulnRow) (entries : List Entry)
      → entries_of format_dt t rows others ≡ return entries
      → map (λ (entry : Entry). entry.vulnerability) entries
        ≡ map (λ (row : VulnRow). row.vulnerability) others
  vulnerabilities-entries_of rows [] entries e =
      let none_left : [] ≡ entries = cc in rw (← none_left) refl
  vulnerabilities-entries_of rows (row ∷ others) entries e =
      let (entry, one, more) =
        >>=-eq-return (entry_of format_dt t rows row)
          (λ entry. entries_of format_dt t rows others >>= (λ rest. return (entry ∷ rest))) e in
      let (rest, all_rest, made) =
        >>=-eq-return (entries_of format_dt t rows others) (λ rest. return (entry ∷ rest)) more in
      let same : entry ∷ rest ≡ entries = cc in
      rw (← same) (λ i.
        entry_of-eq-return rows row entry one i
        ∷ vulnerabilities-entries_of rows others rest all_rest i)

-- The vulnerability of a finding has the CVE.
abbrev pub has_cve : Text → Option Vulnerability → Bool
has_cve c none = false
has_cve c (some v) = v.cve_id == c

module _ (t : PageTables) (c : Text) where
  abbrev vulnerability_of : LinkRow → Option Vulnerability
  vulnerability_of row = find (λ v. v.id == row.0.vulnerability_id) t.posture.vulnerabilities

  any-with_dependencies :
      (row : LinkRow) (v : Vulnerability) (ds : List Dependency)
      → any (λ r. cve_of r == c) (with_dependencies row v ds) ≡ (v.cve_id == c)
  any-with_dependencies row v [] = ground arith
  any-with_dependencies row v (d ∷ []) = ground arith
  any-with_dependencies row v (d ∷ e ∷ ds) = ground (arith, any-with_dependencies row v (e ∷ ds))

  any-rows_of_link :
      (row : LinkRow) (o : Option Vulnerability)
      → any (λ r. cve_of r == c) (rows_of_link t row o) ≡ has_cve c o
  any-rows_of_link row none = refl
  any-rows_of_link row (some v) = any-with_dependencies row v _

  any-rows_of_links :
      (rows : List LinkRow)
      → any (λ r. cve_of r == c) (rows_of_links t rows)
        ≡ any (λ row. has_cve c (vulnerability_of row)) rows
  any-rows_of_links [] = refl
  any-rows_of_links (row ∷ rows) =
      any-append (λ r. cve_of r == c) (rows_of_link t row (vulnerability_of row))
        (rows_of_links t rows)
      ∙ ground (arith, any-rows_of_link row (vulnerability_of row), any-rows_of_links rows)

  -- The finding is actionable, in one of the SBOMs, and of the CVE.
  abbrev pub is_shown : List Sbom → Finding → Bool
  is_shown latest link =
      joined
        (λ l s.
          is_actionable t.posture.sboms t.posture.acceptances l s
          && (contains (map (λ s. s.id) latest) l.sbom_id
              && has_cve c (find (λ v. v.id == l.vulnerability_id) t.posture.vulnerabilities)))
        link (sbom_of t.posture.sboms t.posture.acceptances link)

  contains-vuln_rows :
      (latest : List Sbom)
      → contains (map cve_of (vuln_rows t latest)) c ≡ any (is_shown latest) t.posture.findings
  unfolding vuln_rows
  contains-vuln_rows latest =
      contains-map cve_of _ c
      ∙ any-order_by _ (λ r. cve_of r == c) _
      ∙ any-rows_of_links _
      ∙ any-filter _ _ (link_rows t.posture t.posture.findings)
      ∙ any-link_rows _ t.posture t.posture.findings

-- The list of a project has one line for each CVE, and a line for a CVE exactly if an actionable
-- finding of it is in the latest SBOM of a service of the project, or in the latest one without a
-- service.
pub get_project_vulns_listed :
    (format_dt : ℕ → Text) (t : PageTables) (project : ℕ) (service : Option ℕ)
    (entries : List Entry) (c : Text)
    → get_project_vulns format_dt t project service ≡ return entries
    → IsUnique (map cve_of_entry entries)
      × (contains (map cve_of_entry entries) c
          ≡ any (is_shown t c (latest_sboms project service t.posture.sboms)) t.posture.findings)
unfolding get_project_vulns
get_project_vulns_listed format_dt t project service entries c e =
    let rows = vuln_rows t (latest_sboms project service t.posture.sboms) in
    let cves : map cve_of_entry entries ≡ map cve_of (first_rows [] rows) =
      map-map _ _ entries
      ∙ ap (map (λ (v : Vulnerability). v.cve_id))
          (vulnerabilities-entries_of format_dt t rows (first_rows [] rows) entries e)
      ∙ sym (map-map _ _ (first_rows [] rows)) in
    rw cves (
      first_rows-IsUnique [] rows,
      contains-first_rows [] rows c
          ∙ contains-vuln_rows t c (latest_sboms project service t.posture.sboms),
    )
