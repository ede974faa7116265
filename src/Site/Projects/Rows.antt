-- ===== src/Site/Projects/Rows.antt =====
-- Where the rows of the list of a project come from.
use argus_sbomguard.Common.{
  Option, none, some, true, List, [], ◌∷◌, filter, find, find-holds, map, contains,
  mem-append-cases, ◌==◌, nat_eq, list_eq, Text, ◌≡◌, refl, Memᴰ, Bool-cases, inl, inr,
  mem-cons_cases,
}
use argus_sbomguard.Models.{Sbom, Finding, Vulnerability, Dependency}
use argus_sbomguard.Alerting.{is_actionable, sbom_of}
use argus_sbomguard.Mcp.Posture.{PostureTables}
use argus_sbomguard.Queries.{LinkRow, link_row, link_rows}
use argus_sbomguard.Site.Projects.{
  PageTables, VulnRow, with_dependencies, rows_of_link, rows_of_links, first_rows,
}

-- A row of the names' query is an actionable finding with its SBOM.
pub record IsLink (t : PostureTables) (row : LinkRow) : Type 0 where
  pub joined_with : sbom_of t.sboms t.acceptances row.0 ≡ some row.1
  pub live : is_actionable t.sboms t.acceptances row.0 row.1 ≡ true

module _ (t : PostureTables) where
  link_row-IsLink :
      {row : LinkRow} (l : Finding) (o : Option Sbom)
      → sbom_of t.sboms t.acceptances l ≡ o
      → Memᴰ row (link_row t l o)
      → IsLink t row
  link_row-IsLink l none e m = elim m [ ]
  link_row-IsLink l (some s) e m = elim (Bool-cases (is_actionable t.sboms t.acceptances l s)) [
    | inr done ↦ elim (rw done at m) [ ]
    | inl live ↦ elim (mem-cons_cases (rw live at m)) [
      | inr more ↦ elim more [ ]
      | inl same ↦ rw same (record { joined_with = e; live = live })
    ]
  ]

  pub link_rows-IsLink :
      {row : LinkRow} (links : List Finding) → Memᴰ row (link_rows t links) → IsLink t row
  unfolding link_rows
  link_rows-IsLink [] m = elim m [ ]
  link_rows-IsLink (l ∷ links) m =
      elim (mem-append-cases (link_row t l (sbom_of t.sboms t.acceptances l)) (link_rows t links)
        m) [
          | inl here ↦ link_row-IsLink l (sbom_of t.sboms t.acceptances l) refl here
          | inr there ↦ link_rows-IsLink links there
        ]

-- The row of the list comes from the row of a finding.
pub record IsFrom (r : VulnRow) (row : LinkRow) : Type 0 where
  pub same_link : r.link ≡ row.0
  pub same_sbom : r.sbom ≡ row.1
  pub same_id : r.vulnerability.id ≡ row.0.vulnerability_id

module _ (t : PageTables) where
  mem-map-IsFrom :
      {r : VulnRow} (row : LinkRow) (v : Vulnerability) (ds : List Dependency)
      → v.id ≡ row.0.vulnerability_id
      → Memᴰ r (
          map
            (λ d. record { link = row.0; sbom = row.1; vulnerability = v; dependency = some d })
            ds)
      → IsFrom r row
  mem-map-IsFrom row v [] e m = elim m [ ]
  mem-map-IsFrom row v (d ∷ ds) e (Memᴰ.head same) =
      rw same (record { same_link = refl; same_sbom = refl; same_id = e })
  mem-map-IsFrom row v (d ∷ ds) e (Memᴰ.tail m) = mem-map-IsFrom row v ds e m

  rows_of_link-IsFrom :
      {r : VulnRow} (row : LinkRow) (o : Option Vulnerability)
      → find (λ v. v.id == row.0.vulnerability_id) t.posture.vulnerabilities ≡ o
      → Memᴰ r (rows_of_link t row o)
      → IsFrom r row
  rows_of_link-IsFrom row none e m = elim m [ ]
  rows_of_link-IsFrom row (some v) e m = from (filter _ t.dependencies) m
    where
      same : v.id ≡ row.0.vulnerability_id
      same =
          (nat_eq.beq_iff v.id row.0.vulnerability_id).0
            (find-holds (λ v. v.id == row.0.vulnerability_id) t.posture.vulnerabilities v e)

      from :
          {r : VulnRow} (ds : List Dependency) → Memᴰ r (with_dependencies row v ds) → IsFrom r row
      from [] (Memᴰ.head h) = rw h (record { same_link = refl; same_sbom = refl; same_id = same })
      from [] (Memᴰ.tail h) = elim h [ ]
      from (d ∷ ds) h = mem-map-IsFrom row v (d ∷ ds) same h

  pub rows_of_links-IsFrom :
      {r : VulnRow} (rows : List LinkRow)
      → Memᴰ r (rows_of_links t rows)
      → (row : LinkRow) × Memᴰ row rows × IsFrom r row
  rows_of_links-IsFrom [] m = elim m [ ]
  rows_of_links-IsFrom (row ∷ rows) m =
      elim (mem-append-cases (rows_of_link t row _) (rows_of_links t rows) m) [
        | inl here ↦ (row, Memᴰ.head refl, rows_of_link-IsFrom row _ refl here)
        | inr there ↦
            let (other, listed, is_from) = rows_of_links-IsFrom rows there in
            (other, Memᴰ.tail listed, is_from)
      ]

  pub mem_of-first_rows :
      {r : VulnRow} (seen : List Text) (rows : List VulnRow)
      → Memᴰ r (first_rows seen rows)
      → Memᴰ r rows
  unfolding first_rows
  mem_of-first_rows seen [] m = m
  mem_of-first_rows seen (row ∷ rows) m =
      elim (Bool-cases (contains seen row.vulnerability.cve_id)) [
        | inl old ↦ Memᴰ.tail (mem_of-first_rows seen rows (rw old at m))
        | inr new ↦ elim (mem-cons_cases (rw new at m)) [
          | inl same ↦ Memᴰ.head same
          | inr later ↦ Memᴰ.tail (mem_of-first_rows (row.vulnerability.cve_id ∷ seen) rows later)
        ]
      ]
