-- ===== src/Queries/Total.antt =====
-- The list of the active vulnerabilities, the summary of the posture and the alerts agree on what is
-- open.
use argus_sbomguard.Common.{
  ℕ, Option, none, some, Bool, true, ◌&&◌, ◌||◌, List, [], ◌∷◌, ◌++◌, filter-congr, any, any-congr,
  contains-add, mem-filter, mem_of_mem-filter, contains, length, ◌==◌, nat_eq, pair_eq, Text, ◌≡◌,
  ◌↔◌, refl, sym, ap, ◌∙◌, arith, Bool-cases, inl, inr, Memᴰ,
}
use argus_sbomguard.Models.{Vulnerability, Finding, Sbom}
use argus_sbomguard.Alerting.{OpenRow, open_rows, open_pairs, is_actionable, sbom_of, row_of}
use argus_sbomguard.Snapshots.{joined}
use argus_sbomguard.Pagination.{paginate}
use argus_sbomguard.Mcp.Posture.{PostureTables, open_now, summarize_vulnerabilities}
use argus_sbomguard.Mcp.Totals.{summarize_vulnerabilities-total}
use argus_sbomguard.Queries.{
  Filters, no_filters, is_selected, selected, QueryTables, active_vulnerabilities,
  apply_vuln_ordering, vuln_before,
}
use argus_sbomguard.Queries.Order.{length-order_by}

module _ (ilike : Text → Text → Bool) (t : PostureTables) where
  -- No filter leaves out an actionable finding.
  joined-no_filters :
      (l : Finding) (o : Option Sbom)
      → joined (is_selected t no_filters) l o ≡ joined (is_actionable t.sboms t.acceptances) l o
  unfolding is_selected
  joined-no_filters l none = refl
  joined-no_filters l (some s) = ground arith

  pub selected-open_now : selected ilike t no_filters ≡ open_now t
  unfolding selected open_now
  selected-open_now =
      filter-congr _ _
        (λ v.
          any-congr _ _
            (λ l.
              ap (λ b. l.vulnerability_id == v.id && b)
                (joined-no_filters l (sbom_of t.sboms t.acceptances l)))
            t.findings)
        t.vulnerabilities

-- Without filters, the list of active vulnerabilities counts as many as the summary does.
pub active_vulnerabilities-total :
    (ilike : Text → Text → Bool) (t : QueryTables) (page per_page : ℕ) (sort order : Text)
    → (active_vulnerabilities ilike t page per_page no_filters sort order).total
      ≡ (summarize_vulnerabilities t.posture).total
unfolding active_vulnerabilities paginate apply_vuln_ordering
active_vulnerabilities-total ilike t page per_page sort order =
    length-order_by (vuln_before sort order) (selected ilike t.posture no_filters)
    ∙ ap length (selected-open_now ilike t.posture)
    ∙ sym (summarize_vulnerabilities-total t.posture).4

module _ (ilike : Text → Text → Bool) (t : PostureTables) (project : ℕ) where
  abbrev pub of_project : Filters
  of_project = record no_filters { project_id = some project }

  contains-row_of :
      (k : ℕ) (l : Finding) (o : Option Sbom) (rows : List OpenRow) (b : Bool)
      → b ≡ contains (open_pairs rows) (project, k)
      → (l.vulnerability_id == k && joined (is_selected t of_project) l o || b)
        ≡ contains (open_pairs (row_of t.sboms t.acceptances l o ++ rows)) (project, k)
  unfolding is_selected open_pairs
  contains-row_of k l none rows b h = ground arith
  contains-row_of k l (some s) rows b h =
      elim (Bool-cases (is_actionable t.sboms t.acceptances l s)) [
        | inr done ↦ rw done (ground arith)
        | inl live ↦ rw live (
            (ground arith)
            ∙ sym (contains-add (s.project_id, l.vulnerability_id) (project, k) (open_pairs rows)))
      ]

  contains-open_pairs :
      (k : ℕ) (links : List Finding)
      → any
          (λ l.
            l.vulnerability_id == k
            && joined (is_selected t of_project) l (sbom_of t.sboms t.acceptances l))
          links
        ≡ contains (open_pairs (open_rows t.sboms t.acceptances links)) (project, k)
  unfolding open_rows open_pairs
  contains-open_pairs k [] = refl
  contains-open_pairs k (l ∷ links) =
      contains-row_of k l (sbom_of t.sboms t.acceptances l) (open_rows t.sboms t.acceptances links)
        _ (contains-open_pairs k links)

-- A vulnerability is listed for a project exactly if the alerts see it as open in the project.
pub selected-iff-open_pairs :
    (ilike : Text → Text → Bool) (t : PostureTables) (project : ℕ) (v : Vulnerability)
    → Memᴰ v (selected ilike t (of_project ilike t project)) ↔ (
        Memᴰ v t.vulnerabilities
        × (contains (open_pairs (open_rows t.sboms t.acceptances t.findings)) (project, v.id)
            ≡ true))
unfolding selected
selected-iff-open_pairs ilike t project v = (
  λ m.
      (let (listed, h) = mem_of_mem-filter _ t.vulnerabilities m in
        (listed, sym (contains-open_pairs ilike t project v.id t.findings) ∙ h)),
  λ (listed, h).
      mem-filter _ t.vulnerabilities listed
        (contains-open_pairs ilike t project v.id t.findings ∙ h),
)
