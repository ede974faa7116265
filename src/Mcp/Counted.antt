-- ===== src/Mcp/Counted.antt =====
-- The counts of an SBOM and its list of findings agree.
use argus_sbomguard.Common.{
  ℕ, ◌+◌, ◌-◌, min, Option, none, Bool, true, not, List, [], ◌∷◌, filter, map, length, take, drop,
  ltb, ◌≡◌, refl, sym, ap, ◌∙◌, arith, length-map, length-take, length-drop, Text, return,
  >>=-eq-return,
}
use argus_sbomguard.Models.{Sbom, is_open}
use argus_sbomguard.Mcp.Paging.{ℤ, validate_page, fetched, page_of, order_by}
use argus_sbomguard.Mcp.Totals.{sum_of-tally}
use argus_sbomguard.Mcp.Walk.{has_more-page_of}
use argus_sbomguard.Mcp.Detail.{
  DetailTables, SbomDetail, SbomPage, SbomVulnerabilityItem, FindingRow, load_sbom, finding_rows,
  detail, sbom_page, get_sbom, get_sbom_vulnerabilities, service_name_of_sbom, name_of_project,
  all_items, finding_before,
}

-- Every row passes or fails a test.
length-filter-not :
    {A : Type 0} (p : A → Bool) (xs : List A)
    → length (filter p xs) + length (filter (λ x. not (p x)) xs) ≡ length xs
length-filter-not p [] = refl
length-filter-not p (x ∷ xs) = ground (arith, length-filter-not p xs)

filter_all : {A : Type 0} (xs : List A) → filter (λ x. true) xs ≡ xs
filter_all [] = refl
filter_all (x ∷ xs) = ap (◌∷◌ x) (filter_all xs)

-- Both kinds of pages tell in their own way whether there is more, and say the same.
pub has_more-sbom_page :
    {A B C : Type 0} (s : Sbom) (item : A → B) (rows : List A) (offset limit : ℕ) (shown : List C)
    → (sbom_page s rows (offset, limit) shown).has_more
      ≡ (page_of item rows (offset, limit)).has_more
has_more-sbom_page s item rows offset limit shown =
    ap (ltb limit)
      (length-take (limit + 1) (drop offset rows) ∙ ap (min (limit + 1)) (length-drop offset rows))
    ∙ same (length rows)
    ∙ sym (has_more-page_of item rows limit offset)
  where
    same :
        (n : ℕ) → ltb limit (min (limit + 1) (n - offset)) ≡ ltb (offset + min limit (n - offset)) n
    same n = ground arith

module _ (uuid : Text → Option ℕ) (t : DetailTables) (sbom_id : Text) where
  pub of_detail :
      (d : SbomDetail)
      → get_sbom uuid t sbom_id ≡ return d
      → (s : Sbom) × (load_sbom uuid t sbom_id ≡ return s)
        × (project : Text) × (service : Option Text) × (detail uuid t s project service
              (finding_rows uuid t s t.findings)
            ≡ d)
  unfolding get_sbom
  of_detail d e =
      let (s, loaded, e1) = >>=-eq-return (load_sbom uuid t sbom_id) _ e in
      let (project, found, e2) = >>=-eq-return (name_of_project uuid t s.project_id) _ e1 in
      let (service, found', e3) = >>=-eq-return (service_name_of_sbom uuid t s.service_id) _ e2 in
      (s, loaded, project, service, cc e3)

  of_page :
      (collate ilike : Text → Text → Bool) (offset limit : ℤ) (p : SbomPage SbomVulnerabilityItem)
      → get_sbom_vulnerabilities uuid t collate ilike sbom_id offset limit none none ≡ return p
      → (s : Sbom) × (load_sbom uuid t sbom_id ≡ return s)
        × (length (finding_rows uuid t s t.findings) ≡ p.total)
  unfolding get_sbom_vulnerabilities
  of_page collate ilike offset limit p e =
      let (window, valid, e1) = >>=-eq-return (validate_page offset limit) _ e in
      let (s, loaded, e2) = >>=-eq-return (load_sbom uuid t sbom_id) _ e1 in
      let rows = filter (λ (r : FindingRow). true) (finding_rows uuid t s t.findings) in
      let (shown, listed, e3) =
        >>=-eq-return
          (all_items (take window.1 (fetched (order_by (finding_before collate) rows) window))) _
          e2 in
      let same : sbom_page s rows window shown ≡ p = cc e3 in
      (
        s,
        loaded,
        ap length (sym (filter_all (finding_rows uuid t s t.findings))) ∙ ap (λ q. q.total) same,
      )

  -- If `get_sbom` returns the counts of an SBOM, the findings that it counts as open and as fixed
  -- are as many as its counts by severity add up to, and as the total of every page of the findings
  -- of the SBOM that is asked for without a status or severity.
  pub get_sbom-total :
      (collate ilike : Text → Text → Bool) (offset limit : ℤ) (d : SbomDetail)
      (p : SbomPage SbomVulnerabilityItem)
      → get_sbom uuid t sbom_id ≡ return d
      → get_sbom_vulnerabilities uuid t collate ilike sbom_id offset limit none none ≡ return p
      → (d.total ≡ d.open_count + d.fixed_count) × (p.total ≡ d.total)
  get_sbom-total collate ilike offset limit d p e f =
      let (s, loaded, project, service, same) = of_detail d e in
      let (s', loaded', count) = of_page collate ilike offset limit p f in
      let rows = finding_rows uuid t s t.findings in
      let both : s ≡ s' = cc (loaded, loaded') in
      let total : d.total ≡ length rows =
        ap (λ x. x.total) (sym same)
        ∙ sum_of-tally (map (λ r. r.0.severity) rows)
        ∙ length-map (λ r. r.0.severity) rows in
      let split : length rows ≡ d.open_count + d.fixed_count =
        sym (length-filter-not (λ r. is_open r.1.status) rows)
        ∙ ap (λ x. x.open_count + x.fixed_count) same in
      (
        total ∙ split,
        sym count ∙ ap (λ x. length (finding_rows uuid t x t.findings)) (sym both) ∙ sym total,
      )
