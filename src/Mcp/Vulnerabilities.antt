-- ===== src/Mcp/Vulnerabilities.antt =====
-- services/mcp_server.py: `list_vulnerabilities`, over the query of the API. Its project and service
-- are read as UUIDs.
use argus_sbomguard.Common.{
  ℕ, Option, none, Bool, List, [], ◌∷◌, take, length, ltb, Text, text, Outcome, return, ◌>>=◌, ◌≡◌,
  sym, ap, ◌∙◌, >>=-eq-return,
}
use argus_sbomguard.Common.Json.{Json}
use argus_sbomguard.Models.{Vulnerability}
use argus_sbomguard.Mcp.Fix.{fix_info}
use argus_sbomguard.Mcp.Paging.{
  ℤ, validate_page, McpPage, page_fields, fetched, uuid_if_given, order_by,
}
use argus_sbomguard.Mcp.Posture.{summarize_vulnerabilities}
use argus_sbomguard.Mcp.Totals.{summarize_vulnerabilities-total}
use argus_sbomguard.Queries.{
  Filters, no_filters, selected, then_by, vuln_before, QueryTables, projects_of, services_named,
  sorted, names_of, link_rows,
}
use argus_sbomguard.Queries.Order.{length-order_by}
use argus_sbomguard.Queries.Total.{selected-open_now}

pub record VulnerabilityItem : Type 0 where
  pub vulnerability : Vulnerability
  pub projects : List Text
  pub services : List Text
  pub dependency_purls : List Text
  pub fixed_versions : List Json
  pub fix_state : Json

module _ (ilike : Text → Text → Bool) (uuid : Text → Option ℕ) (t : QueryTables) where
  unfoldable pub dependency_purls : ℕ → List Text
  unfolding names_of link_rows order_by
  dependency_purls k =
      sorted (names_of (λ row. row.0.dependency_purl) k (link_rows t.posture t.posture.findings))

  unfoldable pub list_item : Vulnerability → Outcome VulnerabilityItem
  unfolding projects_of services_named dependency_purls fix_info
  list_item v = do
    (fixed_versions, fix_state) ← fix_info v
    return (record {
      vulnerability = v;
      projects = projects_of t v.id;
      services = services_named t v.id;
      dependency_purls = dependency_purls v.id;
      fixed_versions = fixed_versions;
      fix_state = fix_state;
    })

  abbrev list_items : List Vulnerability → Outcome (List VulnerabilityItem)
  list_items [] = return []
  list_items (v ∷ vulns) = do item ← list_item v; rest ← list_items vulns; return (item ∷ rest)

  -- The least urgent severity first, the ids among equal rows.
  abbrev list_before : Vulnerability → Vulnerability → Bool
  list_before = then_by (vuln_before (text "severity") (text "desc")) (λ a b. ltb a.id b.id)

  unfoldable pub vulnerability_page : Filters → ℕ × ℕ → Outcome (McpPage VulnerabilityItem)
  unfolding selected list_item order_by vuln_before
  vulnerability_page f window = do
    let rows = order_by list_before (selected ilike t.posture f)
    items ← list_items (take window.1 (fetched rows window))
    return (page_fields items (length rows) window.0 window.1)

  abbrev filters_of : Option Text → Option ℕ → Option ℕ → Option Text → Filters
  filters_of severity project service cve_id = record {
    severity = severity;
    project_id = project;
    service_id = service;
    cve_id = cve_id;
  }

  unfoldable pub list_vulnerabilities :
      Option Text
      → Option Text
      → Option Text
      → Option Text
      → ℤ
      → ℤ
      → Outcome (McpPage VulnerabilityItem)
  unfolding vulnerability_page
  list_vulnerabilities severity project_id service_id cve_id offset limit = do
    window ← validate_page offset limit
    project ← uuid_if_given uuid project_id
    service ← uuid_if_given uuid service_id
    vulnerability_page (filters_of severity project service cve_id) window

  vulnerability_page-total :
      (f : Filters) (window : ℕ × ℕ) (page : McpPage VulnerabilityItem)
      → vulnerability_page f window ≡ return page
      → page.total ≡ length (selected ilike t.posture f)
  unfolding vulnerability_page
  vulnerability_page-total f window page e =
      let rows = order_by list_before (selected ilike t.posture f) in
      let (items, _, same) = >>=-eq-return (list_items (take window.1 (fetched rows window))) _ e in
      let total : length rows ≡ page.total = ap total_or (return-page same) in
      sym total ∙ length-order_by list_before (selected ilike t.posture f)
    where
      total_or : McpPage VulnerabilityItem → ℕ
      total_or p = p.total

      return-page :
          {p q : McpPage VulnerabilityItem}
          → Path (Outcome (McpPage VulnerabilityItem)) (return p) (return q)
          → p ≡ q
      return-page h = cc

  -- Without filters, a page that the tool returns tells as many vulnerabilities as the summary.
  pub list_vulnerabilities-total :
      (offset limit : ℤ) (page : McpPage VulnerabilityItem)
      → list_vulnerabilities none none none none offset limit ≡ return page
      → page.total ≡ (summarize_vulnerabilities t.posture).total
  unfolding list_vulnerabilities
  list_vulnerabilities-total offset limit page e =
      let (window, _, rest) =
        >>=-eq-return (validate_page offset limit) (vulnerability_page no_filters) e in
      vulnerability_page-total no_filters window page rest
      ∙ ap length (selected-open_now ilike t.posture)
      ∙ sym (summarize_vulnerabilities-total t.posture).4
