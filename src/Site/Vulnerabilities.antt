-- ===== src/Site/Vulnerabilities.antt =====
-- api/pages/vulnerabilities.py: the page of all vulnerabilities. A map of `_active_maps` is read at the
-- vulnerabilities of the page. `ilike` is the ILIKE of the database; the templates are outside.
pub mod Scopes
use argus_sbomguard.Common.{
  ℕ, Option, none, some, Bool, not, ◌&&◌, List, [], ◌∷◌, ◌++◌, filter, find, map, add, ltb, ◌==◌,
  nat_eq, list_eq, option_eq, Text, text, if◌then◌else◌, Outcome, return, ◌>>=◌,
}
use argus_sbomguard.Common.Json.{Json, null, str, arr, obj, Items, end, get, or_else}
use argus_sbomguard.Models.{Project, Service, Dependency, Vulnerability, RiskAcceptance}
use argus_sbomguard.Alerting.Card.{is_empty}
use argus_sbomguard.Pagination.{Page, paginate}
use argus_sbomguard.Mcp.Paging.{order_by, is_wanted}
use argus_sbomguard.Mcp.Listing.{is_wanted_service, outer_service_name}
use argus_sbomguard.Mcp.Posture.{PostureTables}
use argus_sbomguard.Queries.{
  Filters, severity_like, cve_like, selected, apply_vuln_ordering, LinkRow, link_rows, then_by,
  text_before, sorted,
}
use argus_sbomguard.Site.Labels.{cvss_vector_of}
use argus_sbomguard.Site.Projects.{is_dependency_of, dependency_label}

pub record SiteTables : Type 0 where
  pub posture : PostureTables
  pub projects : List Project
  pub services : List Service
  pub dependencies : List Dependency

-- `service_name or ""`
abbrev pub name_or_empty : Option Text → Text
name_or_empty none = []
name_or_empty (some name) = name

-- The options of the filters, which only the first page shows.
abbrev pub filter_dropdowns : SiteTables → Option ℕ → ℕ → List Project × List Service
filter_dropdowns t project page = if not (page == 1) then ([], []) else (
  order_by (λ a b. text_before a.name b.name) t.projects,
  order_by (λ a b. text_before a.name b.name)
      (filter (λ s. is_wanted project s.project_id) t.services),
)

-- A row of the query for the scopes.
pub record ScopeRow : Type 0 where
  pub vulnerability_id : ℕ
  pub project_id : ℕ
  pub project_name : Text
  pub service_id : Option ℕ
  pub service_name : Option Text

abbrev pub scope_row : List Service → LinkRow → Option Project → List ScopeRow
scope_row services row none = []
scope_row services row (some p) =
    (record {
      vulnerability_id = row.0.vulnerability_id;
      project_id = row.1.project_id;
      project_name = p.name;
      service_id = row.1.service_id;
      service_name = outer_service_name services row.1.service_id;
    })
    ∷ []

abbrev pub scope_rows_of : SiteTables → List LinkRow → List ScopeRow
scope_rows_of t [] = []
scope_rows_of t (row ∷ rows) =
    scope_row t.services row (find (λ p. p.id == row.1.project_id) t.projects)
    ++ scope_rows_of t rows

unfoldable pub scope_rows : SiteTables → List ScopeRow
unfolding link_rows
scope_rows t = scope_rows_of t (link_rows t.posture t.posture.findings)

-- `project_map[vuln_id]`, a set.
unfoldable pub project_map : ℕ → List ScopeRow → List Text
project_map k [] = []
project_map k (row ∷ rows) =
    let rest = project_map k rows in
    if row.vulnerability_id == k then add row.project_name rest else rest

-- `service_map[vuln_id]`, a set.
unfoldable pub service_map : ℕ → List ScopeRow → List Text
service_map k [] = []
service_map k (row ∷ rows) =
    let rest = service_map k rows in
    if row.vulnerability_id == k && not (is_empty (name_or_empty row.service_name))
    then add (name_or_empty row.service_name) rest
    else rest

-- A scope in which a vulnerability can be accepted from this page.
pub record PageScope : Type 0 where
  pub project_id : ℕ
  pub project_name : Text
  pub service_id : Option ℕ
  pub service_name : Text

abbrev pub page_scope : ScopeRow → PageScope
page_scope row = record {
  project_id = row.project_id;
  project_name = row.project_name;
  service_id = row.service_id;
  service_name = name_or_empty row.service_name;
}

-- `bucket[key] = scope`; the key is the service alone.
unfoldable pub put_page_scope : PageScope → List PageScope → List PageScope
put_page_scope scope [] = scope ∷ []
put_page_scope scope (s ∷ bucket) =
    let rest = put_page_scope scope bucket in
    if option_eq.beq s.service_id scope.service_id then scope ∷ bucket else s ∷ rest

unfoldable pub bucket_from : ℕ → List PageScope → List ScopeRow → List PageScope
bucket_from k bucket [] = bucket
bucket_from k bucket (row ∷ rows) =
    let next = bucket_from k (put_page_scope (page_scope row) bucket) rows in
    let rest = bucket_from k bucket rows in if row.vulnerability_id == k then next else rest

abbrev pub page_scope_before : PageScope → PageScope → Bool
page_scope_before =
    then_by (λ a b. text_before a.project_name b.project_name)
      (λ a b. text_before a.service_name b.service_name)

-- `scope_map[vuln_id]`
unfoldable pub scope_map : ℕ → List ScopeRow → List PageScope
unfolding put_page_scope bucket_from order_by
scope_map k rows = order_by page_scope_before (bucket_from k [] rows)

-- The names of the outer join with the dependencies.
abbrev pub dep_names : Text → List Dependency → List Text
dep_names purl [] = dependency_label none purl ∷ []
dep_names purl (d ∷ ds) = map (λ d. dependency_label (some d) purl) (d ∷ ds)

abbrev pub add_all : List Text → List Text → List Text
add_all [] names = names
add_all (name ∷ more) names = add name (add_all more names)

unfoldable pub dep_set : SiteTables → ℕ → List LinkRow → List Text
dep_set t k [] = []
dep_set t k (row ∷ rows) =
    let rest = dep_set t k rows in
    if row.0.vulnerability_id == k
    then add_all (dep_names row.0.dependency_purl (filter (is_dependency_of row.0) t.dependencies))
        rest
    else rest

-- `dep_map[vuln_id]`
unfoldable pub dep_map : SiteTables → ℕ → List Text
unfolding dep_set link_rows order_by
dep_map t k = sorted (dep_set t k (link_rows t.posture t.posture.findings))

-- A vulnerability of the page with what the maps hold of it.
pub record ActiveItem : Type 0 where
  pub vulnerability : Vulnerability
  pub projects : List Text
  pub services : List Text
  pub scopes : List PageScope
  pub libraries : List Text

abbrev pub active_item : SiteTables → Vulnerability → ActiveItem
unfolding project_map service_map scope_map scope_rows dep_map
active_item t v = record {
  vulnerability = v;
  projects = project_map v.id (scope_rows t);
  services = service_map v.id (scope_rows t);
  scopes = scope_map v.id (scope_rows t);
  libraries = dep_map t v.id;
}

-- `vulnerabilities_page` for the status "active": the items, and where the page stands.
unfoldable pub active_page :
    (Text → Text → Bool)
    → SiteTables
    → Filters
    → Text
    → Text
    → ℕ
    → ℕ
    → Page Vulnerability × List ActiveItem
unfolding selected apply_vuln_ordering paginate
active_page ilike t f sort order page per_page =
    let pg =
      paginate (apply_vuln_ordering (selected ilike t.posture f) sort order) page per_page none in
    (pg, map (active_item t) pg.items)

-- A line of the accepted vulnerabilities.
pub record AcceptedItem : Type 0 where
  pub acceptance : RiskAcceptance
  pub vulnerability : Vulnerability
  pub project_name : Text
  pub service_name : Text
  pub cvss_vector : Json
  pub urls : Json

unfoldable pub accepted_item :
    RiskAcceptance → Vulnerability → Text → Option Text → Outcome AcceptedItem
unfolding get or_else cvss_vector_of
accepted_item acceptance v project_name service_name = do
  let extra = or_else v.extra_data (obj end)
  cvss ← get extra (text "cvss") null
  vector ← cvss_vector_of (or_else cvss (arr Items.nil))
  urls ← get extra (text "urls") null
  return (record {
    acceptance = acceptance;
    vulnerability = v;
    project_name = project_name;
    service_name = name_or_empty service_name;
    cvss_vector = vector;
    urls = or_else urls (arr Items.nil);
  })

-- A row of the query: the acceptance, its vulnerability, and the names of its project and service.
abbrev pub AcceptedRow : Type 0
AcceptedRow = RiskAcceptance × Vulnerability × Text × Option Text

abbrev pub accepted_row :
    SiteTables → RiskAcceptance → Option Vulnerability → Option Project → List AcceptedRow
accepted_row t a none project = []
accepted_row t a (some v) none = []
accepted_row t a (some v) (some p) = (a, v, p.name, outer_service_name t.services a.service_id) ∷ []

abbrev pub accepted_rows : SiteTables → List RiskAcceptance → List AcceptedRow
accepted_rows t [] = []
accepted_rows t (a ∷ acceptances) =
    accepted_row t a (find (λ v. v.id == a.vulnerability_id) t.posture.vulnerabilities)
      (find (λ p. p.id == a.project_id) t.projects)
    ++ accepted_rows t acceptances

abbrev pub is_asked_for : (Text → Text → Bool) → Filters → AcceptedRow → Bool
is_asked_for ilike f (a, v, project_name, service_name) =
    severity_like ilike f.severity v.severity
    && (cve_like ilike f.cve_id v.cve_id
        && (is_wanted f.project_id a.project_id && is_wanted_service f.service_id a.service_id))

abbrev pub accepted_items : List AcceptedRow → Outcome (List AcceptedItem)
unfolding accepted_item
accepted_items [] = return []
accepted_items ((a, v, project_name, service_name) ∷ rows) = do
  item ← accepted_item a v project_name service_name
  rest ← accepted_items rows
  return (item ∷ rest)

unfoldable pub accepted_page :
    (Text → Text → Bool)
    → SiteTables
    → Filters
    → ℕ
    → ℕ
    → Outcome (List AcceptedItem × Page AcceptedRow)
unfolding order_by paginate accepted_item
accepted_page ilike t f page per_page =
    let pg =
      paginate
        (order_by (λ a b. ltb b.0.created_at a.0.created_at)
          (filter (is_asked_for ilike f) (accepted_rows t t.posture.acceptances)))
        page per_page none in
    do items ← accepted_items pg.items; return (items, pg)
