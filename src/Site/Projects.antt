-- ===== src/Site/Projects.antt =====
-- api/pages/projects.py: the vulnerabilities of a project. `format_dt` writes a day as text. Rows that
-- the order leaves equal keep their order of the table.
pub mod Listed
pub mod Rows
pub mod Accepted
pub mod Latest
pub mod Paged
use argus_sbomguard.Common.{
  ℕ, ◌+◌, ◌-◌, ◌*◌, Option, none, some, Bool, true, false, not, ◌&&◌, ◌||◌, List, [], ◌∷◌, ◌++◌,
  filter, find, any, map, take, drop, length, contains, ltb, ◌==◌, nat_eq, list_eq, option_eq, Text,
  text, if◌then◌else◌, Outcome, return, ◌>>=◌,
}
use argus_sbomguard.Common.Json.{Json, str}
use argus_sbomguard.Models.{Sbom, Service, Dependency, Vulnerability, Finding}
use argus_sbomguard.Alerting.Card.{is_empty}
use argus_sbomguard.Mcp.Paging.{order_by}
use argus_sbomguard.Mcp.Posture.{PostureTables}
use argus_sbomguard.Mcp.Listing.{is_wanted_service}
use argus_sbomguard.Queries.{LinkRow, link_rows, by_cvss, text_before, then_by}
use argus_sbomguard.Site.Labels.{dep_name, Extra, extra_of}

pub record PageTables : Type 0 where
  pub posture : PostureTables
  pub services : List Service
  pub dependencies : List Dependency

-- `latest_map`, which keeps an SBOM for each service, and one for those without a service.
unfoldable pub put_latest : Sbom → List Sbom → List Sbom
put_latest s [] = s ∷ []
put_latest s (kept ∷ others) =
    let rest = put_latest s others in
    if option_eq.beq kept.service_id s.service_id
    then (if ltb kept.created_at s.created_at then s else kept) ∷ others
    else kept ∷ rest

abbrev pub latest_from : List Sbom → List Sbom → List Sbom
latest_from latest [] = latest
latest_from latest (s ∷ sboms) = latest_from (put_latest s latest) sboms

-- The SBOMs of the project, and of the service if one is asked for.
abbrev pub sboms_of_project : ℕ → Option ℕ → List Sbom → List Sbom
sboms_of_project project service sboms =
    filter (λ s. s.project_id == project && is_wanted_service service s.service_id) sboms

unfoldable pub latest_sboms : ℕ → Option ℕ → List Sbom → List Sbom
unfolding put_latest
latest_sboms project service sboms = latest_from [] (sboms_of_project project service sboms)

-- A row of the query: the finding with its SBOM and vulnerability, and the dependency if there is one.
pub record VulnRow : Type 0 where
  pub link : Finding
  pub sbom : Sbom
  pub vulnerability : Vulnerability
  pub dependency : Option Dependency

abbrev pub is_dependency_of : Finding → Dependency → Bool
is_dependency_of link d = d.sbom_id == link.sbom_id && is_text d.purl
  where
    is_text : Json → Bool
    is_text (str purl) = purl == link.dependency_purl
    is_text _ = false

-- The outer join with the dependencies.
abbrev pub with_dependencies : LinkRow → Vulnerability → List Dependency → List VulnRow
with_dependencies (link, sbom) v [] =
    (record { link = link; sbom = sbom; vulnerability = v; dependency = none }) ∷ []
with_dependencies (link, sbom) v (d ∷ ds) =
    map (λ d. record { link = link; sbom = sbom; vulnerability = v; dependency = some d }) (d ∷ ds)

abbrev pub rows_of_link : PageTables → LinkRow → Option Vulnerability → List VulnRow
rows_of_link t row none = []
rows_of_link t row (some v) =
    with_dependencies row v (filter (is_dependency_of row.0) t.dependencies)

abbrev pub rows_of_links : PageTables → List LinkRow → List VulnRow
rows_of_links t [] = []
rows_of_links t (row ∷ rows) =
    rows_of_link t row (find (λ v. v.id == row.0.vulnerability_id) t.posture.vulnerabilities)
    ++ rows_of_links t rows

-- The actionable findings of some SBOMs, the highest score first.
unfoldable pub vuln_rows : PageTables → List Sbom → List VulnRow
unfolding link_rows order_by
vuln_rows t latest =
    order_by (λ a b. by_cvss a.vulnerability b.vulnerability)
      (rows_of_links t (
        filter (λ row. contains (map (λ s. s.id) latest) row.0.sbom_id)
          (link_rows t.posture t.posture.findings)))

-- A scope in which a risk can be accepted; without a service it is the project.
pub record AcceptScope : Type 0 where
  pub service_id : Option ℕ
  pub service_name : Text

abbrev pub project_scope : AcceptScope
project_scope = record { service_id = none; service_name = [] }

-- `bucket[key] = scope`
unfoldable pub put_scope : AcceptScope → List AcceptScope → List AcceptScope
put_scope scope [] = scope ∷ []
put_scope scope (s ∷ bucket) =
    let rest = put_scope scope bucket in
    if option_eq.beq s.service_id scope.service_id then scope ∷ bucket else s ∷ rest

-- `bucket.setdefault("", ...)`
abbrev pub with_project_scope : List AcceptScope → List AcceptScope
with_project_scope bucket =
    if any (λ s. option_eq.beq s.service_id none) bucket
    then bucket
    else bucket ++ project_scope ∷ []

abbrev named_service : Option Service → Option Service
named_service none = none
named_service (some service) = if is_empty service.name then none else some service

-- `sbom_to_svc` and `sbom_to_svc_id`: the service of an SBOM, if it has a name.
abbrev pub service_of_sbom : List Service → Option ℕ → Option Service
service_of_sbom services none = none
service_of_sbom services (some k) = named_service (find (λ s. s.id == k) services)

abbrev put_service_scope : Option Service → List AcceptScope → List AcceptScope
put_service_scope none bucket = bucket
put_service_scope (some service) bucket =
    put_scope (record { service_id = some service.id; service_name = service.name }) bucket

abbrev pub scopes_from : List Service → Text → List AcceptScope → List VulnRow → List AcceptScope
scopes_from services cve bucket [] = bucket
scopes_from services cve bucket (row ∷ rows) =
    let next =
      put_service_scope (service_of_sbom services row.sbom.service_id)
        (with_project_scope bucket) in
    if row.vulnerability.cve_id == cve
    then scopes_from services cve next rows
    else scopes_from services cve bucket rows

abbrev pub scope_before : AcceptScope → AcceptScope → Bool
scope_before =
    then_by (λ a b. is_empty a.service_name && not (is_empty b.service_name))
      (λ a b. text_before a.service_name b.service_name)

-- A line of the list.
pub record Entry : Type 0 where
  pub vulnerability : Vulnerability
  pub service_name : Option Text
  pub dependency_purl : Text
  pub dependency_name : Text
  pub published : Text
  pub extra : Extra
  pub scopes : List AcceptScope

abbrev column_text : Json → Text
column_text (str s) = s
column_text _ = []

abbrev pub dependency_label : Option Dependency → Text → Text
dependency_label none purl = dep_name [] [] purl
dependency_label (some d) purl = dep_name (column_text d.name) (column_text d.version) purl

abbrev pub cve_of : VulnRow → Text
cve_of row = row.vulnerability.cve_id

-- The rows that open a line: the first of each CVE.
unfoldable pub first_rows : List Text → List VulnRow → List VulnRow
first_rows seen [] = []
first_rows seen (row ∷ rows) =
    let next = first_rows (cve_of row ∷ seen) rows in
    let rest = first_rows seen rows in if contains seen (cve_of row) then rest else row ∷ next

module _ (format_dt : ℕ → Text) (t : PageTables) where
  unfoldable pub entry_with : List VulnRow → VulnRow → Extra → Entry
  unfolding dep_name put_scope order_by
  entry_with rows row extra = record {
    vulnerability = row.vulnerability;
    service_name = elim (service_of_sbom t.services row.sbom.service_id) [
      | none ↦ none
      | some service ↦ some service.name
    ];
    dependency_purl = row.link.dependency_purl;
    dependency_name = dependency_label row.dependency row.link.dependency_purl;
    published = elim row.vulnerability.published_at [ none ↦ [] | some time ↦ format_dt time ];
    extra = extra;
    scopes = order_by scope_before (scopes_from t.services (cve_of row) [] rows);
  }

  unfoldable pub entry_of : List VulnRow → VulnRow → Outcome Entry
  unfolding extra_of entry_with
  entry_of rows row = do extra ← extra_of row.vulnerability; return (entry_with rows row extra)

  abbrev pub entries_of : List VulnRow → List VulnRow → Outcome (List Entry)
  entries_of rows [] = return []
  entries_of rows (row ∷ others) = do
    entry ← entry_of rows row
    rest ← entries_of rows others
    return (entry ∷ rest)

  -- `_get_project_vulns`; without an SBOM there is no row.
  unfoldable pub get_project_vulns : ℕ → Option ℕ → Outcome (List Entry)
  unfolding latest_sboms vuln_rows first_rows entry_of
  get_project_vulns project service =
      let rows = vuln_rows t (latest_sboms project service t.posture.sboms) in
      entries_of rows (first_rows [] rows)

-- What `project_vulns_page` shows: the lines, the number of all, and whether more follow.
pub record VulnsPage : Type 0 where
  pub items : List Entry
  pub total : ℕ
  pub has_more : Bool

unfoldable pub vulns_page : List Entry → ℕ → ℕ → VulnsPage
vulns_page all_vulns page per_page =
    let offset = (page - 1) * per_page in
    record {
      items = take per_page (drop offset all_vulns);
      total = length all_vulns;
      has_more = ltb (offset + per_page) (length all_vulns);
    }
