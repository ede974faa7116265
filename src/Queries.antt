-- ===== src/Queries.antt =====
-- services/vulnerability_queries.py: which vulnerabilities a list shows, and in which order; and of
-- api/v1/vulnerabilities.py the list of the active ones. `ilike` is the ILIKE of the database. Rows
-- that the order leaves equal keep their order of the table.
pub mod Order
pub mod Sorted
pub mod Members
pub mod Total
pub mod Names
use argus_sbomguard.Common.{
  ℕ, Option, none, some, Bool, true, false, not, ◌&&◌, ◌||◌, List, [], ◌∷◌, ◌++◌, filter, any, map,
  length, add, ltb, ◌==◌, nat_eq, list_eq, Text, text, strip_nul, if◌then◌else◌, find,
}
use argus_sbomguard.Models.{
  Vulnerability, Severity, severity_value, Finding, Sbom, Project, Service,
}
use argus_sbomguard.Alerting.{sbom_of, is_actionable, project_name_of}
use argus_sbomguard.Alerting.Card.{is_empty}
use argus_sbomguard.Snapshots.{joined}
use argus_sbomguard.Pagination.{Page, paginate}
use argus_sbomguard.Mcp.Paging.{order_by, is_wanted}
use argus_sbomguard.Mcp.Listing.{is_wanted_service, outer_service_name}
use argus_sbomguard.Mcp.Posture.{PostureTables}

-- The filters of a list; `none` stands for one that is not given, or empty.
pub record Filters : Type 0 where
  pub severity : Option Text
  pub project_id : Option ℕ
  pub service_id : Option ℕ
  pub cve_id : Option Text

abbrev pub no_filters : Filters
no_filters = record { severity = none; project_id = none; service_id = none; cve_id = none }

-- `Vulnerability.severity.ilike(...)`: NULL is like nothing.
abbrev pub severity_like : (Text → Text → Bool) → Option Text → Option Severity → Bool
severity_like ilike none severity = true
severity_like ilike (some []) severity = true
severity_like ilike (some (c ∷ s)) none = false
severity_like ilike (some (c ∷ s)) (some severity) =
    ilike (severity_value severity) (strip_nul (c ∷ s))

abbrev pub cve_like : (Text → Text → Bool) → Option Text → Text → Bool
cve_like ilike none cve = true
cve_like ilike (some []) cve = true
cve_like ilike (some (c ∷ s)) cve = ilike cve (text "%" ++ (strip_nul (c ∷ s) ++ text "%"))

-- The finding is actionable, in an SBOM of the project and the service that were asked for.
unfoldable pub is_selected : PostureTables → Filters → Finding → Sbom → Bool
is_selected t f link sbom =
    is_actionable t.sboms t.acceptances link sbom
    && (is_wanted f.project_id sbom.project_id && is_wanted_service f.service_id sbom.service_id)

-- The vulnerabilities whose id is in `build_vuln_subquery`.
unfoldable pub selected : (Text → Text → Bool) → PostureTables → Filters → List Vulnerability
unfolding is_selected
selected ilike t f =
    filter
      (λ v.
        severity_like ilike f.severity v.severity
        && (cve_like ilike f.cve_id v.cve_id
            && any
                (λ l.
                  l.vulnerability_id == v.id
                  && joined (is_selected t f) l (sbom_of t.sboms t.acceptances l))
                t.findings))
      t.vulnerabilities

-- The `CASE` on the severity.
abbrev pub severity_case : Option Severity → ℕ
severity_case (some Severity.critical) = 0
severity_case (some Severity.high) = 1
severity_case (some Severity.medium) = 2
severity_case (some Severity.low) = 3
severity_case _ = 99

-- `.asc().nullslast()` and `.desc().nullslast()`
abbrev pub asc_nulls_last : Option ℕ → Option ℕ → Bool
asc_nulls_last none b = false
asc_nulls_last (some a) none = true
asc_nulls_last (some a) (some b) = ltb a b

abbrev pub desc_nulls_last : Option ℕ → Option ℕ → Bool
desc_nulls_last none b = false
desc_nulls_last (some a) none = true
desc_nulls_last (some a) (some b) = ltb b a

-- A second column of an `ORDER BY`.
abbrev pub then_by {ℓ} : {A : Type ℓ} → (A → A → Bool) → (A → A → Bool) → A → A → Bool
then_by before next a b = before a b || (not (before b a) && next a b)

-- `sort_map.get(sort, Vulnerability.cvss_score)`
abbrev pub sort_col : Text → Vulnerability → Option ℕ
sort_col sort v =
    if sort == text "epss_score"
    then v.epss_score
    else if sort == text "published_at"
    then v.published_at
    else v.cvss_score

abbrev pub by_severity : Text → Vulnerability → Vulnerability → Bool
by_severity order a b =
    if order == text "asc"
    then ltb (severity_case a.severity) (severity_case b.severity)
    else ltb (severity_case b.severity) (severity_case a.severity)

abbrev pub by_column : Text → Text → Vulnerability → Vulnerability → Bool
by_column sort order a b =
    if order == text "asc"
    then asc_nulls_last (sort_col sort a) (sort_col sort b)
    else desc_nulls_last (sort_col sort a) (sort_col sort b)

abbrev pub by_cvss : Vulnerability → Vulnerability → Bool
by_cvss a b = desc_nulls_last a.cvss_score b.cvss_score

-- Whether the order puts one vulnerability before the other.
unfoldable pub vuln_before : Text → Text → Vulnerability → Vulnerability → Bool
vuln_before sort order =
    then_by (if sort == text "severity" then by_severity order else by_column sort order) by_cvss

unfoldable pub apply_vuln_ordering : List Vulnerability → Text → Text → List Vulnerability
unfolding vuln_before order_by
apply_vuln_ordering query sort order = order_by (vuln_before sort order) query

-- A finding with its SBOM.
abbrev pub LinkRow : Type 0
LinkRow = Finding × Sbom

abbrev pub link_row : PostureTables → Finding → Option Sbom → List LinkRow
link_row t link none = []
link_row t link (some sbom) =
    if is_actionable t.sboms t.acceptances link sbom then (link, sbom) ∷ [] else []

-- The rows of the queries for the names: the actionable findings.
unfoldable pub link_rows : PostureTables → List Finding → List LinkRow
link_rows t [] = []
link_rows t (link ∷ links) =
    link_row t link (sbom_of t.sboms t.acceptances link) ++ link_rows t links

-- `map.setdefault(vuln_id, set()).add(name)` for each row with a name, read at one id.
unfoldable pub names_of : (LinkRow → Text) → ℕ → List LinkRow → List Text
names_of name k [] = []
names_of name k (row ∷ rows) =
    let rest = names_of name k rows in
    if row.0.vulnerability_id == k && not (is_empty (name row)) then add (name row) rest else rest

-- The order of Python on texts.
abbrev pub text_before : Text → Text → Bool
text_before s [] = false
text_before [] (d ∷ t) = true
text_before (c ∷ s) (d ∷ t) = let rest = text_before s t in ltb c d || (c == d && rest)

abbrev pub sorted : List Text → List Text
sorted = order_by text_before

pub record QueryTables : Type 0 where
  pub posture : PostureTables
  pub projects : List Project
  pub services : List Service

-- `Service.name` of the outer join; NULL is left out as "" is.
abbrev pub service_name_or_empty : List Service → LinkRow → Text
service_name_or_empty services row = elim (outer_service_name services row.1.service_id) [
  | none ↦ []
  | some name ↦ name
]

module _ (t : QueryTables) where
  unfoldable pub projects_of : ℕ → List Text
  unfolding names_of link_rows project_name_of order_by
  projects_of k = sorted (
      names_of (λ row. project_name_of t.projects row.1.project_id) k
        (link_rows t.posture t.posture.findings))

  unfoldable pub services_named : ℕ → List Text
  unfolding names_of link_rows order_by
  services_named k =
      sorted
        (names_of (service_name_or_empty t.services) k (link_rows t.posture t.posture.findings))

-- A vulnerability, and the projects and the services that it is in.
pub record VulnerabilityResponse : Type 0 where
  pub vulnerability : Vulnerability
  pub projects : List Text
  pub services : List Text

abbrev pub response_of : QueryTables → Vulnerability → VulnerabilityResponse
unfolding projects_of services_named
response_of t v = record {
  vulnerability = v;
  projects = projects_of t v.id;
  services = services_named t v.id;
}

unfoldable pub active_vulnerabilities :
    (Text → Text → Bool) → QueryTables → ℕ → ℕ → Filters → Text → Text → Page VulnerabilityResponse
unfolding selected apply_vuln_ordering paginate
active_vulnerabilities ilike t page per_page f sort order =
    let pg =
      paginate (apply_vuln_ordering (selected ilike t.posture f) sort order) page per_page none in
    record {
      items = map (response_of t) pg.items;
      total = pg.total;
      page = pg.page;
      per_page = pg.per_page;
      total_pages = pg.total_pages;
      has_more = pg.has_more;
      offset = none;
    }
