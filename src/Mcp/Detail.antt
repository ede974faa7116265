-- ===== src/Mcp/Detail.antt =====
-- services/mcp_server.py: the tools for one SBOM. `ilike` is the ILIKE of the database, and `collate`
-- tells which of two texts it sorts first. A GROUP BY that is summed up counts each row once.
use argus_sbomguard.Common.{
  ℕ, Option, none, some, Bool, true, false, not, ◌&&◌, List, [], ◌∷◌, ◌++◌, filter, find, map, take,
  length, ltb, ◌==◌, nat_eq, list_eq, Text, text, lower, strip_nul, if◌then◌else◌, Outcome, return,
  raise, ◌>>=◌, tool_error, no_result, ◌||◌,
}
use argus_sbomguard.Common.Json.{Json, str, items}
use argus_sbomguard.Models.{
  Project, Service, Sbom, RiskAcceptance, Vulnerability, Severity, Finding, Status, severity_value,
  Dependency, open_status, fixed_status, is_open,
}
use argus_sbomguard.Acceptance.{covered_by_acceptance}
use argus_sbomguard.Mcp.Paging.{ℤ, validate_page, fetched, uuid_or_error, order_by}
use argus_sbomguard.Mcp.Fix.{fix_info}
use argus_sbomguard.Mcp.Posture.{SeverityCounts, tally, sum_of}

pub record DetailTables : Type 0 where
  pub projects : List Project
  pub services : List Service
  pub sboms : List Sbom
  pub acceptances : List RiskAcceptance
  pub vulnerabilities : List Vulnerability
  pub findings : List Finding
  pub dependencies : List Dependency

pub record SbomDetail : Type 0 where
  pub sbom : Sbom
  pub project_name : Text
  pub service_name : Option Text
  pub vulnerability_counts : SeverityCounts
  pub total : ℕ
  pub open_count : ℕ
  pub fixed_count : ℕ

-- A page of what belongs to one SBOM.
pub record SbomPage (A : Type 0) : Type 0 where
  pub sbom_id : ℕ
  pub total : ℕ
  pub offset : ℕ
  pub limit : ℕ
  pub has_more : Bool
  pub items : List A

pub record SbomVulnerabilityItem : Type 0 where
  pub cve_id : Text
  pub severity : Option Severity
  pub cvss_score : Option ℕ
  pub summary : Option Text
  pub status : Status
  pub dependency_purl : Text
  pub fixed_versions : List Json
  pub fix_state : Json

-- The value of a member of `VulnerabilityStatus`.
abbrev status_value : Status → Text
status_value open_status = text "open"
status_value fixed_status = text "fixed"

abbrev pub FindingRow : Type 0
FindingRow = Vulnerability × Finding

unfoldable pub vulnerability_item : FindingRow → Outcome SbomVulnerabilityItem
unfolding fix_info
vulnerability_item (v, link) = do
  (fixed_versions, fix_state) ← fix_info v
  return (record {
    cve_id = v.cve_id;
    severity = v.severity;
    cvss_score = v.cvss_score;
    summary = v.summary;
    status = link.status;
    dependency_purl = link.dependency_purl;
    fixed_versions = fixed_versions;
    fix_state = fix_state;
  })

abbrev pub all_items : List FindingRow → Outcome (List SbomVulnerabilityItem)
all_items [] = return []
all_items (row ∷ rows) = do
  item ← vulnerability_item row
  rest ← all_items rows
  return (item ∷ rest)

-- `result.scalar_one()` on at most one row.
abbrev pub scalar_one : Option Text → Outcome Text
scalar_one none = raise no_result
scalar_one (some s) = return s

abbrev has_status : Option Text → FindingRow → Bool
has_status none row = true
has_status (some status) row = status_value row.1.status == lower status

-- Without a severity, or with an empty one, nothing is left out.
abbrev has_severity_like : (Text → Text → Bool) → Option Text → FindingRow → Bool
has_severity_like ilike none row = true
has_severity_like ilike (some []) row = true
has_severity_like ilike (some (c ∷ s)) row = elim row.0.severity [
  | none ↦ false
  | some severity ↦ ilike (severity_value severity) (strip_nul (c ∷ s))
]

abbrev pub finding_before : (Text → Text → Bool) → FindingRow → FindingRow → Bool
finding_before collate a b =
    collate a.0.cve_id b.0.cve_id
    || (a.0.cve_id == b.0.cve_id && collate a.1.dependency_purl b.1.dependency_purl)

abbrev has_type : Option Text → Dependency → Bool
has_type none d = true
has_type (some kind) d = is_text kind d.dep_type
  where
    is_text : Text → Json → Bool
    is_text kind (str s) = s == kind
    is_text kind _ = false

abbrev pub sbom_page : {A B : Type 0} → Sbom → List A → ℕ × ℕ → List B → SbomPage B
sbom_page s rows window items = record {
  sbom_id = s.id;
  total = length rows;
  offset = window.0;
  limit = window.1;
  has_more = ltb window.1 (length (fetched rows window));
  items = items;
}

module _ (uuid : Text → Option ℕ) (t : DetailTables) where
  -- `_load_sbom`
  unfoldable pub load_sbom : Text → Outcome Sbom
  load_sbom sbom_id = do
    k ← uuid_or_error uuid sbom_id
    elim (find (λ s. s.id == k) t.sboms) [ none ↦ raise tool_error | some s ↦ return s ]

  abbrev finding_row : Sbom → Finding → Option Vulnerability → List FindingRow
  finding_row s link none = []
  finding_row s link (some v) =
      if link.sbom_id == s.id && not (covered_by_acceptance t.acceptances none link s)
      then (v, link) ∷ []
      else []

  -- The findings of the SBOM that no acceptance covers, with their vulnerabilities.
  unfoldable pub finding_rows : Sbom → List Finding → List FindingRow
  finding_rows s [] = []
  finding_rows s (link ∷ links) =
      finding_row s link (find (λ v. v.id == link.vulnerability_id) t.vulnerabilities)
      ++ finding_rows s links

  abbrev pub name_of_project : ℕ → Outcome Text
  name_of_project k =
      scalar_one (elim (find (λ p. p.id == k) t.projects) [ none ↦ none | some p ↦ some p.name ])

  -- The query of the name, for an SBOM that has a service.
  abbrev pub service_name_of_sbom : Option ℕ → Outcome (Option Text)
  service_name_of_sbom none = return none
  service_name_of_sbom (some k) = do
    name ←
        scalar_one (elim (find (λ s. s.id == k) t.services) [ none ↦ none | some s ↦ some s.name ])
    return (some name)

  abbrev pub detail : Sbom → Text → Option Text → List FindingRow → SbomDetail
  detail s project_name service_name rows =
      let counts = tally (map (λ r. r.0.severity) rows) in
      record {
        sbom = s;
        project_name = project_name;
        service_name = service_name;
        vulnerability_counts = counts;
        total = sum_of counts;
        open_count = length (filter (λ r. is_open r.1.status) rows);
        fixed_count = length (filter (λ r. not (is_open r.1.status)) rows);
      }

  unfoldable pub get_sbom : Text → Outcome SbomDetail
  unfolding load_sbom finding_rows
  get_sbom sbom_id = do
    s ← load_sbom sbom_id
    project_name ← name_of_project s.project_id
    service_name ← service_name_of_sbom s.service_id
    return (detail s project_name service_name (finding_rows s t.findings))

  unfoldable pub get_sbom_vulnerabilities :
      (Text → Text → Bool)
      → (Text → Text → Bool)
      → Text
      → ℤ
      → ℤ
      → Option Text
      → Option Text
      → Outcome (SbomPage SbomVulnerabilityItem)
  unfolding load_sbom finding_rows vulnerability_item order_by
  get_sbom_vulnerabilities collate ilike sbom_id offset limit status severity = do
    window ← validate_page offset limit
    s ← load_sbom sbom_id
    let rows =
        filter (λ r. has_status status r && has_severity_like ilike severity r)
          (finding_rows s t.findings)
    items ← all_items (take window.1 (fetched (order_by (finding_before collate) rows) window))
    return (sbom_page s rows window items)

  -- `is_before` is the order of the columns name, version, purl and id in the database.
  unfoldable pub get_sbom_dependencies :
      (Dependency → Dependency → Bool)
      → Text
      → ℤ
      → ℤ
      → Option Text
      → Bool
      → Outcome (SbomPage Dependency)
  unfolding load_sbom order_by
  get_sbom_dependencies is_before sbom_id offset limit dep_type direct_only = do
    window ← validate_page offset limit
    s ← load_sbom sbom_id
    let rows =
        filter (λ d. d.sbom_id == s.id && (has_type dep_type d && (not direct_only || d.is_direct)))
          t.dependencies
    return (sbom_page s rows window (take window.1 (fetched (order_by is_before rows) window)))
