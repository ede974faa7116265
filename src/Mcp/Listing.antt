-- ===== src/Mcp/Listing.antt =====
-- services/mcp_server.py: the list tools over whole tables, and the trend of the snapshots. The items
-- of projects and services are their rows. `uuid` is `uuid.UUID`, and `collate` tells which of two
-- texts the database sorts first.
use argus_sbomguard.Common.{
  ℕ, Option, none, some, Bool, true, false, ◌&&◌, ◌||◌, List, [], ◌∷◌, ◌++◌, filter, find, take,
  length, ltb, ◌==◌, nat_eq, option_eq, Text, if◌then◌else◌, Outcome, return, raise, ◌>>=◌,
  tool_error,
}
use mathlib.Core.List.{reverse}
use argus_sbomguard.Models.{
  Project, Service, Sbom, SbomFormat, RiskAcceptance, Vulnerability, Snapshot,
}
use argus_sbomguard.Mcp.Paging.{
  ℤ, pos, negsuc, validate_page, McpPage, page_of, list_page, uuid_or_error, uuid_if_given,
  is_wanted, order_by, is_newer,
}

pub record ListTables : Type 0 where
  pub projects : List Project
  pub services : List Service
  pub sboms : List Sbom
  pub acceptances : List RiskAcceptance
  pub vulnerabilities : List Vulnerability
  pub snapshots : List Snapshot

pub record SbomItem : Type 0 where
  pub id : ℕ
  pub project_id : ℕ
  pub project_name : Text
  pub service_id : Option ℕ
  pub service_name : Option Text
  pub version : Text
  pub format : Option SbomFormat
  pub sha256 : Text
  pub dependency_count : ℕ
  pub uploaded_at : ℕ

pub record RiskAcceptanceItem : Type 0 where
  pub id : ℕ
  pub project_id : ℕ
  pub project_name : Text
  pub service_id : Option ℕ
  pub service_name : Option Text
  pub vulnerability_id : ℕ
  pub cve_id : Text
  pub reason : Text
  pub created_at : ℕ

abbrev name_if_any : Option Service → Option Text
name_if_any none = none
name_if_any (some s) = some s.name

-- The outer join with the services.
abbrev pub outer_service_name : List Service → Option ℕ → Option Text
outer_service_name services none = none
outer_service_name services (some k) = name_if_any (find (λ s. s.id == k) services)

-- A nullable column has the value that was asked for, if one was.
abbrev pub is_wanted_service : Option ℕ → Option ℕ → Bool
is_wanted_service none service = true
is_wanted_service (some wanted) service = option_eq.beq service (some wanted)

unfoldable pub list_projects : ListTables → ℤ → ℤ → Outcome (McpPage Project)
unfolding order_by list_page
list_projects t offset limit =
    list_page (λ p. p)
      (order_by (λ p q. is_newer (p.created_at, p.id) (q.created_at, q.id)) t.projects) offset limit

module _ (uuid : Text → Option ℕ) (t : ListTables) where
  unfoldable pub list_services : (Text → Text → Bool) → Text → ℤ → ℤ → Outcome (McpPage Service)
  unfolding order_by page_of
  list_services collate project_id offset limit = do
    window ← validate_page offset limit
    project_uuid ← uuid_or_error uuid project_id
    elim (find (λ p. p.id == project_uuid) t.projects) [
      | none ↦ raise tool_error
      | some project ↦ return (
          page_of (λ s. s)
            (order_by (λ a b. collate a.name b.name)
              (filter (λ s. s.project_id == project_uuid) t.services))
            window)
    ]

  abbrev sbom_item : Sbom → Project → SbomItem
  sbom_item s p = record {
    id = s.id;
    project_id = s.project_id;
    project_name = p.name;
    service_id = s.service_id;
    service_name = outer_service_name t.services s.service_id;
    version = s.version;
    format = s.format;
    sha256 = s.sha256;
    dependency_count = s.dependency_count;
    uploaded_at = s.uploaded_at;
  }

  abbrev sbom_row : Sbom → Option Project → List SbomItem
  sbom_row s none = []
  sbom_row s (some p) = sbom_item s p ∷ []

  -- The SBOMs with the names of their project and service.
  abbrev sbom_rows : List Sbom → List SbomItem
  sbom_rows [] = []
  sbom_rows (s ∷ sboms) =
      sbom_row s (find (λ p. p.id == s.project_id) t.projects) ++ sbom_rows sboms

  unfoldable pub list_sboms : Option Text → Option Text → ℤ → ℤ → Outcome (McpPage SbomItem)
  unfolding order_by page_of
  list_sboms project_id service_id offset limit = do
    window ← validate_page offset limit
    project_uuid ← uuid_if_given uuid project_id
    service_uuid ← uuid_if_given uuid service_id
    return (
        page_of (λ item. item)
          (order_by (λ a b. is_newer (a.uploaded_at, a.id) (b.uploaded_at, b.id))
            (filter
              (λ item.
                is_wanted project_uuid item.project_id
                && is_wanted_service service_uuid item.service_id)
              (sbom_rows t.sboms)))
          window)

  abbrev acceptance_row :
      RiskAcceptance → Option Vulnerability → Option Project → List RiskAcceptanceItem
  acceptance_row a none project = []
  acceptance_row a (some v) none = []
  acceptance_row a (some v) (some p) =
      (record {
        id = a.id;
        project_id = a.project_id;
        project_name = p.name;
        service_id = a.service_id;
        service_name = outer_service_name t.services a.service_id;
        vulnerability_id = a.vulnerability_id;
        cve_id = v.cve_id;
        reason = a.reason;
        created_at = a.created_at;
      })
      ∷ []

  abbrev acceptance_rows : List RiskAcceptance → List RiskAcceptanceItem
  acceptance_rows [] = []
  acceptance_rows (a ∷ acceptances) =
      acceptance_row a (find (λ v. v.id == a.vulnerability_id) t.vulnerabilities)
        (find (λ p. p.id == a.project_id) t.projects)
      ++ acceptance_rows acceptances

  unfoldable pub list_risk_acceptances : Option Text → ℤ → ℤ → Outcome (McpPage RiskAcceptanceItem)
  unfolding order_by page_of
  list_risk_acceptances project_id offset limit = do
    window ← validate_page offset limit
    project_uuid ← uuid_if_given uuid project_id
    return (
        page_of (λ item. item)
          (order_by (λ a b. is_newer (a.created_at, a.id) (b.created_at, b.id))
            (filter (λ item. is_wanted project_uuid item.project_id)
              (acceptance_rows t.acceptances)))
          window)

abbrev pub is_platform_wide : Snapshot → Bool
is_platform_wide s = elim s.project_id [ none ↦ true | some p ↦ false ]

-- The last days of the trend, the oldest first; the count is the length.
unfoldable pub get_snapshot : ListTables → ℤ → Outcome (ℕ × List Snapshot)
unfolding order_by
get_snapshot t (negsuc n) = raise tool_error
get_snapshot t (pos days) =
    if ltb days 1 || ltb 365 days
    then raise tool_error
    else (let rows = take days (
          order_by (λ a b. ltb b.snapshot_date a.snapshot_date)
            (filter is_platform_wide t.snapshots)) in
        return (length rows, reverse rows))
