-- ===== src/Examples/Pages.antt =====
-- The page of a project at a small database.
use argus_sbomguard.Common.{
  ℕ, none, [], ◌∷◌, any, map, contains, IsUnique, Memᴰ, Text, text, list_eq, option_eq, nat_eq, ◌≡◌,
  ◌≢◌, refl, return,
}
use argus_sbomguard.Common.Json.{str, arr, Items}
use argus_sbomguard.Common.Reply.{ok}
use argus_sbomguard.Models.{Vulnerability, Project}
use argus_sbomguard.Acceptance.{covered_by_acceptance}
use argus_sbomguard.Alerting.{is_actionable}
use argus_sbomguard.Api.Acceptances.{
  AcceptanceTables, RiskAcceptanceCreate, new_acceptance, create_risk_acceptance,
}
use argus_sbomguard.Site.Projects.{
  PageTables, Entry, get_project_vulns, latest_sboms, project_scope,
}
use argus_sbomguard.Site.Projects.Listed.{get_project_vulns_listed, cve_of_entry, is_shown}
use argus_sbomguard.Site.Projects.Accepted.{create_risk_acceptance-unlists, tables_after}
use argus_sbomguard.Site.Vulnerabilities.{ScopeRow, page_scope, scope_map}
use argus_sbomguard.Examples.Data.{flaw, old_sbom, new_sbom, finding_in}

abbrev page_tables : PageTables
page_tables = record {
  posture = record {
    vulnerabilities = flaw ∷ [];
    findings = finding_in 101 ∷ [];
    sboms = old_sbom ∷ new_sbom ∷ [];
    acceptances = [];
  };
  services = [];
  dependencies = [];
}

abbrev line : Entry
line = record {
  vulnerability = flaw;
  service_name = none;
  dependency_purl = text "pkg:npm/left-pad@1.3.0";
  dependency_name = text "left-pad 1.3.0";
  published = [];
  extra = record { cvss_vector = str []; urls = arr Items.nil; fix_versions = arr Items.nil };
  scopes = project_scope ∷ [];
}

abbrev no_dates : ℕ → Text
no_dates time = []

-- The finding in the latest SBOM is listed.
listed : get_project_vulns no_dates page_tables 10 none ≡ return (line ∷ [])
unfolding get_project_vulns covered_by_acceptance is_actionable
listed = refl

get_project_vulns_listed_example :
    IsUnique (map cve_of_entry (line ∷ []))
    × (contains (map cve_of_entry (line ∷ [])) (text "CVE-2026-1")
        ≡ any
            (is_shown page_tables
              (text "CVE-2026-1")
              (latest_sboms 10 none (old_sbom ∷ new_sbom ∷ [])))
            (finding_in 101 ∷ []))
get_project_vulns_listed_example =
    get_project_vulns_listed no_dates page_tables 10 none (line ∷ []) (text "CVE-2026-1") listed

-- A second vulnerability of the SBOM, which stays listed.
abbrev other : Vulnerability
other = record flaw { id = 8; cve_id = text "CVE-2026-2" }

abbrev shop : Project
shop = record {
  id = 10;
  name = text "Shop";
  slug = text "shop";
  description = none;
  repo_url = none;
  platform = none;
  created_at = 0;
}

abbrev acceptance_tables : AcceptanceTables
acceptance_tables = record {
  projects = shop ∷ [];
  vulnerabilities = flaw ∷ other ∷ [];
  services = [];
  findings = finding_in 101 ∷ (record (finding_in 101) { vulnerability_id = 8 }) ∷ [];
  sboms = old_sbom ∷ new_sbom ∷ [];
  acceptances = [];
}

abbrev request : RiskAcceptanceCreate
request = record {
  project_id = 10;
  vulnerability_id = 7;
  service_id = none;
  reason = text "not reachable";
}

accepted :
    (create_risk_acceptance 1 5 request [] acceptance_tables).0 ≡ ok (new_acceptance 1 5 request)
unfolding create_risk_acceptance
accepted = refl

abbrev other_line : Entry
other_line = record line { vulnerability = other }

left :
    get_project_vulns no_dates (tables_after 1 5 request [] acceptance_tables []) 10 none
    ≡ return (other_line ∷ [])
unfolding get_project_vulns create_risk_acceptance covered_by_acceptance is_actionable
left = refl

create_risk_acceptance-unlists_example : other_line.vulnerability.id ≢ request.vulnerability_id
create_risk_acceptance-unlists_example =
    create_risk_acceptance-unlists no_dates 1 5 request [] acceptance_tables [] none
      (new_acceptance 1 5 request) (other_line ∷ []) other_line (refl, (refl, tt)) refl accepted
      left (Memᴰ.head refl)

-- A finding of a vulnerability in an SBOM of a project, without a service.
abbrev row_in : ℕ → Text → ScopeRow
row_in project name = record {
  vulnerability_id = 1;
  project_id = project;
  project_name = name;
  service_id = none;
  service_name = none;
}

-- Of two projects with an SBOM without a service, only the second is offered.
lost_scope :
    scope_map 1 (row_in 1 (text "first") ∷ row_in 2 (text "second") ∷ [])
    ≡ page_scope (row_in 2 (text "second")) ∷ []
unfolding scope_map
lost_scope = refl
