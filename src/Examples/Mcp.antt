-- ===== src/Examples/Mcp.antt =====
-- Calls of the tools for agents at a small database.
use argus_sbomguard.Common.{
  ℕ, ◌+◌, none, some, true, false, List, [], ◌∷◌, ◌++◌, map, length, text, ◌≡◌, ◌≤◌, refl, arith,
  return,
}
use argus_sbomguard.Models.{Project}
use argus_sbomguard.Acceptance.{covered_by_acceptance}
use argus_sbomguard.Mcp.Paging.{pos, McpPage, list_page}
use argus_sbomguard.Mcp.Posture.{
  PostureTables, open_now, summarize_vulnerabilities, vulnerability_summary,
}
use argus_sbomguard.Mcp.Detail.{
  DetailTables, SbomDetail, SbomPage, SbomVulnerabilityItem, get_sbom, get_sbom_vulnerabilities,
}
use argus_sbomguard.Mcp.Walk.{first, next, list_page-reads_all}
use argus_sbomguard.Mcp.Totals.{summarize_vulnerabilities-total}
use argus_sbomguard.Examples.Data.{flaw, old_sbom, finding_in}

-- Three rows, two at a time: the second call.
abbrev rows : List ℕ
rows = 5 ∷ 6 ∷ 7 ∷ []

abbrev front : McpPage ℕ
front = record { items = 5 ∷ 6 ∷ []; total = 3; offset = 0; limit = 2; has_more = true }

reads : list_page (λ k. k) rows (pos 0) (pos 2) ≡ return front
unfolding list_page
reads = refl

list_page-reads_all_example :
    (2 ≤ 3)
    × ((page : McpPage ℕ) × (list_page (λ k. k) rows (pos 2) (pos 2) ≡ return page)
        × (page.has_more ≡ false → (5 ∷ 6 ∷ []) ++ page.items ≡ map (λ k. k) rows))
list_page-reads_all_example =
    list_page-reads_all (λ k. k) rows 2 (omega arith) (omega arith) (next first reads refl)

abbrev posture : PostureTables
posture = record {
  vulnerabilities = flaw ∷ [];
  findings = finding_in 100 ∷ [];
  sboms = old_sbom ∷ [];
  acceptances = [];
}

summarize_vulnerabilities-total_example :
    let agent = summarize_vulnerabilities posture in
    let api = vulnerability_summary posture in
    (agent.counts.critical ≡ api.0.critical)
    × (agent.counts.high ≡ api.0.high)
    × (agent.counts.medium ≡ api.0.medium)
    × (agent.counts.low ≡ api.0.low)
    × (agent.total ≡ length (open_now posture))
    × (agent.total ≡ api.1 + agent.counts.unknown)
summarize_vulnerabilities-total_example = summarize_vulnerabilities-total posture

abbrev project : Project
project = record {
  id = 10;
  name = text "Shop";
  slug = text "shop";
  description = none;
  repo_url = none;
  platform = none;
  created_at = 0;
}

abbrev tables : DetailTables
tables = record {
  projects = project ∷ [];
  services = [];
  sboms = (record old_sbom { service_id = none }) ∷ [];
  acceptances = [];
  vulnerabilities = flaw ∷ [];
  findings = finding_in 100 ∷ [];
  dependencies = [];
}

abbrev shop_detail : SbomDetail
shop_detail = record {
  sbom = record old_sbom { service_id = none };
  project_name = text "Shop";
  service_name = none;
  vulnerability_counts = record { critical = 1; high = 0; medium = 0; low = 0; unknown = 0 };
  total = 1;
  open_count = 1;
  fixed_count = 0;
}

detailed : get_sbom (λ s. some 100) tables (text "100") ≡ return shop_detail
unfolding get_sbom covered_by_acceptance
detailed = refl

abbrev second_page : SbomPage SbomVulnerabilityItem
second_page = record {
  sbom_id = 100;
  total = 1;
  offset = 5;
  limit = 5;
  has_more = false;
  items = [];
}

listed :
    get_sbom_vulnerabilities
      (λ s. some 100)
      tables
      (λ a b. false)
      (λ a b. true)
      (text "100")
      (pos 5)
      (pos 5)
      none
      none
    ≡ return second_page
unfolding get_sbom_vulnerabilities covered_by_acceptance
listed = refl
