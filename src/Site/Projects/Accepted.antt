-- ===== src/Site/Projects/Accepted.antt =====
-- A risk that is accepted for a project leaves the list of the project.
use argus_sbomguard.Common.{
  ℕ, Option, none, true, List, [], find-holds, mem_of_find, mem_of_mem-filter, map, contains,
  mem_of_contains-map, same_of_key, mem-map, mem_of-map, IsUnique, ==_refl, nat_eq, list_eq, Text,
  ◌≡◌, ◌≢◌, refl, sym, ap, ◌∙◌, arith, Memᴰ, inr, return,
}
use mathlib.Core.Path.{subst}
use argus_sbomguard.Common.Reply.{ok}
use argus_sbomguard.Models.{Sbom, Finding, Vulnerability, Dependency, RiskAcceptance}
use argus_sbomguard.Acceptance.{covered_by_acceptance}
use argus_sbomguard.Alerting.{is_actionable}
use argus_sbomguard.Queries.{LinkRow, link_rows}
use argus_sbomguard.Queries.Members.{mem_of-order_by}
use argus_sbomguard.Site.Projects.{
  PageTables, VulnRow, Entry, vuln_rows, first_rows, get_project_vulns, latest_sboms,
}
use argus_sbomguard.Site.Projects.Listed.{vulnerabilities-entries_of}
use argus_sbomguard.Site.Projects.Latest.{mem_of-latest_sboms}
use argus_sbomguard.Api.Acceptances.{AcceptanceTables, RiskAcceptanceCreate, create_risk_acceptance}
use argus_sbomguard.Api.Acceptances.Scope.{create_risk_acceptance-covers}
use argus_sbomguard.Site.Projects.Rows.{
  IsLink, link_rows-IsLink, rows_of_links-IsFrom, mem_of-first_rows,
}

module _ (t : PageTables) where
  module _ (project v : ℕ) (unique : IsUnique (map (λ (s : Sbom). s.id) t.posture.sboms))
      (accepted : (link : Finding) (sbom : Sbom)
        → link.vulnerability_id ≡ v
        → sbom.project_id ≡ project
        → covered_by_acceptance t.posture.acceptances none link sbom ≡ true) where
    -- No actionable finding of the vulnerability is in an SBOM of the project.
    not_in_project :
        (row : LinkRow) (service : Option ℕ)
        → IsLink t.posture row
        → contains (map (λ s. s.id) (latest_sboms project service t.posture.sboms)) row.0.sbom_id
          ≡ true
        → row.0.vulnerability_id ≢ v
    unfolding is_actionable
    not_in_project row service link listed same =
        let (s, kept, id) = mem_of_contains-map (λ (s : Sbom). s.id) _ row.0.sbom_id listed in
        let (there, mine) =
          mem_of_mem-filter _ t.posture.sboms
            (mem_of-latest_sboms project service t.posture.sboms kept) in
        let found = mem_of_find _ t.posture.sboms row.1 link.joined_with in
        let found_id : row.1.id ≡ row.0.sbom_id =
          (nat_eq.beq_iff row.1.id row.0.sbom_id).0
            (find-holds _ t.posture.sboms row.1 link.joined_with) in
        let one : s ≡ row.1 =
          same_of_key (λ (s : Sbom). s.id) t.posture.sboms unique there found (id ∙ sym found_id) in
        let of_project : row.1.project_id ≡ project =
          sym (ap (λ (s : Sbom). s.project_id) one)
          ∙ (nat_eq.beq_iff s.project_id project).0 (ground arith) in
        let covered = accepted row.0 row.1 same of_project in ground (arith, link.live, covered)

    pub not_listed :
        (format_dt : ℕ → Text) (service : Option ℕ) (entries : List Entry) (entry : Entry)
        → get_project_vulns format_dt t project service ≡ return entries
        → Memᴰ entry entries
        → entry.vulnerability.id ≢ v
    unfolding get_project_vulns vuln_rows
    not_listed format_dt service entries entry e m same =
        let rows = vuln_rows t (latest_sboms project service t.posture.sboms) in
        let vulns = vulnerabilities-entries_of format_dt t rows (first_rows [] rows) entries e in
        let (r, opened, alike) =
          mem_of-map (λ (r : VulnRow). r.vulnerability) (first_rows [] rows)
            (subst (Memᴰ entry.vulnerability) vulns
              (mem-map (λ (entry : Entry). entry.vulnerability) entries m)) in
        let (row, shown, is_from) =
          rows_of_links-IsFrom t _ (mem_of-order_by _ _ (mem_of-first_rows t [] rows opened)) in
        let (linked, listed) = mem_of_mem-filter _ (link_rows t.posture t.posture.findings) shown in
        not_in_project row service (link_rows-IsLink t.posture t.posture.findings linked) listed
          (sym is_from.same_id ∙ ap (λ (v : Vulnerability). v.id) alike ∙ same)

-- The pages after a risk was accepted.
abbrev pub tables_after :
    ℕ
    → ℕ
    → RiskAcceptanceCreate
    → List RiskAcceptance
    → AcceptanceTables
    → List Dependency
    → PageTables
tables_after id now request others a dependencies = record {
  posture = record {
    vulnerabilities = a.vulnerabilities;
    findings = a.findings;
    sboms = a.sboms;
    acceptances = (create_risk_acceptance id now request others a).1;
  };
  services = a.services;
  dependencies = dependencies;
}

-- If a risk is accepted for a whole project, no line of the project's list is of its vulnerability
-- any more, for any service that is asked for. The ids of the SBOMs are distinct.
pub create_risk_acceptance-unlists :
    (format_dt : ℕ → Text) (id now : ℕ) (request : RiskAcceptanceCreate)
    (others : List RiskAcceptance) (a : AcceptanceTables) (dependencies : List Dependency)
    (service : Option ℕ) (made : RiskAcceptance) (entries : List Entry) (entry : Entry)
    → IsUnique (map (λ (s : Sbom). s.id) a.sboms)
    → request.service_id ≡ none
    → (create_risk_acceptance id now request others a).0 ≡ ok made
    → get_project_vulns format_dt
        (tables_after id now request others a dependencies)
        request.project_id
        service
      ≡ return entries
    → Memᴰ entry entries
    → entry.vulnerability.id ≢ request.vulnerability_id
create_risk_acceptance-unlists format_dt id now request others a dependencies service made entries
      entry unique wide created shown m =
    not_listed (tables_after id now request others a dependencies) request.project_id
      request.vulnerability_id unique
      (λ link sbom same_vuln same_project.
        (create_risk_acceptance-covers id now request others a made link sbom created).1
          (inr (same_vuln, rw (same_project, wide, ==_refl request.project_id) refl)))
      format_dt service entries entry shown m
