-- ===== src/Alerting/Query.antt =====
-- `_open_vulnerabilities` and `_enabled_alerts`.
use argus_sbomguard.Common.{
  ℕ, Option, none, some, Bool, not, ◌&&◌, List, [], ◌∷◌, ◌++◌, filter, find, add, contains, ◌==◌,
  nat_eq, pair_eq, leb, if◌then◌else◌,
}
use argus_sbomguard.Models.{Finding, Sbom, RiskAcceptance, AlertRule, is_open}
use argus_sbomguard.Acceptance.{covered_by_acceptance}

-- A row of the query: the vulnerability, the project and the service.
abbrev pub OpenRow : Type 0
OpenRow = ℕ × ℕ × Option ℕ

module _ (sboms : List Sbom) (acceptances : List RiskAcceptance) where
  -- The SBOM that a finding is joined with.
  abbrev pub sbom_of : Finding → Option Sbom
  sbom_of link = find (λ s. s.id == link.sbom_id) sboms

  -- The finding is open, and no acceptance covers it.
  unfoldable pub is_actionable : Finding → Sbom → Bool
  is_actionable link sbom =
      is_open link.status && not (covered_by_acceptance acceptances none link sbom)

  abbrev pub row_of : Finding → Option Sbom → List OpenRow
  row_of link none = []
  row_of link (some sbom) =
      if is_actionable link sbom
      then (link.vulnerability_id, sbom.project_id, sbom.service_id) ∷ []
      else []

  unfoldable pub open_rows : List Finding → List OpenRow
  unfolding is_actionable
  open_rows [] = []
  open_rows (link ∷ links) = row_of link (sbom_of link) ++ open_rows links

-- The set of `(project_id, vulnerability_id)` pairs.
unfoldable pub open_pairs : List OpenRow → List (ℕ × ℕ)
open_pairs [] = []
open_pairs ((vuln, project, service) ∷ rows) = add (project, vuln) (open_pairs rows)

-- `sorted(services)`: a UUID sorts as its number.
unfoldable pub insert_sorted : ℕ → List ℕ → List ℕ
insert_sorted x [] = x ∷ []
insert_sorted x (y ∷ ys) = if leb x y then x ∷ y ∷ ys else y ∷ insert_sorted x ys

abbrev add_service : Option ℕ → List ℕ → List ℕ
add_service none services = services
add_service (some s) services = if contains services s then services else insert_sorted s services

-- `services_by_vuln.get(vuln_id, {}).get(project_id, [])`
unfoldable pub services_of_pair : ℕ → ℕ → List OpenRow → List ℕ
unfolding insert_sorted
services_of_pair project vuln [] = []
services_of_pair project vuln ((v, p, service) ∷ rows) =
    let rest = services_of_pair project vuln rows in
    if v == vuln && p == project then add_service service rest else rest

unfoldable pub enabled_alerts : List AlertRule → List AlertRule
enabled_alerts = filter (λ a. a.enabled)
