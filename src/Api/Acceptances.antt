-- ===== src/Api/Acceptances.antt =====
-- api/v1/vulnerabilities.py: `create_risk_acceptance` and `delete_risk_acceptance`. The rows that other
-- requests commit between the query and the insert are the argument `others`.
pub mod Scope
use argus_sbomguard.Common.{
  ℕ, Option, none, some, Bool, true, false, not, ◌&&◌, ◌||◌, List, [], ◌∷◌, ◌++◌, filter, find, any,
  delete_where, ◌==◌, nat_eq, option_eq, Text, if◌then◌else◌,
}
use argus_sbomguard.Common.Reply.{Reply, ok, refuse, ◌>>=◌, ◌>>◌, refuse_if, found_or}
use argus_sbomguard.Models.{Project, Vulnerability, Service, Finding, Sbom, RiskAcceptance, is_open}

-- The tables of the request, and those that it only reads.
pub record AcceptanceTables : Type 0 where
  pub projects : List Project
  pub vulnerabilities : List Vulnerability
  pub services : List Service
  pub findings : List Finding
  pub sboms : List Sbom
  pub acceptances : List RiskAcceptance

pub record RiskAcceptanceCreate : Type 0 where
  pub project_id : ℕ
  pub vulnerability_id : ℕ
  pub service_id : Option ℕ
  pub reason : Text

-- `not service or service.project_id != data.project_id`
abbrev belongs_to : ℕ → Option Service → Bool
belongs_to project none = false
belongs_to project (some s) = s.project_id == project

abbrev pub has_service : ℕ → Option ℕ → List Service → Bool
has_service project none services = true
has_service project (some k) services = belongs_to project (find (λ s. s.id == k) services)

-- The service that the request names, if it names one.
abbrev pub is_service_of : Option ℕ → Option ℕ → Bool
is_service_of none service = true
is_service_of (some k) service = option_eq.beq service (some k)

-- The condition on the SBOM of a finding: its project and its service.
abbrev pub in_request_scope : RiskAcceptanceCreate → Sbom → Bool
in_request_scope request sbom =
    sbom.project_id == request.project_id && is_service_of request.service_id sbom.service_id

abbrev pub is_open_link : RiskAcceptanceCreate → List Sbom → Finding → Bool
is_open_link request sboms l =
    l.vulnerability_id == request.vulnerability_id
    && (is_open l.status && any (λ s. s.id == l.sbom_id && in_request_scope request s) sboms)

abbrev pub is_decision_on : ℕ → ℕ → RiskAcceptance → Bool
is_decision_on project vuln a = a.project_id == project && a.vulnerability_id == vuln

abbrev pub is_project_wide : RiskAcceptance → Bool
is_project_wide a = elim a.service_id [ none ↦ true | some k ↦ false ]

-- Whether the decisions so far exclude a new one: any of them does at the scope of the project; at
-- that of a service, one of the project or of the same service.
abbrev pub is_excluded : Option ℕ → List RiskAcceptance → Bool
is_excluded none [] = false
is_excluded none (a ∷ existing) = true
is_excluded (some k) existing =
    any is_project_wide existing || any (λ a. option_eq.beq a.service_id (some k)) existing

-- The two unique indexes: at most one row for a project, a service or none, and a vulnerability.
abbrev pub same_key : RiskAcceptance → RiskAcceptance → Bool
same_key a b =
    a.project_id == b.project_id
    && (option_eq.beq a.service_id b.service_id && a.vulnerability_id == b.vulnerability_id)

abbrev pub new_acceptance : ℕ → ℕ → RiskAcceptanceCreate → RiskAcceptance
new_acceptance id now request = record {
  id = id;
  project_id = request.project_id;
  service_id = request.service_id;
  vulnerability_id = request.vulnerability_id;
  reason = request.reason;
  created_at = now;
}

-- The checks in front of the insert.
unfoldable pub may_accept : RiskAcceptanceCreate → AcceptanceTables → Reply (Unit {0})
may_accept request t = do
  project ← found_or (find (λ p. p.id == request.project_id) t.projects) 404
  vuln ← found_or (find (λ v. v.id == request.vulnerability_id) t.vulnerabilities) 404
  refuse_if (not (has_service request.project_id request.service_id t.services)) 400
  refuse_if (not (any (is_open_link request t.sboms) t.findings)) 400
  refuse_if
      (is_excluded request.service_id
        (filter (is_decision_on request.project_id request.vulnerability_id) t.acceptances))
      409

-- The answer, with the row that is added.
unfoldable pub accept_reply :
    ℕ → ℕ → RiskAcceptanceCreate → List RiskAcceptance → AcceptanceTables → Reply RiskAcceptance
unfolding may_accept
accept_reply id now request others t = do
  may_accept request t
  refuse_if (any (same_key (new_acceptance id now request)) (t.acceptances ++ others)) 409
  ok (new_acceptance id now request)

abbrev pub stored : List RiskAcceptance → Reply RiskAcceptance → List RiskAcceptance
stored table (ok a) = table ++ a ∷ []
stored table (refuse status) = table

-- The answer, and the table afterwards: a refused request adds nothing.
unfoldable pub create_risk_acceptance :
    ℕ
    → ℕ
    → RiskAcceptanceCreate
    → List RiskAcceptance
    → AcceptanceTables
    → Reply RiskAcceptance × List RiskAcceptance
unfolding accept_reply
create_risk_acceptance id now request others t =
    let reply = accept_reply id now request others t in
    (reply, stored (t.acceptances ++ others) reply)

unfoldable pub delete_risk_acceptance : ℕ → List RiskAcceptance → Reply (List RiskAcceptance)
delete_risk_acceptance id acceptances = do
  acceptance ← found_or (find (λ a. a.id == id) acceptances) 404
  ok (delete_where (λ a. a.id == acceptance.id) acceptances)
