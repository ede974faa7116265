-- ===== src/Examples/Api.antt =====
-- Requests to the API at a small database.
use argus_sbomguard.Common.{
  ℕ, none, some, true, false, List, [], ◌∷◌, ◌++◌, Text, text, ◌≡◌, ◌↔◌, ◌⊎◌, refl, arith, All,
  Memᴰ, nat_eq, contains, filter, list_eq, pair_eq,
}
use argus_sbomguard.Common.Json.{null, str, obj, end}
use argus_sbomguard.Common.Reply.{ok}
use argus_sbomguard.Models.{Project, Sbom, Dependency, is_open}
use argus_sbomguard.Acceptance.{covered_by_acceptance}
use argus_sbomguard.Scanner.{older_ids, current_ids, reconcile_vulnerabilities}
use argus_sbomguard.Api.Acceptances.{
  AcceptanceTables, RiskAcceptanceCreate, in_request_scope, new_acceptance, create_risk_acceptance,
}
use argus_sbomguard.Api.Acceptances.Scope.{
  AreDisjoint, create_risk_acceptance-covers, create_risk_acceptance-AreDisjoint,
}
use argus_sbomguard.Api.Deletion.{SbomTables, latest_of, reopen, is_sibling, delete_sbom}
use argus_sbomguard.Api.Deletion.Reverted.{delete_sbom-closes, delete_sbom-reopens}
use argus_sbomguard.Common.{inl}
use argus_sbomguard.Api.Projects.{ProjectTables, delete_project}
use argus_sbomguard.Api.Projects.Links.{AreLinked}
use argus_sbomguard.Api.Projects.Linked.{delete_either-AreLinked}
use argus_sbomguard.Api.Diff.{diff_sboms}
use argus_sbomguard.Api.Diff.Patch.{diff_sboms-exact, HasPackage}
use argus_sbomguard.Examples.Data.{rule, flaw, old_sbom, new_sbom, finding_in, closed_finding}

abbrev project : Project
project = record {
  id = 10;
  name = text "Shop";
  slug = text "shop";
  description = none;
  repo_url = none;
  platform = none;
  created_at = 0;
}

abbrev tables : AcceptanceTables
tables = record {
  projects = project ∷ [];
  vulnerabilities = flaw ∷ [];
  services = [];
  findings = finding_in 100 ∷ [];
  sboms = old_sbom ∷ [];
  acceptances = [];
}

abbrev request : RiskAcceptanceCreate
request = record {
  project_id = 10;
  vulnerability_id = 7;
  service_id = none;
  reason = text "not reachable";
}

accepted : (create_risk_acceptance 1 5 request [] tables).0 ≡ ok (new_acceptance 1 5 request)
unfolding create_risk_acceptance
accepted = refl

create_risk_acceptance-covers_example :
    (covered_by_acceptance
        (create_risk_acceptance 1 5 request [] tables).1
        none
        (finding_in 100)
        old_sbom
      ≡ true)
    ↔ ((covered_by_acceptance ([] ++ []) none (finding_in 100) old_sbom ≡ true)
        ⊎ (((finding_in 100).vulnerability_id ≡ 7) × (in_request_scope request old_sbom ≡ true)))
create_risk_acceptance-covers_example =
    create_risk_acceptance-covers 1 5 request [] tables (new_acceptance 1 5 request)
      (finding_in 100) old_sbom accepted

none_yet : AreDisjoint []
none_yet link sbom = omega arith

create_risk_acceptance-AreDisjoint_example :
    AreDisjoint (create_risk_acceptance 1 5 request [] tables).1
create_risk_acceptance-AreDisjoint_example =
    create_risk_acceptance-AreDisjoint 1 5 request tables none_yet

abbrev row : ℕ → Text → Text → Dependency
row sbom name version = record {
  sbom_id = sbom;
  name = str name;
  version = str version;
  purl = null;
  dep_type = null;
  license = null;
  is_direct = false;
  extra_data = obj end;
}

abbrev rows : List Dependency
rows = row 1 (text "a") (text "1") ∷ row 2 (text "a") (text "2") ∷ []

diff_sboms-exact_example :
    (Memᴰ (text "a", text "2") (diff_sboms 1 2 rows).added
      ↔ (HasPackage 2 rows (text "a", text "2") × ¬ HasPackage 1 rows (text "a", text "2")))
    × (Memᴰ (text "a", text "2") (diff_sboms 1 2 rows).removed
        ↔ (HasPackage 1 rows (text "a", text "2") × ¬ HasPackage 2 rows (text "a", text "2")))
diff_sboms-exact_example = diff_sboms-exact 1 2 rows (text "a", text "2")

-- Three SBOMs of one scope; the last one is deleted, and a finding of the second one was fixed.
abbrev wrong_sbom : Sbom
wrong_sbom = record new_sbom { id = 102; uploaded_at = 3000 }

abbrev before : SbomTables
before = record {
  sboms = old_sbom ∷ new_sbom ∷ wrong_sbom ∷ [];
  dependencies = [];
  findings = closed_finding ∷ [];
}

abbrev after : SbomTables
after = record {
  sboms = old_sbom ∷ new_sbom ∷ [];
  dependencies = [];
  findings = reopen closed_finding ∷ [];
}

last : latest_of (filter (is_sibling wrong_sbom) before.sboms) ≡ some new_sbom
unfolding latest_of
last = refl

deleted : delete_sbom 9 102 before ≡ some after
unfolding delete_sbom reconcile_vulnerabilities older_ids current_ids
deleted = refl

delete_sbom-closes_example :
    All
      (λ l.
        contains (older_ids after.sboms new_sbom) l.sbom_id ≡ true
        → is_open l.status ≡ true
        → contains (current_ids new_sbom after.findings) l.vulnerability_id ≡ true)
      after.findings
delete_sbom-closes_example =
    delete_sbom-closes 9 102 before after wrong_sbom new_sbom refl last deleted

delete_sbom-reopens_example : Memᴰ (reopen closed_finding) after.findings
delete_sbom-reopens_example =
    delete_sbom-reopens 9 102 before after wrong_sbom new_sbom refl last deleted closed_finding
      (Memᴰ.head refl) refl refl

-- A project with an SBOM, a finding in it, and a rule.
abbrev linked : ProjectTables
linked = record {
  projects = project ∷ [];
  services = [];
  sboms = (record old_sbom { service_id = none }) ∷ [];
  dependencies = [];
  findings = finding_in 100 ∷ [];
  acceptances = [];
  alert_rules = rule ∷ [];
  notifications = [];
  snapshots = [];
}

abbrev nothing : ProjectTables
nothing = record {
  projects = [];
  services = [];
  sboms = [];
  dependencies = [];
  findings = [];
  acceptances = [];
  alert_rules = [];
  notifications = [];
  snapshots = [];
}

linked-AreLinked : AreLinked linked
linked-AreLinked = record {
  services = tt;
  sboms = (refl, tt);
  services_of_sboms = (refl, tt);
  dependencies = tt;
  findings = (refl, tt);
  acceptances = tt;
  services_of_acceptances = tt;
  alert_rules = (refl, tt);
  notifications = tt;
  snapshots = tt;
}

all_gone : delete_project 10 linked ≡ ok nothing
unfolding delete_project
all_gone = refl

delete_either-AreLinked_example : AreLinked nothing
delete_either-AreLinked_example =
    delete_either-AreLinked 10 linked nothing linked-AreLinked (inl all_gone)
