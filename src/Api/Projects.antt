-- ===== src/Api/Projects.antt =====
-- api/v1/projects.py and api/v1/services.py: the routes that write. `slugify` is the SQL function
-- behind the generated column `slug`. The rows that other requests commit between a check and the
-- write are the argument `others`.
pub mod Links
pub mod Linked
use argus_sbomguard.Common.{
  ℕ, ◌<◌, Option, none, some, Bool, true, false, not, ◌&&◌, ◌||◌, List, [], ◌∷◌, ◌++◌, filter, find,
  any, map, length, contains, update_where, delete_where, ltb, ◌==◌, nat_eq, list_eq, option_eq,
  Text, if◌then◌else◌,
}
use argus_sbomguard.Common.Reply.{Reply, ok, refuse, ◌>>=◌, ◌>>◌, refuse_if, found_or}
use argus_sbomguard.Models.{
  Project, Service, Sbom, Dependency, Finding, RiskAcceptance, AlertRule, Notification, Snapshot,
}

pub record ProjectCreate : Type 0 where
  pub name : Text
  pub description : Option Text
  pub repo_url : Option Text
  pub platform : Option Text

pub record ProjectUpdate : Type 0 where
  pub name : Option Text
  pub description : Option Text
  pub repo_url : Option Text
  pub platform : Option Text

-- The two unique columns: another row has the name or the slug.
abbrev clashes : Project → Project → Bool
clashes p q = not (q.id == p.id) && (q.name == p.name || q.slug == p.slug)

abbrev new_or_kept : Option Text → Option Text → Option Text
new_or_kept none old = old
new_or_kept (some new) old = some new

abbrev name_or : Option Text → Text → Text
name_or none old = old
name_or (some new) old = new

module _ (slugify : Text → Text) where
  abbrev new_project : ℕ → ℕ → ProjectCreate → Project
  new_project id now request = record {
    id = id;
    name = request.name;
    slug = slugify request.name;
    description = request.description;
    repo_url = request.repo_url;
    platform = request.platform;
    created_at = now;
  }

  -- The project and the table with it.
  unfoldable pub create_project :
      ℕ → ℕ → ProjectCreate → List Project → List Project → Reply (Project × List Project)
  create_project id now request others projects = do
    refuse_if (any (λ p. p.name == request.name) projects) 409
    refuse_if (any (clashes (new_project id now request)) (projects ++ others)) 409
    ok (new_project id now request, (projects ++ others) ++ new_project id now request ∷ [])

  abbrev updated : ProjectUpdate → Project → Project
  updated request p = record p {
    name = name_or request.name p.name;
    slug = slugify (name_or request.name p.name);
    description = new_or_kept request.description p.description;
    repo_url = new_or_kept request.repo_url p.repo_url;
    platform = new_or_kept request.platform p.platform;
  }

  abbrev is_name_taken : ℕ → Option Text → List Project → Bool
  is_name_taken k none projects = false
  is_name_taken k (some name) projects = any (λ p. p.name == name && not (p.id == k)) projects

  unfoldable pub update_project :
      ℕ → ProjectUpdate → List Project → List Project → Reply (Project × List Project)
  update_project k request others projects = do
    project ← found_or (find (λ p. p.id == k) projects) 404
    refuse_if (is_name_taken k request.name projects) 409
    refuse_if (any (clashes (updated request project)) (projects ++ others)) 409
    ok (
      updated request project,
      update_where (λ p. p.id == k) (updated request) (projects ++ others),
    )

-- The tables of what belongs to a project.
pub record ProjectTables : Type 0 where
  pub projects : List Project
  pub services : List Service
  pub sboms : List Sbom
  pub dependencies : List Dependency
  pub findings : List Finding
  pub acceptances : List RiskAcceptance
  pub alert_rules : List AlertRule
  pub notifications : List Notification
  pub snapshots : List Snapshot

abbrev pub is_service_in : ℕ → Service → Bool
is_service_in k s = s.project_id == k

abbrev pub is_in : List ℕ → Option ℕ → Bool
is_in ids none = false
is_in ids (some k) = contains ids k

abbrev pub ids_of_services : ℕ → ProjectTables → List ℕ
ids_of_services k t = map (λ s. s.id) (filter (is_service_in k) t.services)

-- An SBOM of the project, or of one of its services.
abbrev pub is_sbom_in : ℕ → ProjectTables → Sbom → Bool
is_sbom_in k t s = s.project_id == k || is_in (ids_of_services k t) s.service_id

abbrev pub ids_of_sboms : ℕ → ProjectTables → List ℕ
ids_of_sboms k t = map (λ s. s.id) (filter (is_sbom_in k t) t.sboms)

abbrev pub is_rule_in : ℕ → AlertRule → Bool
is_rule_in k a = a.project_id == k

abbrev pub ids_of_rules : ℕ → ProjectTables → List ℕ
ids_of_rules k t = map (λ a. a.id) (filter (is_rule_in k) t.alert_rules)

-- The delete with the cascades of the relationships and of the foreign keys.
abbrev pub without_project : ℕ → ProjectTables → ProjectTables
without_project k t = record {
  projects = delete_where (λ p. p.id == k) t.projects;
  services = delete_where (is_service_in k) t.services;
  sboms = delete_where (is_sbom_in k t) t.sboms;
  dependencies = delete_where (λ d. contains (ids_of_sboms k t) d.sbom_id) t.dependencies;
  findings = delete_where (λ l. contains (ids_of_sboms k t) l.sbom_id) t.findings;
  acceptances =
      delete_where (λ a. a.project_id == k || is_in (ids_of_services k t) a.service_id)
        t.acceptances;
  alert_rules = delete_where (is_rule_in k) t.alert_rules;
  notifications = delete_where (λ n. contains (ids_of_rules k t) n.alert_rule_id) t.notifications;
  snapshots = delete_where (λ s. option_eq.beq s.project_id (some k)) t.snapshots;
}

unfoldable pub delete_project : ℕ → ProjectTables → Reply ProjectTables
delete_project k t = do
  project ← found_or (find (λ p. p.id == k) t.projects) 404
  ok (without_project k t)

-- The service, and its acceptances with it.
abbrev pub without_service : ℕ → ProjectTables → ProjectTables
without_service k t = record t {
  services = delete_where (λ s. s.id == k) t.services;
  acceptances = delete_where (λ a. option_eq.beq a.service_id (some k)) t.acceptances;
}

-- A service with SBOMs is not deleted.
unfoldable pub delete_service : ℕ → ProjectTables → Reply ProjectTables
delete_service k t = do
  service ← found_or (find (λ s. s.id == k) t.services) 404
  refuse_if (ltb 0 (length (filter (λ s. option_eq.beq s.service_id (some k)) t.sboms))) 409
  ok (without_service k t)
