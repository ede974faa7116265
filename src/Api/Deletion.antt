-- ===== src/Api/Deletion.antt =====
-- api/v1/sboms.py: `delete_sbom`. Deleting an SBOM takes its findings and dependencies with it. Of
-- remaining SBOMs that were uploaded at the same time, the first one counts as the latest.
pub mod Reverted
use argus_sbomguard.Common.{
  ℕ, Option, none, some, Bool, not, ◌&&◌, List, [], ◌∷◌, map, filter, find, update_where,
  delete_where, ltb, ◌==◌, nat_eq, option_eq, if◌then◌else◌,
}
use argus_sbomguard.Models.{Sbom, Dependency, Finding, open_status, is_open}
use argus_sbomguard.Scanner.{reconcile_vulnerabilities}

pub record SbomTables : Type 0 where
  pub sboms : List Sbom
  pub dependencies : List Dependency
  pub findings : List Finding

-- The SBOM of the same project and service; an SBOM with no service goes with those that have none.
abbrev pub is_sibling : Sbom → Sbom → Bool
is_sibling sbom other =
    not (other.id == sbom.id)
    && (option_eq.beq other.service_id sbom.service_id && other.project_id == sbom.project_id)

abbrev pub newer : Sbom → Option Sbom → Option Sbom
newer s none = some s
newer s (some t) = if ltb s.uploaded_at t.uploaded_at then some t else some s

-- `ORDER BY uploaded_at DESC LIMIT 1`
unfoldable pub latest_of : List Sbom → Option Sbom
latest_of [] = none
latest_of (s ∷ sboms) = newer s (latest_of sboms)

-- The delete with its cascade.
abbrev pub delete_row : ℕ → SbomTables → SbomTables
delete_row k t = record {
  sboms = delete_where (λ s. s.id == k) t.sboms;
  dependencies = delete_where (λ d. d.sbom_id == k) t.dependencies;
  findings = delete_where (λ l. l.sbom_id == k) t.findings;
}

abbrev pub reopen : Finding → Finding
reopen l = record l { status = open_status; fixed_at = none }

abbrev pub is_fixed_in : ℕ → Finding → Bool
is_fixed_in k l = l.sbom_id == k && not (is_open l.status)

-- The loop over the ids of the siblings.
abbrev pub revert_fixed : List ℕ → List Finding → List Finding
revert_fixed [] findings = findings
revert_fixed (k ∷ ids) findings = revert_fixed ids (update_where (is_fixed_in k) reopen findings)

abbrev pub reconcile_if_any : ℕ → List Sbom → Option Sbom → List Finding → List Finding
reconcile_if_any now sboms none findings = findings
reconcile_if_any now sboms (some latest) findings =
    reconcile_vulnerabilities now sboms latest findings

abbrev pub delete_found : ℕ → Sbom → SbomTables → SbomTables
delete_found now sbom t =
    let siblings = filter (is_sibling sbom) t.sboms in
    let rest = delete_row sbom.id t in
    record rest {
      findings =
          reconcile_if_any now rest.sboms (latest_of siblings)
            (revert_fixed (map (λ s. s.id) siblings) rest.findings);
    }

-- `none`: the answer 404.
unfoldable pub delete_sbom : ℕ → ℕ → SbomTables → Option SbomTables
unfolding latest_of
delete_sbom now sbom_id t = elim (find (λ s. s.id == sbom_id) t.sboms) [
  | none ↦ none
  | some s ↦ some (delete_found now s t)
]
