-- ===== src/Scanner/Close.antt =====
-- `reconcile_vulnerabilities` and `retire_stale_vulnerabilities`.
use argus_sbomguard.Common.{
  ℕ, none, some, Bool, not, ◌&&◌, List, [], ◌∷◌, map, filter, contains, update_where, ltb, ◌==◌,
  nat_eq, option_eq, list_eq, Text,
}
use argus_sbomguard.Models.{Vulnerability, Finding, Sbom, is_open, fixed_status}

-- The scope of an SBOM: its service, or its project where it has no service.
unfoldable pub in_scope_of : Sbom → Sbom → Bool
in_scope_of sbom other = elim sbom.service_id [
  | some s ↦ option_eq.beq other.service_id (some s)
  | none ↦ other.project_id == sbom.project_id && option_eq.beq other.service_id none
]

abbrev pub is_older : Sbom → Sbom → Bool
is_older sbom other =
    in_scope_of sbom other && (not (other.id == sbom.id) && ltb other.uploaded_at sbom.uploaded_at)

unfoldable pub older_ids : List Sbom → Sbom → List ℕ
unfolding in_scope_of
older_ids sboms sbom = map (λ s. s.id) (filter (is_older sbom) sboms)

abbrev pub is_open_in : ℕ → Finding → Bool
is_open_in sbom l = l.sbom_id == sbom && is_open l.status

unfoldable pub current_ids : Sbom → List Finding → List ℕ
current_ids sbom findings = map (λ l. l.vulnerability_id) (filter (is_open_in sbom.id) findings)

abbrev pub fix_at : ℕ → Finding → Finding
fix_at now l = record l { status = fixed_status; fixed_at = some now }

abbrev pub is_open_among : List ℕ → Finding → Bool
is_open_among ids l = contains ids l.sbom_id && is_open l.status

-- The two updates, by whether the new SBOM has open findings.
abbrev reconcile_update : ℕ → List ℕ → List ℕ → List Finding → List Finding
reconcile_update now older [] findings = update_where (is_open_among older) (fix_at now) findings
reconcile_update now older (c ∷ current) findings =
    update_where (λ l. is_open_among older l && not (contains (c ∷ current) l.vulnerability_id))
      (fix_at now) findings

abbrev pub reconcile_older : ℕ → List ℕ → List ℕ → List Finding → List Finding
reconcile_older now [] current findings = findings
reconcile_older now (o ∷ older) current findings = reconcile_update now (o ∷ older) current findings

unfoldable pub reconcile_vulnerabilities : ℕ → List Sbom → Sbom → List Finding → List Finding
reconcile_vulnerabilities now sboms sbom findings =
    reconcile_older now (older_ids sboms sbom) (current_ids sbom findings) findings

-- The ids of the vulnerabilities that the scan reported.
unfoldable pub reported_ids : List Text → List Vulnerability → List ℕ
reported_ids cves vulns = map (λ v. v.id) (filter (λ v. contains cves v.cve_id) vulns)

abbrev retire_update : ℕ → ℕ → List Text → List Vulnerability → List Finding → List Finding
retire_update now sbom [] vulns findings = update_where (is_open_in sbom) (fix_at now) findings
retire_update now sbom (c ∷ cves) vulns findings =
    update_where
      (λ l. is_open_in sbom l && not (contains (reported_ids (c ∷ cves) vulns) l.vulnerability_id))
      (fix_at now) findings

unfoldable pub retire_stale_vulnerabilities :
    ℕ → Sbom → List Text → List Vulnerability → List Finding → List Finding
retire_stale_vulnerabilities now sbom cves vulns findings =
    retire_update now sbom.id cves vulns findings
