-- ===== src/Scanner/Store.antt =====
-- `_upsert_vulnerability` and `_link_vulnerability`. Another scan may commit rows between the query
-- and the insert: they are the argument `others`, and make the insert an IntegrityError when they
-- hold the key.
use argus_sbomguard.Common.{
  ℕ, Option, none, some, Bool, ◌&&◌, List, [], ◌∷◌, ◌++◌, find, any, update_where, contains, ◌==◌,
  nat_eq, list_eq, Text, text, if◌then◌else◌,
}
use argus_sbomguard.Models.{Vulnerability, Finding, Sbom, open_status}
use argus_sbomguard.Scanner.Match.{Report}

abbrev pub has_cve : Text → Vulnerability → Bool
has_cve cve v = v.cve_id == cve

abbrev one_if_any : Text → List Text
one_if_any [] = []
one_if_any (c ∷ s) = (c ∷ s) ∷ []

abbrev pub new_vulnerability : ℕ → Report → Vulnerability
new_vulnerability id r = record {
  id = id;
  cve_id = r.vuln_id;
  source = text "grype";
  severity = some r.severity;
  cvss_score = r.cvss_score;
  epss_score = r.epss_score;
  epss_percentile = r.epss_percentile;
  summary = r.description;
  affected_packages = one_if_any r.purl;
  published_at = r.pub_date;
  extra_data = r.vuln_data;
}

-- A value that is kept where the report gives none.
abbrev or_kept {ℓ} : {A : Type ℓ} → Option A → Option A → Option A
or_kept none kept = kept
or_kept (some a) kept = some a

abbrev summary_or_kept : Option Text → Option Text → Option Text
summary_or_kept (some (c ∷ s)) kept = some (c ∷ s)
summary_or_kept _ kept = kept

abbrev with_package : Text → List Text → List Text
with_package [] affected = affected
with_package (c ∷ s) affected =
    if contains affected (c ∷ s) then affected else affected ++ (c ∷ s) ∷ []

-- The refresh of a row from the report. A missing EPSS value keeps the stored one.
unfoldable pub refresh : Report → Vulnerability → Vulnerability
refresh r v = record v {
  severity = some r.severity;
  cvss_score = r.cvss_score;
  epss_score = or_kept r.epss_score v.epss_score;
  epss_percentile = or_kept r.epss_percentile v.epss_percentile;
  summary = summary_or_kept r.description v.summary;
  published_at = or_kept r.pub_date v.published_at;
  extra_data = r.vuln_data;
  affected_packages = with_package r.purl v.affected_packages;
}

-- The row of the id, refreshed, and the table with it.
abbrev pub saved : Report → Vulnerability → List Vulnerability → Vulnerability × List Vulnerability
saved r v table = (refresh r v, update_where (λ w. w.id == v.id) (refresh r) table)

-- The insert: it fails if another scan has inserted the CVE, which is then read again.
abbrev pub insert_or_read :
    ℕ → Report → List Vulnerability → Option Vulnerability → Vulnerability × List Vulnerability
insert_or_read id r table (some v) = saved r v table
insert_or_read id r table none =
    (refresh r (new_vulnerability id r), table ++ refresh r (new_vulnerability id r) ∷ [])

abbrev pub upsert_found :
    ℕ
    → Report
    → List Vulnerability
    → List Vulnerability
    → Option Vulnerability
    → Vulnerability × List Vulnerability
upsert_found id r others table (some v) = saved r v (table ++ others)
upsert_found id r others table none =
    insert_or_read id r (table ++ others) (find (has_cve r.vuln_id) (table ++ others))

unfoldable pub upsert_vulnerability :
    ℕ → Report → List Vulnerability → List Vulnerability → Vulnerability × List Vulnerability
unfolding refresh
upsert_vulnerability id r others table =
    upsert_found id r others table (find (has_cve r.vuln_id) table)

-- The primary key of a finding.
abbrev pub is_finding_of : ℕ → Text → ℕ → Finding → Bool
is_finding_of sbom purl vuln l =
    l.sbom_id == sbom && (l.dependency_purl == purl && l.vulnerability_id == vuln)

abbrev pub new_finding : Sbom → Text → ℕ → Finding
new_finding sbom purl vuln = record {
  sbom_id = sbom.id;
  dependency_purl = purl;
  vulnerability_id = vuln;
  status = open_status;
  fixed_at = none;
  detected_at = sbom.created_at;
}

abbrev pub link_package : Sbom → Text → ℕ → List Finding → List Finding → List Finding
link_package sbom [] vuln others table = table ++ others
link_package sbom (c ∷ s) vuln others table =
    if any (is_finding_of sbom.id (c ∷ s) vuln) (table ++ others)
    then table ++ others
    else (table ++ others) ++ new_finding sbom (c ∷ s) vuln ∷ []

unfoldable pub link_vulnerability : Sbom → Text → ℕ → List Finding → List Finding → List Finding
link_vulnerability sbom purl vuln others table = link_package sbom purl vuln others table
