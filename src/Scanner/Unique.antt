-- ===== src/Scanner/Unique.antt =====
-- The writes of a scan keep the unique keys of the tables, also beside another scan.
use argus_sbomguard.Common.{
  ℕ, Option, none, some, Bool, true, false, List, [], ◌∷◌, ◌++◌, map, find, any, ◌==◌, nat_eq,
  list_eq, pair_eq, Text, ◌≡◌, refl, ◌∙◌, arith, IsUnique, IsUnique-snoc, map-append,
  map-update_where, contains-map, any_of_find-none, if◌then◌else◌, ◌≢◌, any_of_mem,
  mem-append_right, Memᴰ, ==_refl,
}
use argus_sbomguard.Models.{Vulnerability, Finding, Sbom}
use argus_sbomguard.Scanner.{
  Report, refresh, has_cve, new_vulnerability, saved, insert_or_read, upsert_found,
  upsert_vulnerability, is_finding_of, new_finding, link_vulnerability,
}

abbrev pub cve_ids : List Vulnerability → List Text
cve_ids = map (λ v. v.cve_id)

cve_ids-saved :
    (r : Report) (v : Vulnerability) (table : List Vulnerability)
    → cve_ids (saved r v table).1 ≡ cve_ids table
unfolding refresh
cve_ids-saved r v table =
    map-update_where (λ w. w.cve_id) (λ w. w.id == v.id) (refresh r) (λ w. refl) table

-- If no CVE stands twice in the table with the rows that other scans have committed, none does after
-- `_upsert_vulnerability`, whichever of the update, the insert and the failed insert happens.
pub upsert_vulnerability-IsUnique :
    (id : ℕ) (r : Report) (others table : List Vulnerability)
    → IsUnique (cve_ids (table ++ others))
    → IsUnique (cve_ids (upsert_vulnerability id r others table).1)
unfolding upsert_vulnerability
upsert_vulnerability-IsUnique id r others table u = found (find (has_cve r.vuln_id) table)
  where
    inserted :
        (o : Option Vulnerability)
        → find (has_cve r.vuln_id) (table ++ others) ≡ o
        → IsUnique (cve_ids (insert_or_read id r (table ++ others) o).1)
    inserted (some v) e = rw (cve_ids-saved r v (table ++ others)) u
    inserted none e =
        rw
          (map-append (λ (w : Vulnerability). w.cve_id) (table ++ others)
            (refresh r (new_vulnerability id r) ∷ []))
          (IsUnique-snoc (cve_ids (table ++ others)) r.vuln_id u (
            contains-map (λ (w : Vulnerability). w.cve_id) (table ++ others) r.vuln_id
            ∙ any_of_find-none (has_cve r.vuln_id) (table ++ others) e))

    found : (o : Option Vulnerability) → IsUnique (cve_ids (upsert_found id r others table o).1)
    found (some v) = rw (cve_ids-saved r v (table ++ others)) u
    found none = inserted (find (has_cve r.vuln_id) (table ++ others)) refl

-- The primary key of `sbom_vulnerabilities`.
abbrev pub finding_key : Finding → ℕ × (Text × ℕ)
finding_key l = (l.sbom_id, (l.dependency_purl, l.vulnerability_id))

abbrev pub finding_keys : List Finding → List (ℕ × (Text × ℕ))
finding_keys = map finding_key

-- If no key stands twice in the table with the rows that other scans have committed, none does after
-- `_link_vulnerability`.
pub link_vulnerability-IsUnique :
    (sbom : Sbom) (purl : Text) (vuln : ℕ) (others table : List Finding)
    → IsUnique (finding_keys (table ++ others))
    → IsUnique (finding_keys (link_vulnerability sbom purl vuln others table))
unfolding link_vulnerability
link_vulnerability-IsUnique sbom [] vuln others table u = u
link_vulnerability-IsUnique sbom (c ∷ s) vuln others table u =
    from (any (is_finding_of sbom.id (c ∷ s) vuln) (table ++ others)) refl
  where
    from :
        (b : Bool)
        → any (is_finding_of sbom.id (c ∷ s) vuln) (table ++ others) ≡ b
        → IsUnique (
            finding_keys (
              if b
              then table ++ others
              else (table ++ others) ++ new_finding sbom (c ∷ s) vuln ∷ []))
    from true e = u
    from false e =
        rw (map-append finding_key (table ++ others) (new_finding sbom (c ∷ s) vuln ∷ [])) (
          IsUnique-snoc (finding_keys (table ++ others)) (sbom.id, (c ∷ s, vuln)) u
            (contains-map finding_key (table ++ others) (sbom.id, (c ∷ s, vuln)) ∙ e))

-- After `_link_vulnerability` for a package with a purl, the finding is in the table.
pub link_vulnerability-holds :
    (sbom : Sbom) (purl : Text) (vuln : ℕ) (others table : List Finding)
    → purl ≢ []
    → any (is_finding_of sbom.id purl vuln) (link_vulnerability sbom purl vuln others table) ≡ true
unfolding link_vulnerability
link_vulnerability-holds sbom [] vuln others table h = absurd (h refl)
link_vulnerability-holds sbom (c ∷ s) vuln others table h =
    from (any (is_finding_of sbom.id (c ∷ s) vuln) (table ++ others)) refl
  where
    from :
        (b : Bool)
        → any (is_finding_of sbom.id (c ∷ s) vuln) (table ++ others) ≡ b
        → any
            (is_finding_of sbom.id (c ∷ s) vuln)
            (if b then table ++ others else (table ++ others) ++ new_finding sbom (c ∷ s) vuln ∷ [])
          ≡ true
    from true e = e
    from false e =
        any_of_mem (is_finding_of sbom.id (c ∷ s) vuln)
          ((table ++ others) ++ new_finding sbom (c ∷ s) vuln ∷ [])
          (mem-append_right (table ++ others) _ (Memᴰ.head refl)) (ground (arith, ==_refl s))
