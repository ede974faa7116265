-- ===== src/Scanner/Closing.antt =====
-- What the two updates close, and that they touch nothing else.
use argus_sbomguard.Common.{
  ℕ, Bool, true, false, not, ◌&&◌, List, [], ◌∷◌, contains, update_where, update_where_none,
  update_where_congr, All-updated, All, nat_eq, list_eq, Text, ◌≡◌, refl, sym, ap, arith, map,
  filter, Bool-cases, inl, inr, mem_of_contains-map, mem_of_mem-filter, nat_beq_iff,
  filter-update_where_apart,
}
use argus_sbomguard.Models.{Finding, Sbom, Vulnerability, is_open}
use argus_sbomguard.Scanner.{
  is_older, older_ids, current_ids, is_open_in, is_open_among, fix_at, reconcile_vulnerabilities,
  reconcile_older, reported_ids, retire_stale_vulnerabilities,
}

-- The finding is open in an older SBOM of the scope, and the new SBOM has no open finding of its
-- vulnerability.
abbrev pub is_gone : List Sbom → Sbom → List Finding → Finding → Bool
is_gone sboms sbom findings l =
    is_open_among (older_ids sboms sbom) l
    && not (contains (current_ids sbom findings) l.vulnerability_id)

none_among :
    (current : List ℕ) (xs : List Finding)
    → All (λ l. (is_open_among [] l && not (contains current l.vulnerability_id)) ≡ false) xs
none_among current [] = tt
none_among current (x ∷ xs) = (refl, none_among current xs)

-- `reconcile_vulnerabilities` closes exactly the findings that are gone, at the time of the run, and
-- leaves every other finding as it is: its early return and its two forms of the update are one.
pub reconcile_lem :
    (now : ℕ) (sboms : List Sbom) (sbom : Sbom) (findings : List Finding)
    → reconcile_vulnerabilities now sboms sbom findings
      ≡ update_where (is_gone sboms sbom findings) (fix_at now) findings
unfolding reconcile_vulnerabilities
reconcile_lem now sboms sbom findings = from (older_ids sboms sbom) (current_ids sbom findings)
  where
    from :
        (older current : List ℕ)
        → reconcile_older now older current findings
          ≡ update_where
              (λ l. is_open_among older l && not (contains current l.vulnerability_id))
              (fix_at now)
              findings
    from [] current = sym (
        update_where_none (λ l. is_open_among [] l && not (contains current l.vulnerability_id))
          (fix_at now) findings (none_among current findings))
    from (o ∷ older) [] =
        update_where_congr (is_open_among (o ∷ older)) (λ l. is_open_among (o ∷ older) l && true)
          (fix_at now) (λ l. ground arith) findings
    from (o ∷ older) (c ∷ current) = refl

-- After `reconcile_vulnerabilities` every finding that is still open in an older SBOM of the scope
-- is of a vulnerability that is open in the new one.
pub reconcile-closes :
    (now : ℕ) (sboms : List Sbom) (sbom : Sbom) (findings : List Finding)
    → All
        (λ l.
          contains (older_ids sboms sbom) l.sbom_id ≡ true
          → is_open l.status ≡ true
          → contains (current_ids sbom findings) l.vulnerability_id ≡ true)
        (reconcile_vulnerabilities now sboms sbom findings)
reconcile-closes now sboms sbom findings = rw reconcile_lem (
    All-updated
      (λ l.
        contains (older_ids sboms sbom) l.sbom_id ≡ true
        → is_open l.status ≡ true
        → contains (current_ids sbom findings) l.vulnerability_id ≡ true)
      (is_gone sboms sbom findings) (fix_at now) (λ l h o s. cc) (λ l h o s. ground arith) findings)

-- The finding is open in the SBOM, and the scan did not report its vulnerability.
abbrev pub is_stale : Sbom → List Text → List Vulnerability → Finding → Bool
is_stale sbom cves vulns l =
    is_open_in sbom.id l && not (contains (reported_ids cves vulns) l.vulnerability_id)

no_ids : (vulns : List Vulnerability) → reported_ids [] vulns ≡ []
unfolding reported_ids
no_ids [] = refl
no_ids (v ∷ vulns) = no_ids vulns

-- `retire_stale_vulnerabilities` closes exactly the stale findings of the SBOM, and leaves every
-- other finding as it is, whether the scan reported anything or not.
pub retire_lem :
    (now : ℕ) (sbom : Sbom) (cves : List Text) (vulns : List Vulnerability)
    (findings : List Finding)
    → retire_stale_vulnerabilities now sbom cves vulns findings
      ≡ update_where (is_stale sbom cves vulns) (fix_at now) findings
unfolding retire_stale_vulnerabilities
retire_lem now sbom [] vulns findings =
    update_where_congr (is_open_in sbom.id) (is_stale sbom [] vulns) (fix_at now)
      (λ l. rw (no_ids vulns) (ground arith)) findings
retire_lem now sbom (c ∷ cves) vulns findings = refl

-- After `retire_stale_vulnerabilities` every finding of the SBOM that is still open is of a
-- vulnerability whose CVE the scan reported.
pub retire-closes :
    (now : ℕ) (sbom : Sbom) (cves : List Text) (vulns : List Vulnerability)
    (findings : List Finding)
    → All
        (λ l.
          is_open_in sbom.id l ≡ true
          → contains (reported_ids cves vulns) l.vulnerability_id ≡ true)
        (retire_stale_vulnerabilities now sbom cves vulns findings)
retire-closes now sbom cves vulns findings = rw retire_lem (
    All-updated
      (λ l.
        is_open_in sbom.id l ≡ true → contains (reported_ids cves vulns) l.vulnerability_id ≡ true)
      (is_stale sbom cves vulns) (fix_at now) (λ l h o. ground arith) (λ l h o. ground arith)
      findings)

-- The new SBOM is not among the older ones.
pub older_ids_self :
    (sboms : List Sbom) (sbom : Sbom) → contains (older_ids sboms sbom) sbom.id ≡ false
unfolding older_ids
older_ids_self sboms sbom =
    elim (Bool-cases (contains (map (λ s. s.id) (filter (is_older sbom) sboms)) sbom.id)) [
      | inr out ↦ out
      | inl within ↦
          let (a, m, same) =
            mem_of_contains-map (λ s. s.id) (filter (is_older sbom) sboms) sbom.id within in
          let (_, older) = mem_of_mem-filter (is_older sbom) sboms m in
          let equal = (nat_beq_iff a.id sbom.id).1 same in ground arith
    ]

pub is_gone-other :
    (sboms : List Sbom) (sbom : Sbom) (findings : List Finding) (l : Finding)
    → l.sbom_id ≡ sbom.id
    → is_gone sboms sbom findings l ≡ false
is_gone-other sboms sbom findings l e = rw (e, older_ids_self sboms sbom) refl

-- Reconciliation leaves the new SBOM's own open findings as they are.
pub current_ids-reconcile :
    (now : ℕ) (sboms : List Sbom) (sbom : Sbom) (findings : List Finding)
    → current_ids sbom (reconcile_vulnerabilities now sboms sbom findings)
      ≡ current_ids sbom findings
unfolding current_ids
current_ids-reconcile now sboms sbom findings = rw (reconcile_lem now sboms sbom findings) (
    ap (map (λ l. l.vulnerability_id)) (
      filter-update_where_apart (is_open_in sbom.id) (is_gone sboms sbom findings) (fix_at now)
        apart findings))
  where
    apart :
        (l : Finding)
        → is_gone sboms sbom findings l ≡ true
        → (is_open_in sbom.id l ≡ false) × (is_open_in sbom.id (fix_at now l) ≡ false)
    apart l gone = (
      elim (Bool-cases (is_open_in sbom.id l)) [
        | inr out ↦ out
        | inl shown ↦
            let mine : l.sbom_id ≡ sbom.id = ground arith in
            cc (is_gone-other sboms sbom findings l mine, gone)
      ],
      ground arith,
    )
