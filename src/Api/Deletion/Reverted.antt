-- ===== src/Api/Deletion/Reverted.antt =====
-- What the findings are after an SBOM is deleted.
use argus_sbomguard.Common.{
  ℕ, Option, none, some, true, false, List, [], ◌∷◌, map, filter, find, contains, update_where, ltb,
  ◌==◌, nat_eq, ◌≡◌, refl, arith, inl, inr, Memᴰ, All, Bool-cases, nat_beq_iff, mem-delete_where,
  mem-update_where_kept, mem-update_where_hit, mem_of_mem-filter, contains-map_of_mem,
}
use argus_sbomguard.Models.{Sbom, Finding, is_open}
use argus_sbomguard.Scanner.{older_ids, current_ids, reconcile_vulnerabilities, fix_at}
use argus_sbomguard.Scanner.Closing.{
  is_gone, reconcile_lem, reconcile-closes, is_gone-other, current_ids-reconcile,
}
use argus_sbomguard.Api.Deletion.{
  SbomTables, is_sibling, newer, latest_of, delete_row, reopen, is_fixed_in, revert_fixed,
  delete_found, delete_sbom,
}

-- The latest of some SBOMs is one of them.
mem-latest_of : (l : List Sbom) (s : Sbom) → latest_of l ≡ some s → Memᴰ s l
unfolding latest_of
mem-latest_of [] s h = cc
mem-latest_of (x ∷ l) s h = from (latest_of l) (mem-latest_of l) h
  where
    from :
        (o : Option Sbom)
        → ((y : Sbom) → o ≡ some y → Memᴰ y l)
        → newer x o ≡ some s
        → Memᴰ s (x ∷ l)
    from none e h = let same : s ≡ x = cc in Memᴰ.head same
    from (some y) e h = elim (Bool-cases (ltb x.uploaded_at y.uploaded_at)) [
      | inl later ↦ let same : some y ≡ some s = (rw later at h) in Memᴰ.tail (e s same)
      | inr not_later ↦
          let same : some x ≡ some s = (rw not_later at h) in
          let same' : s ≡ x = cc in Memᴰ.head same'
    ]

revert_fixed-open :
    (ids : List ℕ) (findings : List Finding) (l : Finding)
    → Memᴰ l findings
    → is_open l.status ≡ true
    → Memᴰ l (revert_fixed ids findings)
revert_fixed-open [] findings l m h = m
revert_fixed-open (k ∷ ids) findings l m h =
    revert_fixed-open ids (update_where (is_fixed_in k) reopen findings) l
      (mem-update_where_kept (is_fixed_in k) reopen findings m (ground arith)) h

revert_fixed-reopens :
    (ids : List ℕ) (findings : List Finding) (l : Finding)
    → Memᴰ l findings
    → is_open l.status ≡ false
    → contains ids l.sbom_id ≡ true
    → Memᴰ (reopen l) (revert_fixed ids findings)
revert_fixed-reopens [] findings l m h c = cc
revert_fixed-reopens (k ∷ ids) findings l m h c = elim (Bool-cases (l.sbom_id == k)) [
  | inl here ↦
      revert_fixed-open ids (update_where (is_fixed_in k) reopen findings) (reopen l)
        (mem-update_where_hit (is_fixed_in k) reopen findings m (ground arith)) refl
  | inr there ↦
      revert_fixed-reopens ids (update_where (is_fixed_in k) reopen findings) l
        (mem-update_where_kept (is_fixed_in k) reopen findings m (ground arith)) h
        (ground (arith, nat_beq_iff l.sbom_id k, nat_beq_iff k l.sbom_id))
]

module _ (now k : ℕ) (t t' : SbomTables) (s latest : Sbom)
    (found : find (λ x. x.id == k) t.sboms ≡ some s)
    (last : latest_of (filter (is_sibling s) t.sboms) ≡ some latest)
    (done : delete_sbom now k t ≡ some t') where
  -- The tables after the delete.
  deleted : delete_found now s t ≡ t'
  unfolding delete_sbom
  deleted = let e = (rw (found, delete_sbom) at done) in cc e

  reverted : List Finding
  reverted =
      revert_fixed (map (λ x. x.id) (filter (is_sibling s) t.sboms)) (delete_row s.id t).findings

  after_findings : t'.findings ≡ reconcile_vulnerabilities now t'.sboms latest reverted
  unfolding reverted
  after_findings = rw (← deleted) (rw last refl)

  -- If an SBOM is deleted and another one of its scope remains, then every finding that is open in an
  -- SBOM older than the latest one is of a vulnerability that is open in the latest one.
  pub delete_sbom-closes :
      All
        (λ l.
          contains (older_ids t'.sboms latest) l.sbom_id ≡ true
          → is_open l.status ≡ true
          → contains (current_ids latest t'.findings) l.vulnerability_id ≡ true)
        t'.findings
  delete_sbom-closes = rw after_findings (
      rw (current_ids-reconcile now t'.sboms latest reverted)
        (reconcile-closes now t'.sboms latest reverted))

  -- If an SBOM is deleted and another one of its scope remains, then every finding of the latest one
  -- that was fixed is open again, also one that its last scan had retired.
  pub delete_sbom-reopens :
      (l : Finding)
      → Memᴰ l t.findings
      → l.sbom_id ≡ latest.id
      → is_open l.status ≡ false
      → Memᴰ (reopen l) t'.findings
  delete_sbom-reopens l m e h =
      let (member, sibling) =
        mem_of_mem-filter (is_sibling s) t.sboms
          (mem-latest_of (filter (is_sibling s) t.sboms) latest last) in
      let other : (l.sbom_id == s.id) ≡ false = rw e (ground arith) in
      let among : contains (map (λ x. x.id) (filter (is_sibling s) t.sboms)) l.sbom_id ≡ true =
        rw e (
          contains-map_of_mem (λ x. x.id) (filter (is_sibling s) t.sboms)
            (mem-latest_of (filter (is_sibling s) t.sboms) latest last)) in
      let here : Memᴰ (reopen l) reverted =
        unfold reverted in
        revert_fixed-reopens (map (λ x. x.id) (filter (is_sibling s) t.sboms))
          (delete_row s.id t).findings l
          (mem-delete_where (λ x. x.sbom_id == s.id) t.findings m other) h among in
      rw after_findings (
        rw (reconcile_lem now t'.sboms latest reverted) (
          mem-update_where_kept (is_gone t'.sboms latest reverted) (fix_at now) reverted here
            (is_gone-other t'.sboms latest reverted (reopen l) e)))
