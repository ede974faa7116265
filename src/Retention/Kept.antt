-- ===== src/Retention/Kept.antt =====
-- What pruning keeps.
use argus_sbomguard.Common.{
  ℕ, suc, ◌<◌, ◌+◌, ◌*◌, ◌↔◌, ◌&&◌, ◌||◌, ltb, refl, option_eq, length, filter-eq-nil, All-of_mem,
  ◌≤◌, Option, none, some, Bool, true, false, List, [], ◌∷◌, map, filter, contains, delete_where,
  ◌==◌, nat_eq, ◌≡◌, ◌⊎◌, inl, inr, sym, ap, ◌∙◌, arith, All, All-get, Memᴰ, IsUnique,
  contains-map_of_mem, mem_of_contains-map, same_of_key, mem-delete_where, All-delete_where,
  mem_of_mem-filter, mem-filter, Bool-cases,
}
use argus_sbomguard.Models.{Sbom, Dependency, Finding}
use argus_sbomguard.Scanning.{row_number, same_scope, ranks_before}
use argus_sbomguard.Scanning.Latest.{exists_latest}
use argus_sbomguard.Retention.{
  Archive, is_expired, expired_ids, sbom_cutoff, prune_sboms, do_prune_old_data,
}

abbrev pub sbom_ids : List Sbom → List ℕ
sbom_ids = map (λ s. s.id)

module _ (cutoff : ℕ) (sboms : List Sbom) (u : IsUnique (sbom_ids sboms)) where
  -- With distinct ids a row is among the expired ones exactly if it has expired itself.
  contains-expired_ids :
      (s : Sbom)
      → Memᴰ s sboms
      → contains (expired_ids cutoff sboms) s.id ≡ is_expired cutoff sboms s
  unfolding expired_ids
  contains-expired_ids s m = elim (Bool-cases (is_expired cutoff sboms s)) [
    | inl t ↦
        contains-map_of_mem (λ (x : Sbom). x.id) (filter (is_expired cutoff sboms) sboms)
          (mem-filter (is_expired cutoff sboms) sboms m t)
        ∙ sym t
    | inr f ↦
        elim (Bool-cases
          (contains (map (λ (x : Sbom). x.id) (filter (is_expired cutoff sboms) sboms)) s.id)) [
            | inr g ↦ g ∙ sym f
            | inl g ↦
                let (x, mx, same) =
                  mem_of_contains-map (λ (x : Sbom). x.id) (filter (is_expired cutoff sboms) sboms)
                    s.id g in
                let (mx', tx) = mem_of_mem-filter (is_expired cutoff sboms) sboms mx in
                let e : x ≡ s = same_of_key (λ (y : Sbom). y.id) sboms u mx' m same in
                cc (ap (is_expired cutoff sboms) e)
          ]
  ]

-- If the ids of the SBOMs are distinct, then after `prune_sboms` each scope that had an SBOM still
-- has one, whatever the retention.
pub prune_sboms-keeps_scope :
    (today : ℕ) (days : Option ℕ) (a : Archive) (s : Sbom)
    → IsUnique (sbom_ids a.sboms)
    → Memᴰ s a.sboms
    → (t : Sbom) × Memᴰ t (prune_sboms today days a).sboms × (same_scope t s ≡ true)
unfolding prune_sboms
prune_sboms-keeps_scope today none a s u m =
    let (t, mt, scope, rn) = exists_latest a.sboms s m in (t, mt, scope)
prune_sboms-keeps_scope today (some days) a s u m =
    let (t, mt, scope, rn) = exists_latest a.sboms s m in
    (
      t,
      mem-delete_where (λ x. contains (expired_ids (sbom_cutoff today days) a.sboms) x.id) a.sboms
          mt (contains-expired_ids (sbom_cutoff today days) a.sboms u t mt ∙ ground arith),
      scope,
    )

-- No SBOM of the same project and service, or of the project and no service, was uploaded later, or
-- at the same instant with a greater id.
abbrev pub IsLatest : List Sbom → Sbom → Type 0
IsLatest sboms s =
    (t : Sbom)
    → Memᴰ t sboms
    → t.project_id ≡ s.project_id
    → t.service_id ≡ s.service_id
    → (t.uploaded_at < s.uploaded_at) ⊎ ((t.uploaded_at ≡ s.uploaded_at) × (t.id ≤ s.id))

-- The SBOM was created so many days before the start of today, or later.
abbrev pub IsRecent : ℕ → ℕ → Sbom → Type 0
IsRecent today days s = today * 86_400_000_000 ≤ s.created_at + days * 86_400_000_000

IsRecent-cutoff :
    (today days : ℕ) (s : Sbom) → IsRecent today days s ↔ (sbom_cutoff today days ≤ s.created_at)
IsRecent-cutoff today days s = (λ h. omega (arith, h), λ h. omega (arith, h))

none_ranks_before :
    (sboms : List Sbom) (s : Sbom)
    → row_number sboms s ≤ 1
    → (t : Sbom) → Memᴰ t sboms
    → (same_scope t s && ranks_before t s) ≡ false
unfolding row_number
none_ranks_before sboms s h t m = elim (Bool-cases (same_scope t s && ranks_before t s)) [
  | inr f ↦ f
  | inl hit ↦ absurd (
      empty (filter (λ t. same_scope t s && ranks_before t s) sboms)
        (mem-filter (λ t. same_scope t s && ranks_before t s) sboms m hit) h)
]
  where
    empty : (l : List Sbom) → Memᴰ t l → ¬ (suc (length l) ≤ 1)
    empty [] m h = elim m [ ]
    empty (x ∷ l) m h = omega (arith, h)

first_of_rows :
    (sboms : List Sbom) (s : Sbom)
    → ((t : Sbom) → Memᴰ t sboms → (same_scope t s && ranks_before t s) ≡ false)
    → row_number sboms s ≤ 1
unfolding row_number
first_of_rows sboms s h =
    rw (filter-eq-nil (λ t. same_scope t s && ranks_before t s) sboms (All-of_mem _ sboms h))
      (omega arith)

row_number-IsLatest : (sboms : List Sbom) (s : Sbom) → (row_number sboms s ≤ 1) ↔ IsLatest sboms s
unfolding same_scope ranks_before
row_number-IsLatest sboms s = (
  λ h t m project service.
      let no = none_ranks_before sboms s h t m in
      let p = (nat_eq.beq_iff t.project_id s.project_id).1 project in
      let q = (option_eq.beq_iff t.service_id s.service_id).1 service in behind t (rw (p, q) at no),
  λ latest. first_of_rows sboms s (λ t m. elim (Bool-cases (same_scope t s)) [
    | inr other ↦ rw other refl
    | inl same ↦
        let ids : ((t.project_id == s.project_id) ≡ true)
            × (option_eq.beq t.service_id s.service_id ≡ true) =
          ground arith in
        elim (latest t m ((nat_eq.beq_iff t.project_id s.project_id).0 ids.0)
          ((option_eq.beq_iff t.service_id s.service_id).0 ids.1)) [
            | inl earlier ↦ rw same (ground (arith, earlier))
            | inr (tied, smaller) ↦ rw same (ground (arith, tied, smaller))
          ]
  ]),
)
  where
    behind :
        (t : Sbom)
        → (ltb s.uploaded_at t.uploaded_at || (t.uploaded_at == s.uploaded_at && ltb s.id t.id))
          ≡ false
        → (t.uploaded_at < s.uploaded_at) ⊎ ((t.uploaded_at ≡ s.uploaded_at) × (t.id ≤ s.id))
    behind t h = ground arith

prune_sboms-kept :
    (today days : ℕ) (a : Archive) (s : Sbom)
    → IsUnique (sbom_ids a.sboms)
    → Memᴰ s a.sboms
    → (((row_number a.sboms s ≤ 1) ⊎ (sbom_cutoff today days ≤ s.created_at))
        → Memᴰ s (prune_sboms today (some days) a).sboms)
      × (Memᴰ s (prune_sboms today (some days) a).sboms
          → (row_number a.sboms s ≤ 1) ⊎ (sbom_cutoff today days ≤ s.created_at))
unfolding prune_sboms
prune_sboms-kept today days a s u m = (kept, back)
  where
    gone : Sbom → Bool
    gone x = contains (expired_ids (sbom_cutoff today days) a.sboms) x.id

    is_gone : gone s ≡ is_expired (sbom_cutoff today days) a.sboms s
    is_gone = contains-expired_ids (sbom_cutoff today days) a.sboms u s m

    kept :
        (row_number a.sboms s ≤ 1) ⊎ (sbom_cutoff today days ≤ s.created_at)
        → Memᴰ s (delete_where gone a.sboms)
    kept h = mem-delete_where gone a.sboms m (is_gone ∙ ground arith)

    back :
        Memᴰ s (delete_where gone a.sboms)
        → (row_number a.sboms s ≤ 1) ⊎ (sbom_cutoff today days ≤ s.created_at)
    back k =
        let stays : gone s ≡ false =
          All-get (λ x. gone x ≡ false) (delete_where gone a.sboms)
            (All-delete_where gone (λ x. gone x ≡ false) a.sboms (λ x _ f. f)) k in
        let fresh : is_expired (sbom_cutoff today days) a.sboms s ≡ false = sym is_gone ∙ stays in
        ground arith

-- If the ids of the SBOMs are distinct, `prune_sboms` with a retention of some days keeps an SBOM
-- exactly if none of its scope, that is of its project and service, was uploaded later (or at the
-- same instant with a greater id), or it was created at most so many days before the start of today.
pub prune_sboms_exact :
    (today days : ℕ) (a : Archive) (s : Sbom)
    → IsUnique (sbom_ids a.sboms)
    → Memᴰ s a.sboms
    → Memᴰ s (prune_sboms today (some days) a).sboms ↔ (IsLatest a.sboms s ⊎ IsRecent today days s)
prune_sboms_exact today days a s u m =
    let (kept, back) = prune_sboms-kept today days a s u m in
    let (latest, first) = row_number-IsLatest a.sboms s in
    let (late, recent) = IsRecent-cutoff today days s in
    (
      λ k. elim (back k) [ inl h ↦ inl (latest h) | inr h ↦ inr (recent h) ],
      λ h. kept (elim h [ inl l ↦ inl (first l) | inr r ↦ inr (late r) ]),
    )

-- The findings and the dependencies belong to SBOMs that are in the table.
pub record HasParents (a : Archive) : Type 0 where
  pub of_findings : All (λ (l : Finding). contains (sbom_ids a.sboms) l.sbom_id ≡ true) a.findings
  pub of_dependencies :
      All (λ (d : Dependency). contains (sbom_ids a.sboms) d.sbom_id ≡ true) a.dependencies

-- An id that is not expired stays.
contains-delete_where :
    (ids : List ℕ) (sboms : List Sbom) (k : ℕ)
    → contains (sbom_ids sboms) k ≡ true
    → contains ids k ≡ false
    → contains (sbom_ids (delete_where (λ s. contains ids s.id) sboms)) k ≡ true
contains-delete_where ids [] k h n = cc
contains-delete_where ids (s ∷ sboms) k h n = elim (Bool-cases (s.id == k)) [
  | inl e ↦
      let same : s.id ≡ k = ground arith in
      let f : contains ids s.id ≡ false = ap (contains ids) same ∙ n in rw f (rw e)
  | inr other ↦
      let rest = contains-delete_where ids sboms k (rw other at h) n in
      elim (Bool-cases (contains ids s.id)) [ inl t ↦ rw t rest | inr f ↦ rw f (rw other rest) ]
]

-- If every finding and every dependency belongs to an SBOM of the table, that is so after
-- `do_prune_old_data` too.
pub do_prune_old_data-HasParents :
    (today snapshot_days : ℕ) (sbom_days : Option ℕ) (a : Archive)
    → HasParents a
    → HasParents (do_prune_old_data today snapshot_days sbom_days a)
unfolding do_prune_old_data
do_prune_old_data-HasParents today snapshot_days none a h = record {
  of_findings = h.of_findings;
  of_dependencies = h.of_dependencies;
}
do_prune_old_data-HasParents today snapshot_days (some days) a h = record {
  of_findings =
      All-delete_where (λ (l : Finding). contains ids l.sbom_id)
        (λ (l : Finding). contains (sbom_ids left) l.sbom_id ≡ true) a.findings
        (λ l m f.
          contains-delete_where ids a.sboms l.sbom_id
            (All-get (λ (l : Finding). contains (sbom_ids a.sboms) l.sbom_id ≡ true) a.findings
              h.of_findings m)
            f);
  of_dependencies =
      All-delete_where (λ (d : Dependency). contains ids d.sbom_id)
        (λ (d : Dependency). contains (sbom_ids left) d.sbom_id ≡ true) a.dependencies
        (λ d m f.
          contains-delete_where ids a.sboms d.sbom_id
            (All-get (λ (d : Dependency). contains (sbom_ids a.sboms) d.sbom_id ≡ true)
              a.dependencies h.of_dependencies m)
            f);
}
  where
    ids : List ℕ
    ids = expired_ids (sbom_cutoff today days) a.sboms

    left : List Sbom
    left = delete_where (λ s. contains ids s.id) a.sboms
