-- ===== src/Site/Vulnerabilities/Scopes.antt =====
-- The scopes that the page offers for a vulnerability.
use argus_sbomguard.Common.{
  ℕ, Option, List, [], ◌∷◌, ◌==◌, nat_eq, option_eq, ◌≡◌, refl, sym, ap, ◌∙◌, Memᴰ, mem-cons_cases,
  Bool-cases, inl, inr, ◌⊎◌,
}
use argus_sbomguard.Queries.Members.{mem-order_by, mem_of-order_by}
use argus_sbomguard.Site.Vulnerabilities.{
  ScopeRow, PageScope, page_scope, put_page_scope, bucket_from, page_scope_before, scope_map,
}

mem_of-put_page_scope :
    {s : PageScope} (scope : PageScope) (bucket : List PageScope)
    → Memᴰ s (put_page_scope scope bucket)
    → (s ≡ scope) ⊎ Memᴰ s bucket
unfolding put_page_scope
mem_of-put_page_scope scope [] m = mem-cons_cases m
mem_of-put_page_scope scope (b ∷ bucket) m =
    elim (Bool-cases (option_eq.beq b.service_id scope.service_id)) [
      | inl same ↦ elim (mem-cons_cases (rw same at m)) [
        | inl e ↦ inl e
        | inr old ↦ inr (Memᴰ.tail old)
      ]
      | inr other ↦ elim (mem-cons_cases (rw other at m)) [
        | inl e ↦ inr (Memᴰ.head e)
        | inr more ↦ elim (mem_of-put_page_scope scope bucket more) [
          | inl e ↦ inl e
          | inr old ↦ inr (Memᴰ.tail old)
        ]
      ]
    ]

-- A scope of the service is in the bucket.
abbrev pub HasService : Option ℕ → List PageScope → Type 0
HasService service bucket = (s : PageScope) × Memᴰ s bucket × (s.service_id ≡ service)

cons-HasService :
    {service : Option ℕ} {bucket : List PageScope} (b : PageScope)
    → HasService service bucket
    → HasService service (b ∷ bucket)
cons-HasService b (s, m, e) = (s, Memᴰ.tail m, e)

put_page_scope-HasService :
    (scope : PageScope) (bucket : List PageScope)
    → HasService scope.service_id (put_page_scope scope bucket)
unfolding put_page_scope
put_page_scope-HasService scope [] = (scope, Memᴰ.head refl, refl)
put_page_scope-HasService scope (b ∷ bucket) =
    elim (Bool-cases (option_eq.beq b.service_id scope.service_id)) [
      | inl same ↦ rw same (scope, Memᴰ.head refl, refl)
      | inr other ↦ rw other (cons-HasService b (put_page_scope-HasService scope bucket))
    ]

-- A scope that takes the place of another has its service.
put_page_scope-keeps :
    (service : Option ℕ) (scope : PageScope) (bucket : List PageScope)
    → HasService service bucket
    → HasService service (put_page_scope scope bucket)
unfolding put_page_scope
put_page_scope-keeps service scope [] (s, m, e) = elim m [ ]
put_page_scope-keeps service scope (b ∷ bucket) (s, m, e) =
    elim (Bool-cases (option_eq.beq b.service_id scope.service_id)) [
      | inl same ↦ rw same (elim (mem-cons_cases m) [
        | inl first ↦ (
          scope,
          Memᴰ.head refl,
          sym ((option_eq.beq_iff b.service_id scope.service_id).0 same)
              ∙ sym (ap (λ (x : PageScope). x.service_id) first)
              ∙ e,
        )
        | inr old ↦ (s, Memᴰ.tail old, e)
      ])
      | inr other ↦ rw other (elim (mem-cons_cases m) [
        | inl first ↦ (s, Memᴰ.head first, e)
        | inr old ↦ cons-HasService b (put_page_scope-keeps service scope bucket (s, old, e))
      ])
    ]

-- The scope is that of a row of the vulnerability.
abbrev pub IsOfRow : ℕ → List ScopeRow → PageScope → Type 0
IsOfRow k rows s =
    (row : ScopeRow) × Memᴰ row rows × (row.vulnerability_id ≡ k) × (s ≡ page_scope row)

IsOfRow-tail :
    {k : ℕ} {s : PageScope} {rows : List ScopeRow} (row : ScopeRow)
    → IsOfRow k rows s
    → IsOfRow k (row ∷ rows) s
IsOfRow-tail row (r, m, of_k, e) = (r, Memᴰ.tail m, of_k, e)

bucket_from-IsOfRow :
    {s : PageScope} (k : ℕ) (bucket : List PageScope) (rows : List ScopeRow)
    → Memᴰ s (bucket_from k bucket rows)
    → Memᴰ s bucket ⊎ IsOfRow k rows s
unfolding bucket_from
bucket_from-IsOfRow k bucket [] m = inl m
bucket_from-IsOfRow k bucket (row ∷ rows) m = elim (Bool-cases (row.vulnerability_id == k)) [
  | inl hit ↦
      elim (bucket_from-IsOfRow k (put_page_scope (page_scope row) bucket) rows (rw hit at m)) [
        | inr found ↦ inr (IsOfRow-tail row found)
        | inl put ↦ elim (mem_of-put_page_scope (page_scope row) bucket put) [
          | inl e ↦ inr (row, Memᴰ.head refl, (nat_eq.beq_iff row.vulnerability_id k).0 hit, e)
          | inr old ↦ inl old
        ]
      ]
  | inr miss ↦ elim (bucket_from-IsOfRow k bucket rows (rw miss at m)) [
    | inl old ↦ inl old
    | inr found ↦ inr (IsOfRow-tail row found)
  ]
]

bucket_from-keeps :
    (k : ℕ) (service : Option ℕ) (bucket : List PageScope) (rows : List ScopeRow)
    → HasService service bucket
    → HasService service (bucket_from k bucket rows)
unfolding bucket_from
bucket_from-keeps k service bucket [] h = h
bucket_from-keeps k service bucket (row ∷ rows) h = elim (Bool-cases (row.vulnerability_id == k)) [
  | inl hit ↦ rw hit (
      bucket_from-keeps k service (put_page_scope (page_scope row) bucket) rows
        (put_page_scope-keeps service (page_scope row) bucket h))
  | inr miss ↦ rw miss (bucket_from-keeps k service bucket rows h)
]

bucket_from-HasService :
    {r : ScopeRow} (k : ℕ) (bucket : List PageScope) (rows : List ScopeRow)
    → Memᴰ r rows
    → r.vulnerability_id ≡ k
    → HasService r.service_id (bucket_from k bucket rows)
unfolding bucket_from
bucket_from-HasService k bucket [] m e = elim m [ ]
bucket_from-HasService {r} k bucket (row ∷ rows) m e = elim (mem-cons_cases m) [
  | inl first ↦
      rw
        ((nat_eq.beq_iff row.vulnerability_id k).1
          (sym (ap (λ (x : ScopeRow). x.vulnerability_id) first) ∙ e))
        (bucket_from-keeps k r.service_id (put_page_scope (page_scope row) bucket) rows
          (rw first (put_page_scope-HasService (page_scope row) bucket)))
  | inr more ↦ elim (Bool-cases (row.vulnerability_id == k)) [
    | inl hit ↦
        rw hit (bucket_from-HasService k (put_page_scope (page_scope row) bucket) rows more e)
    | inr miss ↦ rw miss (bucket_from-HasService k bucket rows more e)
  ]
]

-- Each scope that is offered for a vulnerability is that of a row of the vulnerability.
pub scope_map-IsOfRow :
    {s : PageScope} (k : ℕ) (rows : List ScopeRow) → Memᴰ s (scope_map k rows) → IsOfRow k rows s
unfolding scope_map
scope_map-IsOfRow k rows m =
    elim (bucket_from-IsOfRow k [] rows
      (mem_of-order_by page_scope_before (bucket_from k [] rows) m)) [
        | inl none_yet ↦ elim none_yet [ ]
        | inr found ↦ found
      ]

-- For each row of a vulnerability a scope of the service of the row is offered, or one without a
-- service if the row has none; its project may be that of another row.
pub scope_map-HasService :
    {r : ScopeRow} (k : ℕ) (rows : List ScopeRow)
    → Memᴰ r rows
    → r.vulnerability_id ≡ k
    → HasService r.service_id (scope_map k rows)
unfolding scope_map
scope_map-HasService k rows m e =
    let (s, found, same) = bucket_from-HasService k [] rows m e in
    (s, mem-order_by page_scope_before (bucket_from k [] rows) found, same)
