-- ===== src/Site/Projects/Latest.antt =====
-- The SBOMs that the list of a project is made from.
use argus_sbomguard.Common.{
  ℕ, ◌≤◌, Option, true, ◌||◌, List, [], ◌∷◌, map, contains, ltb, nat_eq, option_eq, ◌≡◌, refl, sym,
  ap, ◌∙◌, arith, IsUnique, mem-cons_cases, Memᴰ, Bool-cases, inl, inr, ◌⊎◌,
}
use argus_sbomguard.Models.{Sbom}
use argus_sbomguard.Site.Projects.{put_latest, latest_from, latest_sboms, sboms_of_project}

abbrev pub scope_of : Sbom → Option ℕ
scope_of s = s.service_id

-- One of the list is of the same service, and not older.
abbrev pub Beaten : List Sbom → Sbom → Type 0
Beaten l s = (m : Sbom) × Memᴰ m l × (scope_of m ≡ scope_of s) × (s.created_at ≤ m.created_at)

same_scope : (a b : Sbom) → option_eq.beq a.service_id b.service_id ≡ true → scope_of a ≡ scope_of b
same_scope a b h = (option_eq.beq_iff a.service_id b.service_id).0 h

beq_symm :
    (a b : Sbom)
    → option_eq.beq (scope_of a) (scope_of b) ≡ true
    → option_eq.beq b.service_id a.service_id ≡ true
beq_symm a b h = (option_eq.beq_iff b.service_id a.service_id).1 (sym (same_scope a b h))

put_latest-scopes :
    (s : Sbom) (l : List Sbom) (k : Option ℕ)
    → contains ⦃e = option_eq⦄ (map scope_of (put_latest s l)) k
      ≡ (contains ⦃e = option_eq⦄ (map scope_of l) k || option_eq.beq (scope_of s) k)
unfolding put_latest
put_latest-scopes s [] k = ground arith
put_latest-scopes s (kept ∷ l) k = elim (Bool-cases (option_eq.beq kept.service_id s.service_id)) [
  | inr f ↦ rw f (ground (arith, put_latest-scopes s l k))
  | inl t ↦ rw t (elim (Bool-cases (ltb kept.created_at s.created_at)) [
    | inl u ↦ rw u (ground (arith, ap (λ o. option_eq.beq o k) (same_scope kept s t)))
    | inr g ↦ rw g (ground (arith, ap (λ o. option_eq.beq o k) (same_scope kept s t)))
  ])
]

put_latest-IsUnique :
    (s : Sbom) (l : List Sbom)
    → IsUnique ⦃e = option_eq⦄ (map scope_of l)
    → IsUnique ⦃e = option_eq⦄ (map scope_of (put_latest s l))
unfolding put_latest
put_latest-IsUnique s [] u = (refl, tt)
put_latest-IsUnique s (kept ∷ l) u =
    elim (Bool-cases (option_eq.beq kept.service_id s.service_id)) [
      | inr f ↦ rw f (
        put_latest-scopes s l (scope_of kept) ∙ ground (arith, u.0, beq_symm s kept),
        put_latest-IsUnique s l u.1,
      )
      | inl t ↦ rw t (elim (Bool-cases (ltb kept.created_at s.created_at)) [
        | inl v ↦
            rw v (
              sym (ap (contains ⦃e = option_eq⦄ (map scope_of l)) (same_scope kept s t)) ∙ u.0,
              u.1,
            )
        | inr g ↦ rw g u
      ])
    ]

put_latest-Beaten : (s : Sbom) (l : List Sbom) → Beaten (put_latest s l) s
unfolding put_latest
put_latest-Beaten s [] = (s, Memᴰ.head refl, refl, omega arith)
put_latest-Beaten s (kept ∷ l) = elim (Bool-cases (option_eq.beq kept.service_id s.service_id)) [
  | inr f ↦
      let (m, listed, same, le) = put_latest-Beaten s l in rw f (m, Memᴰ.tail listed, same, le)
  | inl t ↦ rw t (elim (Bool-cases (ltb kept.created_at s.created_at)) [
    | inl v ↦ rw v (s, Memᴰ.head refl, refl, omega arith)
    | inr g ↦ rw g (kept, Memᴰ.head refl, same_scope kept s t, ground arith)
  ])
]

-- A row that is beaten stays so.
Beaten-put_latest : (s x : Sbom) (l : List Sbom) → Beaten l x → Beaten (put_latest s l) x
unfolding put_latest
Beaten-put_latest s x [] (m, listed, same, le) = elim listed [ ]
Beaten-put_latest s x (kept ∷ l) (m, Memᴰ.head e, same, le) =
    let own : scope_of kept ≡ scope_of x = cc (ap scope_of e) in
    let newer : x.created_at ≤ kept.created_at = omega (arith, ap (λ (r : Sbom). r.created_at) e) in
    elim (Bool-cases (option_eq.beq kept.service_id s.service_id)) [
      | inr f ↦ rw f (kept, Memᴰ.head refl, own, newer)
      | inl t ↦ rw t (elim (Bool-cases (ltb kept.created_at s.created_at)) [
        | inl v ↦ rw v (s, Memᴰ.head refl, sym (same_scope kept s t) ∙ own, ground arith)
        | inr g ↦ rw g (kept, Memᴰ.head refl, own, newer)
      ])
    ]
Beaten-put_latest s x (kept ∷ l) (m, Memᴰ.tail listed, same, le) =
    elim (Bool-cases (option_eq.beq kept.service_id s.service_id)) [
      | inl t ↦ rw t (m, Memᴰ.tail listed, same, le)
      | inr f ↦
          let (n, there, alike, newer) = Beaten-put_latest s x l (m, listed, same, le) in
          rw f (n, Memᴰ.tail there, alike, newer)
    ]

mem_of-put_latest :
    {m : Sbom} (s : Sbom) (l : List Sbom) → Memᴰ m (put_latest s l) → (m ≡ s) ⊎ Memᴰ m l
unfolding put_latest
mem_of-put_latest s [] (Memᴰ.head e) = inl e
mem_of-put_latest s [] (Memᴰ.tail h) = elim h [ ]
mem_of-put_latest s (kept ∷ l) h = elim (Bool-cases (option_eq.beq kept.service_id s.service_id)) [
  | inr f ↦ elim (mem-cons_cases (rw f at h)) [
    | inl e ↦ inr (Memᴰ.head e)
    | inr r ↦ elim (mem_of-put_latest s l r) [ inl e ↦ inl e | inr n ↦ inr (Memᴰ.tail n) ]
  ]
  | inl t ↦ elim (mem-cons_cases (rw t at h)) [
    | inr r ↦ inr (Memᴰ.tail r)
    | inl e ↦ elim (Bool-cases (ltb kept.created_at s.created_at)) [
      | inl v ↦ inl (rw v at e)
      | inr g ↦ inr (Memᴰ.head (rw g at e))
    ]
  ]
]

latest_from-IsUnique :
    (l sboms : List Sbom)
    → IsUnique ⦃e = option_eq⦄ (map scope_of l)
    → IsUnique ⦃e = option_eq⦄ (map scope_of (latest_from l sboms))
latest_from-IsUnique l [] u = u
latest_from-IsUnique l (s ∷ sboms) u =
    latest_from-IsUnique (put_latest s l) sboms (put_latest-IsUnique s l u)

Beaten-latest_from : (x : Sbom) (l sboms : List Sbom) → Beaten l x → Beaten (latest_from l sboms) x
Beaten-latest_from x l [] b = b
Beaten-latest_from x l (s ∷ sboms) b =
    Beaten-latest_from x (put_latest s l) sboms (Beaten-put_latest s x l b)

latest_from-Beaten :
    (x : Sbom) (l sboms : List Sbom) → Memᴰ x sboms → Beaten (latest_from l sboms) x
latest_from-Beaten x l [] h = elim h [ ]
latest_from-Beaten x l (s ∷ sboms) (Memᴰ.head e) =
    rw e (Beaten-latest_from s (put_latest s l) sboms (put_latest-Beaten s l))
latest_from-Beaten x l (s ∷ sboms) (Memᴰ.tail h) = latest_from-Beaten x (put_latest s l) sboms h

mem_of-latest_from :
    {m : Sbom} (l sboms : List Sbom) → Memᴰ m (latest_from l sboms) → Memᴰ m l ⊎ Memᴰ m sboms
mem_of-latest_from l [] h = inl h
mem_of-latest_from l (s ∷ sboms) h = elim (mem_of-latest_from (put_latest s l) sboms h) [
  | inr there ↦ inr (Memᴰ.tail there)
  | inl put ↦ elim (mem_of-put_latest s l put) [ inl e ↦ inr (Memᴰ.head e) | inr kept ↦ inl kept ]
]

-- What is kept is an SBOM of the project.
pub mem_of-latest_sboms :
    {m : Sbom} (project : ℕ) (service : Option ℕ) (sboms : List Sbom)
    → Memᴰ m (latest_sboms project service sboms)
    → Memᴰ m (sboms_of_project project service sboms)
unfolding latest_sboms
mem_of-latest_sboms project service sboms h =
    elim (mem_of-latest_from [] (sboms_of_project project service sboms) h) [
      | inl none_kept ↦ elim none_kept [ ]
      | inr listed ↦ listed
    ]

-- The list of a project is made from one SBOM of the project for each service that has one, and one
-- without a service, and none of the same service was created later.
pub latest_sboms-latest :
    (project : ℕ) (service : Option ℕ) (sboms : List Sbom)
    → IsUnique ⦃e = option_eq⦄ (map scope_of (latest_sboms project service sboms))
      × ((s : Sbom)
          → Memᴰ s (sboms_of_project project service sboms)
          → Beaten (latest_sboms project service sboms) s)
unfolding latest_sboms
latest_sboms-latest project service sboms = (
  latest_from-IsUnique [] (sboms_of_project project service sboms) tt,
  λ s listed. latest_from-Beaten s [] (sboms_of_project project service sboms) listed,
)
