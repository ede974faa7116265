-- ===== src/Scanning/Latest.antt =====
-- Each scope that has an SBOM has a latest one.
use argus_sbomguard.Common.{
  suc, Bool, true, false, ◌&&◌, List, [], ◌∷◌, filter, length, All, Memᴰ, nat_eq, option_eq, ◌≡◌,
  inl, inr, refl, ap, arith, Bool-cases, filter-eq-nil, All-get, ==_refl,
}
use argus_sbomguard.Models.{Sbom}
use argus_sbomguard.Scanning.{same_scope, ranks_before, row_number}

pub same_scope_refl : (s : Sbom) → same_scope s s ≡ true
unfolding same_scope
same_scope_refl s = rw (==_refl s.project_id, ==_refl ⦃e = option_eq⦄ s.service_id)

pub same_scope_trans :
    (a b c : Sbom) → same_scope a b ≡ true → same_scope b c ≡ true → same_scope a c ≡ true
unfolding same_scope
same_scope_trans a b c h k = ground arith

pub same_scope_symm : (a b : Sbom) → same_scope a b ≡ true → same_scope b a ≡ true
unfolding same_scope
same_scope_symm a b h = ground arith

-- What does not come before `b` does not come before what comes before `b`.
ranks_before_trans :
    (u x b : Sbom) → ranks_before u b ≡ false → ranks_before x b ≡ true → ranks_before u x ≡ false
unfolding ranks_before
ranks_before_trans u x b h k = ground arith

ranks_before_irrefl : (s : Sbom) → ranks_before s s ≡ false
unfolding ranks_before
ranks_before_irrefl s = ground arith

abbrev Beats : Sbom → Sbom → Type 0
Beats t u = (same_scope u t && ranks_before u t) ≡ false

-- The order on the scope is total and transitive.
not_before_of_before :
    (x b t : Sbom) → ranks_before x b ≡ true → ranks_before x t ≡ false → ranks_before b t ≡ false
unfolding ranks_before
not_before_of_before x b t h k = ground arith

not_before_trans :
    (x b t : Sbom) → ranks_before x b ≡ false → ranks_before b t ≡ false → ranks_before x t ≡ false
unfolding ranks_before
not_before_trans x b t h k = ground arith

record Best (l : List Sbom) (b : Sbom) : Type 0 where
  row : Sbom
  present : Memᴰ row (b ∷ l)
  scope : same_scope row b ≡ true
  first : ranks_before b row ≡ false
  beats : All (Beats row) l

Beats-of :
    (t b x : Sbom)
    → same_scope t b ≡ true
    → (same_scope x b && ranks_before x b) ≡ false
    → ranks_before b t ≡ false
    → Beats t x
Beats-of t b x s h k = elim (Bool-cases (same_scope x t)) [
  | inr f ↦ rw f
  | inl e ↦ rw e (not_before_trans x b t (ground (arith, same_scope_trans x t b)) k)
]

put_behind : {t : Sbom} (b x : Sbom) (l : List Sbom) → Memᴰ t (b ∷ l) → Memᴰ t (b ∷ x ∷ l)
put_behind b x l (Memᴰ.head e) = Memᴰ.head e
put_behind b x l (Memᴰ.tail m) = Memᴰ.tail (Memᴰ.tail m)

-- The row that no row of the scope comes before, among `b` and a list.
best : (l : List Sbom) (b : Sbom) → Best l b
best [] b = record {
  row = b;
  present = Memᴰ.head refl;
  scope = same_scope_refl b;
  first = ranks_before_irrefl b;
  beats = tt;
}
best (x ∷ l) b = elim (Bool-cases (same_scope x b && ranks_before x b)) [
  | inl t ↦
      let r = best l x in
      let s : same_scope x b ≡ true = ground arith in
      let k : ranks_before x b ≡ true = ground arith in
      record {
        row = r.row;
        present = Memᴰ.tail r.present;
        scope = same_scope_trans r.row x b r.scope s;
        first = not_before_of_before x b r.row k r.first;
        beats =
            (Beats-of r.row x x r.scope (ground (arith, ranks_before_irrefl x)) r.first, r.beats);
      }
  | inr f ↦
      let r = best l b in
      record {
        row = r.row;
        present = put_behind b x l r.present;
        scope = r.scope;
        first = r.first;
        beats = (Beats-of r.row b x r.scope f r.first, r.beats);
      }
]

not_filtered :
    (p : Sbom → Bool) (l : List Sbom) → length (filter p l) ≡ 0 → All (λ x. p x ≡ false) l
not_filtered p [] h = tt
not_filtered p (x ∷ l) h = elim (Bool-cases (p x)) [
  | inl t ↦ absurd (ground arith)
  | inr f ↦ (f, not_filtered p l (rw f at h))
]

mem_of_present : {t : Sbom} (s : Sbom) (l : List Sbom) → Memᴰ s l → Memᴰ t (s ∷ l) → Memᴰ t l
mem_of_present s l m (Memᴰ.head e) = rw e m
mem_of_present s l m (Memᴰ.tail n) = n

tied : (t u : Sbom) → ranks_before t u ≡ false → ranks_before u t ≡ false → t.id ≡ u.id
unfolding ranks_before
tied t u h k = ground arith

-- The scope of every SBOM has a row with number 1.
pub exists_latest :
    (sboms : List Sbom) (s : Sbom)
    → Memᴰ s sboms
    → (t : Sbom) × Memᴰ t sboms × (same_scope t s ≡ true) × (row_number sboms t ≡ 1)
unfolding row_number
exists_latest sboms s m =
    let r = best sboms s in
    (
      r.row,
      mem_of_present s sboms m r.present,
      r.scope,
      ap (λ l. suc (length l))
          (filter-eq-nil (λ t. same_scope t r.row && ranks_before t r.row) sboms r.beats),
    )

-- Every scope that has an SBOM has exactly one row number 1: a row of the scope with this number
-- exists, and two rows of one scope that have it have the same id.
pub latest_of_scope :
    (sboms : List Sbom) (s : Sbom)
    → Memᴰ s sboms
    → ((t : Sbom) × Memᴰ t sboms × (same_scope t s ≡ true) × (row_number sboms t ≡ 1))
      × ((t u : Sbom)
          → Memᴰ t sboms
          → Memᴰ u sboms
          → same_scope t u ≡ true
          → row_number sboms t ≡ 1
          → row_number sboms u ≡ 1
          → t.id ≡ u.id)
unfolding row_number
latest_of_scope sboms s m = (unfold row_number in exists_latest sboms s m, same_id)
  where
    same_id :
        (t u : Sbom)
        → Memᴰ t sboms
        → Memᴰ u sboms
        → same_scope t u ≡ true
        → suc (length (filter (λ x. same_scope x t && ranks_before x t) sboms)) ≡ 1
        → suc (length (filter (λ x. same_scope x u && ranks_before x u) sboms)) ≡ 1
        → t.id ≡ u.id
    same_id t u mt mu h p q =
        tied t u
          (let a =
              All-get (λ x. (same_scope x u && ranks_before x u) ≡ false) sboms
                (not_filtered _ sboms (omega arith)) mt in
            rw h at a)
          (let b =
              All-get (λ x. (same_scope x t && ranks_before x t) ≡ false) sboms
                (not_filtered _ sboms (omega arith)) mu in
            rw (same_scope_symm t u h) at b)
