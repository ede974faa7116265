-- ===== src/Queries/Order.antt =====
-- What `ORDER BY` gives: the same rows, and none behind a row that it comes before.
use argus_sbomguard.Common.{
  ℕ, ◌+◌, Option, none, some, Bool, true, false, List, [], ◌∷◌, ◌≡◌, refl, arith, All, Bool-cases,
  inl, inr, ◌==◌, nat_eq, list_eq, Text, text, length,
}
use mathlib.Core.List.{Perm}
use mathlib.Core.List.Perm
use argus_sbomguard.Models.{Vulnerability}
use argus_sbomguard.Mcp.Paging.{order_by, insert_by}
use argus_sbomguard.Queries.{
  asc_nulls_last, desc_nulls_last, then_by, sort_col, by_severity, by_column, by_cvss, vuln_before,
  apply_vuln_ordering,
}

module _ {ℓ} {A : Type ℓ} where
  -- The test is one of a strict order in which rows can be equal.
  pub record IsOrder (before : A → A → Bool) : Type ℓ where
    pub asymm : (a b : A) → before a b ≡ true → before b a ≡ false
    pub behind : (a b c : A) → before b a ≡ false → before c b ≡ false → before c a ≡ false

  -- No row comes before one that is listed earlier.
  abbrev pub IsSorted : (A → A → Bool) → List A → Type ℓ
  IsSorted before [] = Unit
  IsSorted before (x ∷ xs) = All (λ y. before y x ≡ false) xs × IsSorted before xs

  then_by-IsOrder :
      (before next : A → A → Bool) → IsOrder before → IsOrder next → IsOrder (then_by before next)
  then_by-IsOrder before next o p = record {
    asymm = λ a b h. ground (arith, o.asymm a b, p.asymm a b);
    behind = λ a b c h k. ground (
      arith,
      o.behind a b c,
      o.behind b c a,
      o.behind c a b,
      p.behind a b c,
      o.asymm a b,
      o.asymm b c,
      o.asymm a c,
    );
  }

pub asc_nulls_last-IsOrder {ℓ} :
    {A : Type ℓ} (key : A → Option ℕ) → IsOrder (λ a b. asc_nulls_last (key a) (key b))
asc_nulls_last-IsOrder key = record {
  asymm = λ a b h. asymm (key a) (key b) h;
  behind = λ a b c h k. behind (key a) (key b) (key c) h k;
}
  where
    asymm : (a b : Option ℕ) → asc_nulls_last a b ≡ true → asc_nulls_last b a ≡ false
    asymm none b h = cc
    asymm (some a) none h = refl
    asymm (some a) (some b) h = ground arith

    behind :
        (a b c : Option ℕ)
        → asc_nulls_last b a ≡ false
        → asc_nulls_last c b ≡ false
        → asc_nulls_last c a ≡ false
    behind a b none h k = refl
    behind none none (some c) h k = cc
    behind none (some b) (some c) h k = cc
    behind (some a) none (some c) h k = cc
    behind (some a) (some b) (some c) h k = ground arith

pub desc_nulls_last-IsOrder {ℓ} :
    {A : Type ℓ} (key : A → Option ℕ) → IsOrder (λ a b. desc_nulls_last (key a) (key b))
desc_nulls_last-IsOrder key = record {
  asymm = λ a b h. asymm (key a) (key b) h;
  behind = λ a b c h k. behind (key a) (key b) (key c) h k;
}
  where
    asymm : (a b : Option ℕ) → desc_nulls_last a b ≡ true → desc_nulls_last b a ≡ false
    asymm none b h = cc
    asymm (some a) none h = refl
    asymm (some a) (some b) h = ground arith

    behind :
        (a b c : Option ℕ)
        → desc_nulls_last b a ≡ false
        → desc_nulls_last c b ≡ false
        → desc_nulls_last c a ≡ false
    behind a b none h k = refl
    behind none none (some c) h k = cc
    behind none (some b) (some c) h k = cc
    behind (some a) none (some c) h k = cc
    behind (some a) (some b) (some c) h k = ground arith

by_severity-IsOrder : (order : Text) → IsOrder (by_severity order)
by_severity-IsOrder order = elim (Bool-cases (order == text "asc")) [
  | inl up ↦ record { asymm = λ a b h. ground arith; behind = λ a b c h k. ground arith }
  | inr down ↦ record { asymm = λ a b h. ground arith; behind = λ a b c h k. ground arith }
]

by_column-IsOrder : (sort order : Text) → IsOrder (by_column sort order)
by_column-IsOrder sort order = elim (Bool-cases (order == text "asc")) [
  | inl up ↦
      let o = asc_nulls_last-IsOrder (sort_col sort) in
      record { asymm = λ a b. rw up (o.asymm a b); behind = λ a b c. rw up (o.behind a b c) }
  | inr down ↦
      let o = desc_nulls_last-IsOrder (sort_col sort) in
      record { asymm = λ a b. rw down (o.asymm a b); behind = λ a b c. rw down (o.behind a b c) }
]

pub vuln_before-IsOrder : (sort order : Text) → IsOrder (vuln_before sort order)
unfolding vuln_before
vuln_before-IsOrder sort order = elim (Bool-cases (sort == text "severity")) [
  | inl s ↦ rw s (
      then_by-IsOrder (by_severity order) by_cvss (by_severity-IsOrder order)
        (desc_nulls_last-IsOrder (λ v. v.cvss_score)))
  | inr c ↦ rw c (
      then_by-IsOrder (by_column sort order) by_cvss (by_column-IsOrder sort order)
        (desc_nulls_last-IsOrder (λ v. v.cvss_score)))
]

module _ {ℓ} {A : Type ℓ} (before : A → A → Bool) where
  insert_by-Perm : (x : A) (xs : List A) → Perm (insert_by before x xs) (x ∷ xs)
  insert_by-Perm x [] = Perm.refl (x ∷ [])
  insert_by-Perm x (y ∷ ys) = elim (Bool-cases (before y x)) [
    | inl t ↦ rw t (Perm.trans (Perm.cons y (insert_by-Perm x ys)) (Perm.swap x y ys))
    | inr f ↦ rw f (Perm.refl (x ∷ y ∷ ys))
  ]

  length-insert_by : (x : A) (xs : List A) → length (insert_by before x xs) ≡ length xs + 1
  length-insert_by x [] = omega arith
  length-insert_by x (y ∷ ys) = ground (arith, length-insert_by x ys)

  pub length-order_by : (xs : List A) → length (order_by before xs) ≡ length xs
  unfolding order_by
  length-order_by [] = refl
  length-order_by (x ∷ xs) =
      omega (arith, length-insert_by x (order_by before xs), length-order_by xs)

  pub order_by-Perm : (xs : List A) → Perm (order_by before xs) xs
  unfolding order_by
  order_by-Perm [] = Perm.refl []
  order_by-Perm (x ∷ xs) =
      Perm.trans (insert_by-Perm x (order_by before xs)) (Perm.cons x (order_by-Perm xs))

  module _ (o : IsOrder before) where
    All-insert_by :
        (a x : A) (xs : List A)
        → before x a ≡ false
        → All (λ y. before y a ≡ false) xs
        → All (λ y. before y a ≡ false) (insert_by before x xs)
    All-insert_by a x [] h hs = (h, tt)
    All-insert_by a x (y ∷ ys) h hs = elim (Bool-cases (before y x)) [
      | inl t ↦ rw t (hs.0, All-insert_by a x ys h hs.1)
      | inr f ↦ rw f (h, hs)
    ]

    All-behind :
        (x y : A) (ys : List A)
        → before y x ≡ false
        → All (λ z. before z y ≡ false) ys
        → All (λ z. before z x ≡ false) ys
    All-behind x y [] h hs = tt
    All-behind x y (z ∷ zs) h hs = (o.behind x y z h hs.0, All-behind x y zs h hs.1)

    insert_by-IsSorted :
        (x : A) (xs : List A) → IsSorted before xs → IsSorted before (insert_by before x xs)
    insert_by-IsSorted x [] s = (tt, tt)
    insert_by-IsSorted x (y ∷ ys) s = elim (Bool-cases (before y x)) [
      | inl t ↦ rw t (All-insert_by y x ys (o.asymm y x t) s.0, insert_by-IsSorted x ys s.1)
      | inr f ↦ rw f ((f, All-behind x y ys f s.0), s)
    ]

    pub order_by-IsSorted : (xs : List A) → IsSorted before (order_by before xs)
    unfolding order_by
    order_by-IsSorted [] = tt
    order_by-IsSorted (x ∷ xs) = insert_by-IsSorted x (order_by before xs) (order_by-IsSorted xs)

-- A list of vulnerabilities is ordered without losing or repeating one, and for every sort and order
-- asked for no vulnerability is listed behind one that it comes before.
pub apply_vuln_ordering-sorts :
    (query : List Vulnerability) (sort order : Text)
    → Perm (apply_vuln_ordering query sort order) query
      × IsSorted (vuln_before sort order) (apply_vuln_ordering query sort order)
unfolding apply_vuln_ordering
apply_vuln_ordering-sorts query sort order = (
  order_by-Perm (vuln_before sort order) query,
  order_by-IsSorted (vuln_before sort order) (vuln_before-IsOrder sort order) query,
)
