-- ===== src/Common/Tables.antt =====
-- Lists as tables: what is found in them, and what updates and deletes leave.

use mathlib.Core.Path.{◌≡◌, refl, ap, ◌∙◌}
use mathlib.Core.Logic.{◌⊎◌, inl, inr}
use mathlib.Core.Bool.{Bool, true, false}
use mathlib.Core.Option.{none, some}
use mathlib.Core.List.{List, [], ◌∷◌, ◌++◌, Memᴰ}
use native.Mathlib.Omega.{arith}
use argus_sbomguard.Common.Test.{Eq, ◌==◌, if◌then◌else◌, Bool-cases}
use argus_sbomguard.Common.Lists.{
  filter, any, find, update_where, delete_where, any_of_mem, contains, add, All-append, All,
}

module _ {ℓ} {A : Type ℓ} (p : A → Bool) where
  pub find-holds : (xs : List A) (a : A) → find p xs ≡ some a → p a ≡ true
  find-holds [] a h = cc
  find-holds (x ∷ xs) a h = ground (arith, find-holds xs a)

  pub mem_of_find : (xs : List A) (a : A) → find p xs ≡ some a → Memᴰ a xs
  mem_of_find [] a h = cc
  mem_of_find (x ∷ xs) a h = elim (Bool-cases (p x)) [
    | inl t ↦ Memᴰ.head (ground arith)
    | inr f ↦ Memᴰ.tail (mem_of_find xs a (ground arith))
  ]

  -- A query with no result says that no row fits.
  pub none_of_find : (xs : List A) → find p xs ≡ none → All (λ x. p x ≡ false) xs
  none_of_find [] h = tt
  none_of_find (x ∷ xs) h = ground (arith, none_of_find xs)

module _ {ℓ} {A : Type ℓ} where
  pub mem-append_left : {a : A} (xs ys : List A) → Memᴰ a xs → Memᴰ a (xs ++ ys)
  mem-append_left [] ys m = elim m [ ]
  mem-append_left (x ∷ xs) ys (Memᴰ.head e) = Memᴰ.head e
  mem-append_left (x ∷ xs) ys (Memᴰ.tail m) = Memᴰ.tail (mem-append_left xs ys m)

  pub mem-append_right : {a : A} (xs ys : List A) → Memᴰ a ys → Memᴰ a (xs ++ ys)
  mem-append_right [] ys m = m
  mem-append_right (x ∷ xs) ys m = Memᴰ.tail (mem-append_right xs ys m)

  pub mem-append-cases : {a : A} (xs ys : List A) → Memᴰ a (xs ++ ys) → Memᴰ a xs ⊎ Memᴰ a ys
  mem-append-cases [] ys m = inr m
  mem-append-cases (x ∷ xs) ys (Memᴰ.head e) = inl (Memᴰ.head e)
  mem-append-cases (x ∷ xs) ys (Memᴰ.tail m) = elim (mem-append-cases xs ys m) [
    | inl l ↦ inl (Memᴰ.tail l)
    | inr r ↦ inr r
  ]

module _ {ℓ} {A : Type ℓ} ⦃e : Eq A⦄ where
  pub mem_of_contains : (xs : List A) (a : A) → contains xs a ≡ true → Memᴰ a xs
  mem_of_contains [] a h = cc
  mem_of_contains (x ∷ xs) a h = elim (Bool-cases (x == a)) [
    | inl t ↦ Memᴰ.head (ground (arith, (e.beq_iff x a).0 t))
    | inr f ↦ Memᴰ.tail (mem_of_contains xs a (ground arith))
  ]

  pub contains_of_mem : (xs : List A) (a : A) → Memᴰ a xs → contains xs a ≡ true
  contains_of_mem xs a m = any_of_mem (λ x. x == a) xs m ((e.beq_iff a a).1 refl)

  pub mem-add_self : (a : A) (xs : List A) → Memᴰ a (add a xs)
  unfolding add
  mem-add_self a xs = elim (Bool-cases (contains xs a)) [
    | inl t ↦ rw t (mem_of_contains xs a t)
    | inr f ↦ rw f (mem-append_right xs (a ∷ []) (Memᴰ.head refl))
  ]

  pub mem-add : {b : A} (a : A) (xs : List A) → Memᴰ b xs → Memᴰ b (add a xs)
  unfolding add
  mem-add a xs m = elim (Bool-cases (contains xs a)) [
    | inl t ↦ rw t m
    | inr f ↦ rw f (mem-append_left xs (a ∷ []) m)
  ]

  pub All-add {κ} : (P : A → Type κ) (a : A) (xs : List A) → P a → All P xs → All P (add a xs)
  unfolding add
  All-add P a xs h hs = elim (Bool-cases (contains xs a)) [
    | inl t ↦ rw t hs
    | inr f ↦ rw f (All-append P xs (a ∷ []) hs (h, tt))
  ]

  pub mem-add-cases : {b : A} (a : A) (xs : List A) → Memᴰ b (add a xs) → (b ≡ a) ⊎ Memᴰ b xs
  unfolding add
  mem-add-cases a xs m = elim (Bool-cases (contains xs a)) [
    | inl t ↦ inr (rw t at m)
    | inr f ↦ elim (mem-append-cases xs (a ∷ []) (rw f at m)) [
      | inl l ↦ inr l
      | inr r ↦ inl (only r)
    ]
  ]
    where
      only : {b : A} → Memᴰ b (a ∷ []) → b ≡ a
      only (Memᴰ.head e) = e
      only (Memᴰ.tail m) = elim m [ ]

module _ {ℓ} {A : Type ℓ} where
  pub update_where_none :
      (q : A → Bool) (f : A → A) (xs : List A)
      → All (λ x. q x ≡ false) xs
      → update_where q f xs ≡ xs
  update_where_none q f [] h = refl
  update_where_none q f (x ∷ xs) h = ground (arith, update_where_none q f xs h.1)

  pub update_where_congr :
      (p q : A → Bool) (f : A → A)
      → ((x : A) → p x ≡ q x)
      → (xs : List A) → update_where p f xs ≡ update_where q f xs
  update_where_congr p q f h [] = refl
  update_where_congr p q f h (x ∷ xs) = ground (arith, h x, update_where_congr p q f h xs)

  -- What holds of each row that is written and of each other row holds of the new table.
  pub All-updated {κ} :
      (P : A → Type κ) (q : A → Bool) (f : A → A)
      → ((x : A) → q x ≡ true → P (f x))
      → ((x : A) → q x ≡ false → P x)
      → (xs : List A) → All P (update_where q f xs)
  All-updated P q f hit miss [] = tt
  All-updated P q f hit miss (x ∷ xs) = (step (q x) refl, All-updated P q f hit miss xs)
    where
      step : (b : Bool) → q x ≡ b → P (if b then f x else x)
      step true e = hit x e
      step false e = miss x e

module _ {ℓ} {A : Type ℓ} (p : A → Bool) where
  pub any-append_left : (xs ys : List A) → any p xs ≡ true → any p (xs ++ ys) ≡ true
  any-append_left [] ys h = cc
  any-append_left (x ∷ xs) ys h = ground (arith, any-append_left xs ys)

  pub any-append_right : (xs ys : List A) → any p ys ≡ true → any p (xs ++ ys) ≡ true
  any-append_right [] ys h = h
  any-append_right (x ∷ xs) ys h = ground (arith, any-append_right xs ys h)

  pub any-update_where :
      (q : A → Bool) (f : A → A)
      → ((x : A) → p (f x) ≡ p x)
      → (xs : List A) → any p (update_where q f xs) ≡ any p xs
  any-update_where q f h [] = refl
  any-update_where q f h (x ∷ xs) = ground (arith, h x, any-update_where q f h xs)

module _ {ℓ} {A : Type ℓ} where
  -- A row that an update passes over stays in the table.
  pub mem-update_where_kept :
      {a : A} (q : A → Bool) (f : A → A) (xs : List A)
      → Memᴰ a xs
      → q a ≡ false
      → Memᴰ a (update_where q f xs)
  mem-update_where_kept q f [] m h = elim m [ ]
  mem-update_where_kept q f (x ∷ xs) (Memᴰ.head e) h = Memᴰ.head (e ∙ kept (q x) refl)
    where
      kept : (b : Bool) → q x ≡ b → x ≡ (if b then f x else x)
      kept true t = cc (ap q e)
      kept false t = refl
  mem-update_where_kept q f (x ∷ xs) (Memᴰ.tail m) h = Memᴰ.tail (mem-update_where_kept q f xs m h)

module _ {ℓ} {A : Type ℓ} (p : A → Bool) where
  pub mem-delete_where :
      {a : A} (xs : List A) → Memᴰ a xs → p a ≡ false → Memᴰ a (delete_where p xs)
  mem-delete_where [] m h = elim m [ ]
  mem-delete_where (x ∷ xs) (Memᴰ.head e) h =
      let f : p x ≡ false = cc (ap p e) in rw f (Memᴰ.head e)
  mem-delete_where (x ∷ xs) (Memᴰ.tail m) h = elim (Bool-cases (p x)) [
    | inl t ↦ rw t (mem-delete_where xs m h)
    | inr f ↦ rw f (Memᴰ.tail (mem-delete_where xs m h))
  ]

  pub All-delete_where {κ} :
      (P : A → Type κ) (xs : List A)
      → ((x : A) → Memᴰ x xs → p x ≡ false → P x)
      → All P (delete_where p xs)
  All-delete_where P [] h = tt
  All-delete_where P (x ∷ xs) h = step (p x) refl (All-delete_where P xs (λ y m. h y (Memᴰ.tail m)))
    where
      step :
          (b : Bool)
          → p x ≡ b
          → All P (delete_where p xs)
          → All P (if b then delete_where p xs else x ∷ delete_where p xs)
      step true e rest = rest
      step false e rest = (h x (Memᴰ.head refl) e, rest)

  pub filter-eq-nil : (xs : List A) → All (λ x. p x ≡ false) xs → filter p xs ≡ []
  filter-eq-nil [] h = refl
  filter-eq-nil (x ∷ xs) h = ground (arith, filter-eq-nil xs h.1)

  -- An update of rows that the query does not show, before or after, does not change its result.
  pub filter-update_where_apart :
      (q : A → Bool) (f : A → A)
      → ((x : A) → q x ≡ true → (p x ≡ false) × (p (f x) ≡ false))
      → (xs : List A) → filter p (update_where q f xs) ≡ filter p xs
  filter-update_where_apart q f apart [] = refl
  filter-update_where_apart q f apart (x ∷ xs) = elim (Bool-cases (q x)) [
    | inl hit ↦
        let (before, after) = apart x hit in
        rw (hit, before, after) (filter-update_where_apart q f apart xs)
    | inr miss ↦ rw miss (elim (Bool-cases (p x)) [
      | inl shown ↦ rw shown (ap (◌∷◌ x) (filter-update_where_apart q f apart xs))
      | inr hidden ↦ rw hidden (filter-update_where_apart q f apart xs)
    ])
  ]

module _ {ℓ} {A : Type ℓ} where
  -- A row that an update meets stands in the table as it is written.
  pub mem-update_where_hit :
      (q : A → Bool) (f : A → A) {a : A} (xs : List A)
      → Memᴰ a xs
      → q a ≡ true
      → Memᴰ (f a) (update_where q f xs)
  mem-update_where_hit q f [] m h = elim m [ ]
  mem-update_where_hit q f {a} (x ∷ xs) (Memᴰ.head e) h =
      let hx : q x ≡ true = cc (ap q e, h) in rw hx (Memᴰ.head (ap f e))
  mem-update_where_hit q f (x ∷ xs) (Memᴰ.tail m) h = Memᴰ.tail (mem-update_where_hit q f xs m h)
