-- ===== src/Common/Keys.antt =====
-- Tables with a unique key.
use mathlib.Core.Path.{◌≡◌, refl, sym, ap, ◌∙◌}
use mathlib.Core.Logic.{inl, inr}
use mathlib.Core.Bool.{Bool, true, false, ◌||◌}
use mathlib.Core.Option.{none}
use mathlib.Core.List.{List, [], ◌∷◌, ◌++◌, map, Memᴰ}
use native.Mathlib.Omega.{arith}
use argus_sbomguard.Common.Test.{Eq, ◌==◌, Bool-cases, if◌then◌else◌}
use argus_sbomguard.Common.Lists.{contains, any, find, update_where}

module _ {ℓ} {K : Type ℓ} ⦃e : Eq K⦄ where
  -- No key stands twice.
  abbrev pub IsUnique : List K → Type 0
  IsUnique [] = Unit
  IsUnique (k ∷ ks) = (contains ks k ≡ false) × IsUnique ks

  contains-snoc :
      (ks : List K) (k j : K)
      → contains ks j ≡ false
      → (k == j) ≡ false
      → contains (ks ++ k ∷ []) j ≡ false
  contains-snoc [] k j h n = rw n
  contains-snoc (x ∷ ks) k j h n = ground (arith, contains-snoc ks k j)

  pub IsUnique-snoc :
      (ks : List K) (k : K) → IsUnique ks → contains ks k ≡ false → IsUnique (ks ++ k ∷ [])
  IsUnique-snoc [] k u h = (refl, tt)
  IsUnique-snoc (x ∷ ks) k u h = (
    contains-snoc ks k x u.0 (ground (arith, e.beq_iff x k, e.beq_iff k x)),
    IsUnique-snoc ks k u.1 (ground arith),
  )

module _ {ℓ κ} {A : Type ℓ} {K : Type κ} where
  pub mem-map : {a : A} (f : A → K) (xs : List A) → Memᴰ a xs → Memᴰ (f a) (map f xs)
  mem-map f [] m = elim m [ ]
  mem-map f (x ∷ xs) (Memᴰ.head e) = Memᴰ.head (ap f e)
  mem-map f (x ∷ xs) (Memᴰ.tail m) = Memᴰ.tail (mem-map f xs m)

  pub mem_of-map :
      {k : K} (f : A → K) (xs : List A) → Memᴰ k (map f xs) → (a : A) × Memᴰ a xs × (f a ≡ k)
  mem_of-map f [] m = elim m [ ]
  mem_of-map f (x ∷ xs) (Memᴰ.head e) = (x, Memᴰ.head refl, sym e)
  mem_of-map f (x ∷ xs) (Memᴰ.tail m) =
      let (a, listed, same) = mem_of-map f xs m in (a, Memᴰ.tail listed, same)

  pub map-map {μ} :
      {B : Type μ} (f : A → K) (g : K → B) (xs : List A) → map (λ x. g (f x)) xs ≡ map g (map f xs)
  map-map f g [] = refl
  map-map f g (x ∷ xs) = ap (◌∷◌ (g (f x))) (map-map f g xs)

  pub map-append : (key : A → K) (xs ys : List A) → map key (xs ++ ys) ≡ map key xs ++ map key ys
  map-append key [] ys = refl
  map-append key (x ∷ xs) ys = ap (◌∷◌ (key x)) (map-append key xs ys)

  pub map-update_where :
      (key : A → K) (q : A → Bool) (f : A → A)
      → ((x : A) → key (f x) ≡ key x)
      → (xs : List A) → map key (update_where q f xs) ≡ map key xs
  map-update_where key q f h [] = refl
  map-update_where key q f h (x ∷ xs) = λ i. step (q x) i ∷ map-update_where key q f h xs i
    where
      step : (b : Bool) → key (if b then f x else x) ≡ key x
      step true = h x
      step false = refl

module _ {ℓ κ} {A : Type ℓ} {K : Type κ} ⦃e : Eq K⦄ where
  pub contains-map :
      (key : A → K) (xs : List A) (k : K) → contains (map key xs) k ≡ any (λ x. key x == k) xs
  contains-map key [] k = refl
  contains-map key (x ∷ xs) k = ap (◌||◌ (key x == k)) (contains-map key xs k)

module _ {ℓ} {A : Type ℓ} where
  pub any_of_find-none : (p : A → Bool) (xs : List A) → find p xs ≡ none → any p xs ≡ false
  any_of_find-none p [] h = refl
  any_of_find-none p (x ∷ xs) h = ground (arith, any_of_find-none p xs)

module _ {ℓ κ} {A : Type ℓ} {K : Type κ} ⦃e : Eq K⦄ (key : A → K) where
  pub contains-map_of_mem : {a : A} (xs : List A) → Memᴰ a xs → contains (map key xs) (key a) ≡ true
  contains-map_of_mem [] m = elim m [ ]
  contains-map_of_mem {a} (x ∷ xs) (Memᴰ.head h) =
      ground (arith, (e.beq_iff (key x) (key a)).1 (ap key (sym h)))
  contains-map_of_mem (x ∷ xs) (Memᴰ.tail m) = ground (arith, contains-map_of_mem xs m)

  pub mem_of_contains-map :
      (xs : List A) (k : K) → contains (map key xs) k ≡ true → (a : A) × Memᴰ a xs × (key a ≡ k)
  mem_of_contains-map [] k h = cc
  mem_of_contains-map (x ∷ xs) k h = elim (Bool-cases (key x == k)) [
    | inl t ↦ (x, Memᴰ.head refl, (e.beq_iff (key x) k).0 t)
    | inr f ↦ let (a, m, s) = mem_of_contains-map xs k (rw f at h) in (a, Memᴰ.tail m, s)
  ]

  -- Rows with the same unique key are the same row.
  pub same_of_key :
      {a b : A} (xs : List A)
      → IsUnique (map key xs)
      → Memᴰ a xs
      → Memᴰ b xs
      → key a ≡ key b
      → a ≡ b
  same_of_key [] u m n h = elim m [ ]
  same_of_key (x ∷ xs) u (Memᴰ.head p) (Memᴰ.head q) h = p ∙ sym q
  same_of_key {a} {b} (x ∷ xs) u (Memᴰ.head p) (Memᴰ.tail n) h =
      cc (u.0, contains-map_of_mem xs n, ap key p)
  same_of_key {a} {b} (x ∷ xs) u (Memᴰ.tail m) (Memᴰ.head q) h =
      cc (u.0, contains-map_of_mem xs m, ap key q)
  same_of_key (x ∷ xs) u (Memᴰ.tail m) (Memᴰ.tail n) h = same_of_key xs u.1 m n h
