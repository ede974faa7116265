-- ===== src/Common/Lists.antt =====
-- Lists as Python lists and sets, and as tables, measured by native numbers.
use Prim.Native.Nat.{ℕ, zero, suc, ◌+◌, ◌-◌, ◌≤◌, min}
use mathlib.Core.Path.{◌≡◌, refl, ap, ◌∙◌}
use mathlib.Core.Logic.{◌⊎◌, inl, inr}
use mathlib.Core.Bool.{Bool, true, false, ◌&&◌, ◌||◌}
use mathlib.Core.Option.{Option, none, some}
use mathlib.Core.List.{List, [], ◌∷◌, ◌++◌, Memᴰ, map}
use native.Mathlib.Omega.{arith}
use argus_sbomguard.Common.Test.{Eq, ◌==◌, if◌then◌else◌, Bool-cases}

module _ {ℓ} {A : Type ℓ} where
  abbrev pub length : List A → ℕ
  length [] = 0
  length (x ∷ xs) = suc (length xs)

  abbrev pub drop : ℕ → List A → List A
  drop zero xs = xs
  drop (suc n) [] = []
  drop (suc n) (x ∷ xs) = drop n xs

  abbrev pub take : ℕ → List A → List A
  take zero xs = []
  take (suc k) [] = []
  take (suc k) (y ∷ ys) = y ∷ take k ys

  pub length-append : (xs ys : List A) → length (xs ++ ys) ≡ length xs + length ys
  length-append [] ys = omega arith
  length-append (x ∷ xs) ys = omega (arith, length-append xs ys)

  pub length-take : (n : ℕ) (xs : List A) → length (take n xs) ≡ min n (length xs)
  length-take zero xs = omega arith
  length-take (suc n) [] = omega arith
  length-take (suc n) (x ∷ xs) = omega (arith, length-take n xs)

  pub length-drop : (n : ℕ) (xs : List A) → length (drop n xs) ≡ length xs - n
  length-drop zero xs = omega arith
  length-drop (suc n) [] = omega arith
  length-drop (suc n) (x ∷ xs) = omega (arith, length-drop n xs)

  pub take-append-drop : (n : ℕ) (xs : List A) → take n xs ++ drop n xs ≡ xs
  take-append-drop zero xs = refl
  take-append-drop (suc n) [] = refl
  take-append-drop (suc n) (x ∷ xs) = ap (◌∷◌ x) (take-append-drop n xs)

  pub mem-cons_cases : {a x : A} {l : List A} → Memᴰ a (x ∷ l) → (a ≡ x) ⊎ Memᴰ a l
  mem-cons_cases (Memᴰ.head e) = inl e
  mem-cons_cases (Memᴰ.tail m) = inr m

  -- The last element, `xs[-1]`.
  abbrev pub last : List A → Option A
  last [] = none
  last (x ∷ []) = some x
  last (x ∷ y ∷ xs) = last (y ∷ xs)

  pub last-snoc : (xs : List A) (x : A) → last (xs ++ x ∷ []) ≡ some x
  last-snoc [] x = refl
  last-snoc (y ∷ []) x = refl
  last-snoc (y ∷ z ∷ xs) x = last-snoc (z ∷ xs) x

pub length-map {ℓ κ} :
    {A : Type ℓ} {B : Type κ} (f : A → B) (xs : List A) → length (map f xs) ≡ length xs
length-map f [] = refl
length-map f (x ∷ xs) = ap suc (length-map f xs)

module _ {ℓ} {A : Type ℓ} (p : A → Bool) where
  -- `[x for x in xs if p(x)]`, and a query's WHERE.
  abbrev pub filter : List A → List A
  filter [] = []
  filter (x ∷ xs) = let rest = filter xs in if p x then x ∷ rest else rest

  abbrev pub any : List A → Bool
  any [] = false
  any (x ∷ xs) = p x || any xs

  abbrev pub all : List A → Bool
  all [] = true
  all (x ∷ xs) = p x && all xs

  -- The first row that a query returns.
  abbrev pub find : List A → Option A
  find [] = none
  find (x ∷ xs) = let rest = find xs in if p x then some x else rest

  -- `UPDATE ... SET f WHERE p`.
  abbrev pub update_where : (A → A) → List A → List A
  update_where f [] = []
  update_where f (x ∷ xs) = (if p x then f x else x) ∷ update_where f xs

  -- `DELETE ... WHERE p`.
  abbrev pub delete_where : List A → List A
  delete_where [] = []
  delete_where (x ∷ xs) = let rest = delete_where xs in if p x then rest else x ∷ rest

  pub length-filter-le : (xs : List A) → length (filter xs) ≤ length xs
  length-filter-le [] = omega arith
  length-filter-le (x ∷ xs) = ground (arith, length-filter-le xs)

  pub filter-append : (xs ys : List A) → filter (xs ++ ys) ≡ filter xs ++ filter ys
  filter-append [] ys = refl
  filter-append (x ∷ xs) ys = ground (arith, filter-append xs ys)

  pub mem-filter : {a : A} (xs : List A) → Memᴰ a xs → p a ≡ true → Memᴰ a (filter xs)
  mem-filter [] m h = elim m [ ]
  mem-filter {a} (x ∷ xs) (Memᴰ.head e) h = elim (Bool-cases (p x)) [
    | inl t ↦ rw t (Memᴰ.head e)
    | inr f ↦ cc (ap p e)
  ]
  mem-filter {a} (x ∷ xs) (Memᴰ.tail m) h = elim (Bool-cases (p x)) [
    | inl t ↦ rw t (Memᴰ.tail (mem-filter xs m h))
    | inr f ↦ rw f (mem-filter xs m h)
  ]

  pub mem_of_mem-filter : {a : A} (xs : List A) → Memᴰ a (filter xs) → Memᴰ a xs × (p a ≡ true)
  mem_of_mem-filter [] m = elim m [ ]
  mem_of_mem-filter {a} (x ∷ xs) m = elim (Bool-cases (p x)) [
    | inl t ↦ elim (mem-cons_cases (rw t at m)) [
      | inl e ↦ (Memᴰ.head e, cc (ap p e))
      | inr m' ↦ let (m'', h) = mem_of_mem-filter xs m' in (Memᴰ.tail m'', h)
    ]
    | inr f ↦ let (m', h) = mem_of_mem-filter xs (rw f at m) in (Memᴰ.tail m', h)
  ]

  pub any_of_mem : {a : A} (xs : List A) → Memᴰ a xs → p a ≡ true → any xs ≡ true
  any_of_mem [] m h = elim m [ ]
  any_of_mem (x ∷ xs) (Memᴰ.head e) h = ground (arith, ap p e)
  any_of_mem (x ∷ xs) (Memᴰ.tail m) h = ground (arith, any_of_mem xs m h)

  pub mem_of_any : (xs : List A) → any xs ≡ true → (a : A) × Memᴰ a xs × (p a ≡ true)
  mem_of_any [] h = cc
  mem_of_any (x ∷ xs) h = elim (Bool-cases (p x)) [
    | inl t ↦ (x, Memᴰ.head refl, t)
    | inr f ↦ let (a, m, t) = mem_of_any xs (rw f at h) in (a, Memᴰ.tail m, t)
  ]

module _ {ℓ} {A : Type ℓ} ⦃e : Eq A⦄ where
  -- `a in xs`.
  abbrev pub contains : List A → A → Bool
  contains xs a = any (λ x. x == a) xs

  -- A set is the list of its elements in the order of insertion.
  unfoldable pub add : A → List A → List A
  add a xs = if contains xs a then xs else xs ++ a ∷ []

  -- `set(a) <= set(b)`.
  abbrev pub subset : List A → List A → Bool
  subset xs ys = all (contains ys) xs

  -- `set(a) == set(b)`.
  unfoldable pub same_set : List A → List A → Bool
  same_set xs ys = subset xs ys && subset ys xs

  subset-cons : (x : A) (xs ys : List A) → subset xs ys ≡ true → subset xs (x ∷ ys) ≡ true
  subset-cons x [] ys h = refl
  subset-cons x (y ∷ xs) ys h = ground (arith, subset-cons x xs ys)

  pub subset_refl : (xs : List A) → subset xs xs ≡ true
  subset_refl [] = refl
  subset_refl (x ∷ xs) =
      ground (arith, (e.beq_iff x x).1 refl, subset-cons x xs xs (subset_refl xs))

  pub same_set_refl : (xs : List A) → same_set xs xs ≡ true
  unfolding same_set
  same_set_refl xs = rw (subset_refl xs)

-- Every element has the property.
abbrev pub All {ℓ κ} : {A : Type ℓ} → (A → Type κ) → List A → Type κ
All P [] = Unit
All P (x ∷ xs) = P x × All P xs

module _ {ℓ κ} {A : Type ℓ} (P : A → Type κ) where
  pub All-append : (xs ys : List A) → All P xs → All P ys → All P (xs ++ ys)
  All-append [] ys hx hy = hy
  All-append (x ∷ xs) ys hx hy = (hx.0, All-append xs ys hx.1 hy)

  pub All-update_where :
      (q : A → Bool) (f : A → A)
      → ((x : A) → P x → q x ≡ true → P (f x))
      → (xs : List A) → All P xs
      → All P (update_where q f xs)
  All-update_where q f h [] a = tt
  All-update_where q f h (x ∷ xs) a = (step (q x) refl, All-update_where q f h xs a.1)
    where
      step : (b : Bool) → q x ≡ b → P (if b then f x else x)
      step true e = h x a.0 e
      step false e = a.0

  pub All-filter : (q : A → Bool) (xs : List A) → All P xs → All P (filter q xs)
  All-filter q [] a = tt
  All-filter q (x ∷ xs) a = step (q x) (All-filter q xs a.1)
    where
      step : (b : Bool) → All P (filter q xs) → All P (if b then x ∷ filter q xs else filter q xs)
      step true rest = (a.0, rest)
      step false rest = rest

  pub All-get : {a : A} (xs : List A) → All P xs → Memᴰ a xs → P a
  All-get [] h m = elim m [ ]
  All-get (x ∷ xs) h (Memᴰ.head e) = rw e h.0
  All-get (x ∷ xs) h (Memᴰ.tail m) = All-get xs h.1 m

  pub All-of_mem : (xs : List A) → ((a : A) → Memᴰ a xs → P a) → All P xs
  All-of_mem [] h = tt
  All-of_mem (x ∷ xs) h = (h x (Memᴰ.head refl), All-of_mem xs (λ a m. h a (Memᴰ.tail m)))

module _ {ℓ} {A : Type ℓ} where
  pub filter-congr :
      (p q : A → Bool) → ((a : A) → p a ≡ q a) → (l : List A) → filter p l ≡ filter q l
  filter-congr p q h [] = refl
  filter-congr p q h (a ∷ l) = rw (h a) (ap (λ r. if q a then a ∷ r else r) (filter-congr p q h l))

  pub any-congr : (p q : A → Bool) → ((a : A) → p a ≡ q a) → (l : List A) → any p l ≡ any q l
  any-congr p q h [] = refl
  any-congr p q h (a ∷ l) = rw (h a) (ap (λ b. q a || b) (any-congr p q h l))

  pub any-append : (p : A → Bool) (xs ys : List A) → any p (xs ++ ys) ≡ (any p xs || any p ys)
  any-append p [] ys = refl
  any-append p (x ∷ xs) ys = ground (arith, any-append p xs ys)

  pub any-filter : (p q : A → Bool) (xs : List A) → any p (filter q xs) ≡ any (λ x. q x && p x) xs
  any-filter p q [] = refl
  any-filter p q (x ∷ xs) = ground (arith, any-filter p q xs)

  pub contains-add :
      ⦃e : Eq A⦄ (a b : A) (xs : List A) → contains (add a xs) b ≡ (a == b || contains xs b)
  unfolding add
  contains-add ⦃e⦄ a b xs = elim (Bool-cases (contains xs a)) [
    | inr f ↦ rw f (any-append (λ x. x == b) xs (a ∷ []) ∙ flip (contains xs b) (a == b))
    | inl t ↦ rw t (elim (Bool-cases (a == b)) [
      | inr g ↦ rw g refl
      | inl h ↦ ground (arith, ap (contains xs) ((e.beq_iff a b).0 h))
    ])
  ]
    where
      flip : (p q : Bool) → (p || (q || false)) ≡ (q || p)
      flip p q = ground arith
