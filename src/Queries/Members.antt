-- ===== src/Queries/Members.antt =====
-- `ORDER BY` keeps the members of a list.
use argus_sbomguard.Common.{
  Bool, ◌||◌, List, [], ◌∷◌, any, ◌≡◌, refl, ap, ◌∙◌, arith, Memᴰ, Bool-cases, inl, inr,
}
use argus_sbomguard.Mcp.Paging.{order_by, insert_by}

module _ {ℓ} {A : Type ℓ} where
  mem-swap : {a x y : A} {l : List A} → Memᴰ a (x ∷ y ∷ l) → Memᴰ a (y ∷ x ∷ l)
  mem-swap (Memᴰ.head e) = Memᴰ.tail (Memᴰ.head e)
  mem-swap (Memᴰ.tail (Memᴰ.head e)) = Memᴰ.head e
  mem-swap (Memᴰ.tail (Memᴰ.tail m)) = Memᴰ.tail (Memᴰ.tail m)

  mem-cons_of : {a x : A} {k l : List A} → (Memᴰ a k → Memᴰ a l) → Memᴰ a (x ∷ k) → Memᴰ a (x ∷ l)
  mem-cons_of f (Memᴰ.head e) = Memᴰ.head e
  mem-cons_of f (Memᴰ.tail m) = Memᴰ.tail (f m)

  module _ (before : A → A → Bool) {a : A} where
    mem-insert_by : (x : A) (xs : List A) → Memᴰ a (x ∷ xs) → Memᴰ a (insert_by before x xs)
    mem-insert_by x [] m = m
    mem-insert_by x (y ∷ ys) m = elim (Bool-cases (before y x)) [
      | inr f ↦ rw f m
      | inl t ↦ rw t (mem-cons_of (mem-insert_by x ys) (mem-swap m))
    ]

    mem_of-insert_by : (x : A) (xs : List A) → Memᴰ a (insert_by before x xs) → Memᴰ a (x ∷ xs)
    mem_of-insert_by x [] m = m
    mem_of-insert_by x (y ∷ ys) m = elim (Bool-cases (before y x)) [
      | inr f ↦ rw f at m
      | inl t ↦ mem-swap (mem-cons_of (mem_of-insert_by x ys) (rw t at m))
    ]

    pub mem-order_by : (xs : List A) → Memᴰ a xs → Memᴰ a (order_by before xs)
    unfolding order_by
    mem-order_by [] m = m
    mem-order_by (x ∷ xs) m = mem-insert_by x (order_by before xs) (mem-cons_of (mem-order_by xs) m)

    pub mem_of-order_by : (xs : List A) → Memᴰ a (order_by before xs) → Memᴰ a xs
    unfolding order_by
    mem_of-order_by [] m = m
    mem_of-order_by (x ∷ xs) m =
        mem-cons_of (mem_of-order_by xs) (mem_of-insert_by x (order_by before xs) m)

any-insert_by {ℓ} :
    {A : Type ℓ} (before : A → A → Bool) (p : A → Bool) (x : A) (xs : List A)
    → any p (insert_by before x xs) ≡ (p x || any p xs)
any-insert_by before p x [] = refl
any-insert_by before p x (y ∷ ys) = ground (arith, any-insert_by before p x ys)

pub any-order_by {ℓ} :
    {A : Type ℓ} (before : A → A → Bool) (p : A → Bool) (xs : List A)
    → any p (order_by before xs) ≡ any p xs
unfolding order_by
any-order_by before p [] = refl
any-order_by before p (x ∷ xs) =
    any-insert_by before p x (order_by before xs) ∙ ap (◌||◌ (p x)) (any-order_by before p xs)
