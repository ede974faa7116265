-- ===== src/Pagination/Pages.antt =====
-- The pages of a list cover it.
use argus_sbomguard.Common.{
  ℕ, zero, suc, ◌+◌, ◌-◌, ◌*◌, ◌/◌, ◌≤◌, ◌<◌, max, min, Option, none, some, true, List, [], ◌∷◌,
  ◌++◌, length, take, drop, ◌≡◌, ◌↔◌, refl, sym, ap, ◌∙◌, arith, length-drop, length-take,
}
use native.Mathlib.Decide.{dec_le}
use native.Mathlib.Nat.{lt-div-mul-add}
use argus_sbomguard.Pagination.{paginate, requested_offset}

module _ {ℓ} {A : Type ℓ} where
  drop_of_length-le : (n : ℕ) (xs : List A) → length xs ≤ n → drop n xs ≡ []
  drop_of_length-le zero [] h = refl
  drop_of_length-le zero (x ∷ xs) h = absurd (omega arith)
  drop_of_length-le (suc n) [] h = refl
  drop_of_length-le (suc n) (x ∷ xs) h = drop_of_length-le n xs (omega arith)

  pub take_of_length-le : (n : ℕ) (xs : List A) → length xs ≤ n → take n xs ≡ xs
  take_of_length-le (suc n) (x ∷ xs) h = ap (λ l. x ∷ l) (take_of_length-le n xs (omega arith))
  take_of_length-le zero (x ∷ xs) h = absurd (omega arith)
  take_of_length-le (suc n) [] h = refl
  take_of_length-le zero [] h = refl

  -- An offset behind the end is as good as the end.
  drop-min : (n : ℕ) (xs : List A) → drop (min n (length xs)) xs ≡ drop n xs
  drop-min n xs = elim (dec_le n (length xs)) [
    | yes h ↦ ap (λ k. drop k xs) (omega arith)
    | no h ↦
        let e : min n (length xs) ≡ length xs = omega arith in
        ap (λ k. drop k xs) e
        ∙ drop_of_length-le (length xs) xs (omega arith)
        ∙ sym (drop_of_length-le n xs (omega arith))
  ]

  pub take-take-suc : (n : ℕ) (xs : List A) → take n (take (suc n) xs) ≡ take n xs
  take-take-suc zero xs = refl
  take-take-suc (suc n) [] = refl
  take-take-suc (suc n) (x ∷ xs) = ap (◌∷◌ x) (take-take-suc n xs)

  pub take-add : (n m : ℕ) (xs : List A) → take (n + m) xs ≡ take n xs ++ take m (drop n xs)
  take-add zero m xs = ap (λ k. take k xs) (omega arith)
  take-add (suc n) m [] = let e : suc n + m ≡ suc (n + m) = omega arith in rw e (none_left m)
    where
      none_left : (k : ℕ) → ◌≡◌ {A = List A} [] (take k [])
      none_left zero = refl
      none_left (suc k) = refl
  take-add (suc n) m (x ∷ xs) =
      let e : suc n + m ≡ suc (n + m) = omega arith in rw e (ap (◌∷◌ x) (take-add n m xs))

  drop-add : (n m : ℕ) (xs : List A) → drop (n + m) xs ≡ drop m (drop n xs)
  drop-add zero m xs = ap (λ k. drop k xs) (omega arith)
  drop-add (suc n) m [] = let e : suc n + m ≡ suc (n + m) = omega arith in rw e (none_left m)
    where
      none_left : (k : ℕ) → ◌≡◌ {A = List A} [] (drop k [])
      none_left zero = refl
      none_left (suc k) = refl
  drop-add (suc n) m (x ∷ xs) =
      let e : suc n + m ≡ suc (n + m) = omega arith in rw e (drop-add n m xs)

  -- What a call returns, without the clamp and the extra row.
  pub items-paginate :
      (rows : List A) (page per_page : ℕ) (offset : Option ℕ)
      → (paginate rows page per_page offset).items
        ≡ take per_page (drop (requested_offset page per_page offset) rows)
  unfolding paginate
  items-paginate rows page per_page offset =
      let e : per_page + 1 ≡ suc per_page = omega arith in
      rw (e, drop-min (requested_offset page per_page offset) rows)
        (take-take-suc per_page (drop (requested_offset page per_page offset) rows))

  -- The items of the first pages, one after the other.
  abbrev pub first_pages : List A → ℕ → ℕ → List A
  first_pages rows per_page zero = []
  first_pages rows per_page (suc n) =
      first_pages rows per_page n ++ (paginate rows (suc n) per_page none).items

  first_pages-eq-take :
      (rows : List A) (per_page n : ℕ) → first_pages rows per_page n ≡ take (n * per_page) rows
  first_pages-eq-take rows per_page zero = let e : zero * per_page ≡ zero = omega arith in rw e
  first_pages-eq-take rows per_page (suc n) =
      let e : suc n * per_page ≡ n * per_page + per_page = grind arith in
      let f : (suc n - 1) * per_page ≡ n * per_page = grind arith in
      ap (λ l. first_pages rows per_page n ++ l)
        (items-paginate rows (suc n) per_page none ∙ ap (λ k. take per_page (drop k rows)) f)
      ∙ ap (λ l. l ++ take per_page (drop (n * per_page) rows))
          (first_pages-eq-take rows per_page n)
      ∙ sym (take-add (n * per_page) per_page rows)
      ∙ ap (λ k. take k rows) (sym e)

enough_pages :
    (total per_page : ℕ)
    → 0 < per_page
    → total ≤ max 1 ((total + per_page - 1) / per_page) * per_page
enough_pages total per_page h =
    let q : ℕ = (total + per_page - 1) / per_page in
    let above : total ≤ q * per_page =
      omega (arith, lt-div-mul-add {a = total + per_page - 1} {b = per_page} h) in
    elim (dec_le 1 q) [
      | yes some_page ↦ let e : max 1 q ≡ q = omega arith in rw e above
      | no no_page ↦
          let e : q ≡ 0 = omega arith in
          let none_left : q * per_page ≡ 0 = ap (λ (t : ℕ). t * per_page) e ∙ omega arith in
          omega (arith, above, none_left)
    ]

-- The pages 1 to `total_pages`, one after the other, are the rows: none is missing or shown twice.
pub pages_cover {ℓ} :
    {A : Type ℓ} (rows : List A) (per_page : ℕ)
    → 0 < per_page
    → first_pages rows per_page (paginate rows 1 per_page none).total_pages ≡ rows
unfolding paginate
pages_cover rows per_page h =
    first_pages-eq-take rows per_page (max 1 ((length rows + per_page - 1) / per_page))
    ∙ take_of_length-le (max 1 ((length rows + per_page - 1) / per_page) * per_page) rows
        (enough_pages (length rows) per_page h)

-- A page has more behind it exactly if rows stand behind its last place.
pub has_more_lem :
    {A : Type 0} (rows : List A) (page per_page : ℕ) (offset : Option ℕ)
    → ((paginate rows page per_page offset).has_more ≡ true)
      ↔ (requested_offset page per_page offset + per_page < length rows)
unfolding paginate
has_more_lem rows page per_page offset = ground (
  arith,
  length-take (per_page + 1)
      (drop (min (requested_offset page per_page offset) (length rows)) rows),
  length-drop (min (requested_offset page per_page offset) (length rows)) rows,
)

-- Two calls with an explicit offset, the second where the first ends, return what one call for both
-- sizes returns: a preview can be continued by pages of another size.
pub preview_continues {ℓ} :
    {A : Type ℓ} (rows : List A) (page offset preview per_page : ℕ)
    → (paginate rows page preview (some offset)).items
        ++ (paginate rows page per_page (some (offset + preview))).items
      ≡ (paginate rows page (preview + per_page) (some offset)).items
preview_continues rows page offset preview per_page =
    rw
      (
        items-paginate rows page preview (some offset),
        items-paginate rows page per_page (some (offset + preview)),
        items-paginate rows page (preview + per_page) (some offset),
        drop-add offset preview rows,
      )
      (sym (take-add preview per_page (drop offset rows)))
