-- ===== src/Pagination.antt =====
-- services/pagination.py. A query is the list of its rows in their order; `page` and `offset` are
-- not negative. With `per_page` 0 the code divides by zero: the theorems ask for a positive one.
pub mod Pages
use argus_sbomguard.Common.{
  ℕ, suc, ◌+◌, ◌-◌, ◌*◌, ◌/◌, max, min, Option, none, some, Bool, List, length, take, drop, ltb,
}

pub record Page {ℓ} (A : Type ℓ) : Type ℓ where
  pub items : List A
  pub total : ℕ
  pub page : ℕ
  pub per_page : ℕ
  pub total_pages : ℕ
  pub has_more : Bool
  pub offset : Option ℕ

-- `has_prev`
unfoldable pub has_prev {ℓ} : {A : Type ℓ} → Page A → Bool
has_prev p = ltb 1 p.page

-- The offset of the call, or that of the page.
abbrev pub requested_offset : ℕ → ℕ → Option ℕ → ℕ
requested_offset page per_page none = (page - 1) * per_page
requested_offset page per_page (some offset) = offset

unfoldable pub paginate {ℓ} : {A : Type ℓ} → List A → ℕ → ℕ → Option ℕ → Page A
paginate rows page per_page offset =
    let total = length rows in
    let effective_offset = min (requested_offset page per_page offset) total in
    let all_items = take (per_page + 1) (drop effective_offset rows) in
    record {
      items = take per_page all_items;
      total = total;
      page = page;
      per_page = per_page;
      total_pages = max 1 ((total + per_page - 1) / per_page);
      has_more = ltb per_page (length all_items);
      offset = offset;
    }
