-- ===== src/Mcp/Paging.antt =====
-- services/mcp_server.py: `_validate_page`, `_page_fields` and `_uuid_or_error`, and how the list tools
-- use them. A query is the list of its rows in their order, and of each page one row more is read.
use argus_sbomguard.Common.{
  ℕ, ◌+◌, Option, none, some, Bool, true, ◌&&◌, ◌||◌, List, [], ◌∷◌, map, take, drop, length, ltb,
  ◌==◌, nat_eq, Text, if◌then◌else◌, Outcome, return, raise, ◌>>=◌, tool_error,
}

-- An argument of a tool can be negative: `negsuc n` is `-n-1`.
pub data ℤ : Type 0 where
  pos : ℕ → ℤ
  negsuc : ℕ → ℤ

abbrev pub page_limit_max : ℕ
page_limit_max = 500

-- The offset and the limit of a valid window.
abbrev pub validate_page : ℤ → ℤ → Outcome (ℕ × ℕ)
validate_page (negsuc n) limit = raise tool_error
validate_page (pos offset) (negsuc n) = raise tool_error
validate_page (pos offset) (pos limit) =
    if ltb limit 1 || ltb page_limit_max limit then raise tool_error else return (offset, limit)

pub record McpPage {ℓ} (A : Type ℓ) : Type ℓ where
  pub items : List A
  pub total : ℕ
  pub offset : ℕ
  pub limit : ℕ
  pub has_more : Bool

abbrev pub page_fields {ℓ} : {A : Type ℓ} → List A → ℕ → ℕ → ℕ → McpPage A
page_fields items total offset limit = record {
  items = items;
  total = total;
  offset = offset;
  limit = limit;
  has_more = ltb (offset + length items) total;
}

-- `query.offset(offset).limit(limit + 1)`
abbrev pub fetched {ℓ} : {A : Type ℓ} → List A → ℕ × ℕ → List A
fetched rows (offset, limit) = take (limit + 1) (drop offset rows)

-- The page of a valid window, with the items for its rows.
unfoldable pub page_of {ℓ κ} : {A : Type ℓ} {B : Type κ} → (A → B) → List A → ℕ × ℕ → McpPage B
page_of item rows window =
    page_fields (map item (take window.1 (fetched rows window))) (length rows) window.0 window.1

-- A list tool without further arguments.
unfoldable pub list_page {ℓ κ} :
    {A : Type ℓ} {B : Type κ} → (A → B) → List A → ℤ → ℤ → Outcome (McpPage B)
unfolding page_of
list_page item rows offset limit = do
  window ← validate_page offset limit
  return (page_of item rows window)

-- `uuid.UUID` is a parameter, `none` where it raises ValueError.
abbrev pub uuid_or_error : (Text → Option ℕ) → Text → Outcome ℕ
uuid_or_error uuid value = elim (uuid value) [ none ↦ raise tool_error | some k ↦ return k ]

-- The same for an argument that may be left out.
abbrev pub uuid_if_given : (Text → Option ℕ) → Option Text → Outcome (Option ℕ)
uuid_if_given uuid none = return none
uuid_if_given uuid (some value) = do k ← uuid_or_error uuid value; return (some k)

-- The column has the value that was asked for, if one was.
abbrev pub is_wanted : Option ℕ → ℕ → Bool
is_wanted none k = true
is_wanted (some wanted) k = k == wanted

abbrev pub insert_by {ℓ} : {A : Type ℓ} → (A → A → Bool) → A → List A → List A
insert_by before x [] = x ∷ []
insert_by before x (y ∷ ys) =
    let rest = insert_by before x ys in if before y x then y ∷ rest else x ∷ y ∷ ys

-- `ORDER BY`, for an order that the test decides.
unfoldable pub order_by {ℓ} : {A : Type ℓ} → (A → A → Bool) → List A → List A
order_by before [] = []
order_by before (x ∷ xs) = insert_by before x (order_by before xs)

-- Newest first, and by id among rows of one instant.
abbrev pub is_newer : ℕ × ℕ → ℕ × ℕ → Bool
is_newer (time, id) (other_time, other_id) =
    ltb other_time time || (time == other_time && ltb id other_id)
