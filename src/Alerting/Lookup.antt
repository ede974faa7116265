-- ===== src/Alerting/Lookup.antt =====
-- `_index_by_pair` hands out the rows of each pair, in their order.
use argus_sbomguard.Common.{
  ℕ, Bool, true, false, List, [], ◌∷◌, ◌++◌, ◌≡◌, refl, sym, ap, ◌∙◌, arith, ◌==◌, nat_eq, pair_eq,
  if◌then◌else◌,
}
use mathlib.Core.List.{append-nil, append_assoc}
use argus_sbomguard.Models.{Notification}
use argus_sbomguard.Alerting.{
  Index, append_at, index_from, index_by_pair, rows_at, existing_of, is_pair,
}

abbrev key_of : Notification → ℕ × ℕ
key_of n = (n.vulnerability_id, n.alert_rule_id)

rows_at-append_at :
    (k j : ℕ × ℕ) (n : Notification) (m : Index)
    → rows_at k (append_at j n m) ≡ (if j == k then rows_at k m ++ n ∷ [] else rows_at k m)
unfolding rows_at append_at
rows_at-append_at k j n [] = refl
rows_at-append_at (k, l) (j, h) n (((i, g), rows) ∷ m) =
    ground (arith, rows_at-append_at (k, l) (j, h) n m)

rows_at-index_from :
    (v a : ℕ) (table : List Notification) (m : Index)
    → rows_at (v, a) (index_from m table) ≡ rows_at (v, a) m ++ existing_of v a table
rows_at-index_from v a [] m = sym (append-nil (rows_at (v, a) m))
rows_at-index_from v a (n ∷ table) m =
    rows_at-index_from v a table (append_at (key_of n) n m)
    ∙ ap (λ l. l ++ existing_of v a table) (rows_at-append_at (v, a) (key_of n) n m)
    ∙ step (is_pair v a n)
  where
    step :
        (b : Bool)
        → (if b then rows_at (v, a) m ++ n ∷ [] else rows_at (v, a) m) ++ existing_of v a table
          ≡ rows_at (v, a) m ++ (if b then n ∷ existing_of v a table else existing_of v a table)
    step true = append_assoc (rows_at (v, a) m) (n ∷ []) (existing_of v a table)
    step false = refl

-- The index that `_index_by_pair` builds holds, at each pair of a vulnerability and an alert, the
-- notifications of that pair in the order of the table, and none at a pair that has none.
pub rows_at-index_by_pair :
    (v a : ℕ) (table : List Notification)
    → rows_at (v, a) (index_by_pair table) ≡ existing_of v a table
unfolding index_by_pair rows_at
rows_at-index_by_pair v a table = rows_at-index_from v a table []
