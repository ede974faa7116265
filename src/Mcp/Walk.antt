-- ===== src/Mcp/Walk.antt =====
-- An agent that reads a list tool page by page sees every row.
use argus_sbomguard.Common.{
  ℕ, suc, ◌+◌, ◌-◌, ◌≤◌, min, true, false, ◌||◌, List, [], ◌++◌, map, take, drop, length, ltb, ◌≡◌,
  refl, sym, ap, ◌∙◌, arith, Bool-cases, inl, inr, take-append-drop, length-take, length-drop,
  length-map, map-append, return,
}
use argus_sbomguard.Pagination.Pages.{take-add, take-take-suc, take_of_length-le}
use argus_sbomguard.Mcp.Paging.{pos, McpPage, page_limit_max, page_of, list_page}

module _ {A B : Type 0} (item : A → B) (rows : List A) (limit : ℕ) where
  -- What an agent has read when it asks for the page at an offset: nothing at first, and then the page
  -- before as well, if that one said that there is more.
  pub data HasRead : ℕ → List B → Type 0 where
    first : HasRead 0 []
    next :
        {offset : ℕ} {got : List B} {page : McpPage B}
        → HasRead offset got
        → list_page item rows (pos offset) (pos limit) ≡ return page
        → page.has_more ≡ true
        → HasRead (offset + limit) (got ++ page.items)

  items-page_of :
      (offset : ℕ)
      → (page_of item rows (offset, limit)).items ≡ map item (take limit (drop offset rows))
  unfolding page_of
  items-page_of offset =
      let e : limit + 1 ≡ suc limit = omega arith in
      rw e (ap (map item) (take-take-suc limit (drop offset rows)))

  pub has_more-page_of :
      (offset : ℕ)
      → (page_of item rows (offset, limit)).has_more
        ≡ ltb (offset + min limit (length rows - offset)) (length rows)
  unfolding page_of
  has_more-page_of offset =
      let e : limit + 1 ≡ suc limit = omega arith in
      ap (λ k. ltb (offset + k) (length rows))
        (length-map item (take limit (take (limit + 1) (drop offset rows)))
          ∙ ap length (rw e (take-take-suc limit (drop offset rows)))
          ∙ length-take limit (drop offset rows)
          ∙ ap (min limit) (length-drop offset rows))

  same_page :
      (offset : ℕ) (page : McpPage B)
      → list_page item rows (pos offset) (pos limit) ≡ return page
      → page_of item rows (offset, limit) ≡ page
  unfolding list_page
  same_page offset page e = elim (Bool-cases (ltb limit 1 || ltb page_limit_max limit)) [
    | inl bad ↦ cc (rw bad at e)
    | inr good ↦ cc (rw good at e)
  ]

  got_so_far :
      {offset : ℕ} {got : List B}
      → HasRead offset got
      → (offset ≤ length rows) × (got ≡ map item (take offset rows))
  got_so_far first = (omega arith, refl)
  got_so_far (next {offset} {got} {page} reads e more) =
      let (within, same) = got_so_far reads in
      let page_same = same_page offset page e in
      let further : ltb (offset + min limit (length rows - offset)) (length rows) ≡ true =
        sym (has_more-page_of offset) ∙ ap (λ p. p.has_more) page_same ∙ more in
      (
        ground arith,
        rw same (
            ap (λ l. map item (take offset rows) ++ l)
              (ap (λ p. p.items) (sym page_same) ∙ items-page_of offset)
            ∙ sym (map-append item (take offset rows) (take limit (drop offset rows)))
            ∙ ap (map item) (sym (take-add offset limit rows))),
      )

  last_page :
      (offset : ℕ) (got : List B)
      → got ≡ map item (take offset rows)
      → (page_of item rows (offset, limit)).has_more ≡ false
      → got ++ (page_of item rows (offset, limit)).items ≡ map item rows
  last_page offset got same no_more =
      let no_row = sym (has_more-page_of offset) ∙ no_more in
      let short : length (drop offset rows) ≤ limit = rw (length-drop offset rows) (ground arith) in
      rw same (
        ap (λ l. map item (take offset rows) ++ l)
          (items-page_of offset ∙ ap (map item) (take_of_length-le limit (drop offset rows) short))
        ∙ sym (map-append item (take offset rows) (drop offset rows))
        ∙ ap (map item) (take-append-drop offset rows))

  -- For a limit from 1 to 500, an agent that goes on while there is more never asks for an offset
  -- behind the last row, so it ends; each of its calls returns a page; and with a page that has no
  -- more it has the items of all rows, each once and in order.
  pub list_page-reads_all :
      {offset : ℕ} {got : List B}
      → 1 ≤ limit
      → limit ≤ page_limit_max
      → HasRead offset got
      → (offset ≤ length rows)
        × ((page : McpPage B) × (list_page item rows (pos offset) (pos limit) ≡ return page)
            × (page.has_more ≡ false → got ++ page.items ≡ map item rows))
  unfolding list_page
  list_page-reads_all {offset} {got} low high reads =
      let (within, same) = got_so_far reads in
      let valid : (ltb limit 1 || ltb page_limit_max limit) ≡ false = ground arith in
      (within, (page_of item rows (offset, limit), rw valid refl, last_page offset got same))
