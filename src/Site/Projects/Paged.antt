-- ===== src/Site/Projects/Paged.antt =====
-- `project_vulns_page` cuts its list by hand; `paginate` does the same.
use argus_sbomguard.Common.{ℕ, none, List, ◌≡◌, refl, sym, arith}
use argus_sbomguard.Pagination.{paginate}
use argus_sbomguard.Pagination.Pages.{items-paginate, has_more_lem}
use argus_sbomguard.Site.Projects.{Entry, vulns_page}

-- The page of the vulnerabilities of a project has the items, the total and the flag for more that
-- `paginate` gives for the same list.
pub vulns_page-paginate :
    (all_vulns : List Entry) (page per_page : ℕ)
    → ((vulns_page all_vulns page per_page).items ≡ (paginate all_vulns page per_page none).items)
      × ((vulns_page all_vulns page per_page).total ≡ (paginate all_vulns page per_page none).total)
      × ((vulns_page all_vulns page per_page).has_more
          ≡ (paginate all_vulns page per_page none).has_more)
unfolding vulns_page
vulns_page-paginate all_vulns page per_page = (
  sym (items-paginate all_vulns page per_page none),
  unfold paginate in refl,
  ground (arith, has_more_lem all_vulns page per_page none),
)
