-- ===== src/Examples/Tables.antt =====
-- Pruning and paging small tables.
use argus_sbomguard.Common.{
  ℕ, none, some, true, List, [], ◌∷◌, ◌≡◌, ◌⊎◌, ◌↔◌, refl, Memᴰ, arith, nat_eq,
}
use argus_sbomguard.Models.{Sbom}
use argus_sbomguard.Scanning.{same_scope, row_number}
use argus_sbomguard.Retention.{expired_ids, Archive, prune_sboms}
use argus_sbomguard.Retention.Kept.{prune_sboms-keeps_scope, prune_sboms_exact, IsLatest, IsRecent}
use argus_sbomguard.Pagination.{paginate}
use argus_sbomguard.Pagination.Pages.{first_pages, pages_cover}
use argus_sbomguard.Examples.Data.{old_sbom, new_sbom, finding_in}

abbrev archive : Archive
archive = record {
  snapshots = [];
  sboms = old_sbom ∷ new_sbom ∷ [];
  dependencies = [];
  findings = finding_in 100 ∷ finding_in 101 ∷ [];
}

prune_sboms-keeps_scope_example :
    (t : Sbom) × Memᴰ t (prune_sboms 400 (some 365) archive).sboms × (same_scope t old_sbom ≡ true)
prune_sboms-keeps_scope_example =
    prune_sboms-keeps_scope 400 (some 365) archive old_sbom (refl, (refl, tt)) (Memᴰ.head refl)

prune_sboms_exact_example :
    Memᴰ old_sbom (prune_sboms 400 (some 365) archive).sboms
    ↔ (IsLatest archive.sboms old_sbom ⊎ IsRecent 400 365 old_sbom)
prune_sboms_exact_example =
    prune_sboms_exact 400 365 archive old_sbom (refl, (refl, tt)) (Memᴰ.head refl)

-- The older SBOM has expired.
prune_older : (prune_sboms 400 (some 365) archive).sboms ≡ new_sbom ∷ []
unfolding prune_sboms expired_ids row_number
prune_older = refl

abbrev rows : List ℕ
rows = 1 ∷ 2 ∷ 3 ∷ 4 ∷ 5 ∷ []

pages_cover_example : first_pages rows 2 (paginate rows 1 2 none).total_pages ≡ rows
pages_cover_example = pages_cover rows 2 (omega arith)
