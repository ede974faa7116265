-- ===== src/Api/Diff.antt =====
-- api/v1/sboms.py: `diff_sboms`. A set is listed in the order of insertion; if a name has several
-- versions, the one that `dict` keeps is the last one listed.
pub mod Patch
use argus_sbomguard.Common.{
  ℕ, Option, none, some, Bool, true, false, not, ◌&&◌, List, [], ◌∷◌, ◌++◌, filter, contains, add,
  ◌==◌, nat_eq, list_eq, pair_eq, Text, if◌then◌else◌,
}
use argus_sbomguard.Common.Json.{Json, str}
use argus_sbomguard.Models.{Dependency}

-- A column of a text.
abbrev pub text_of : Json → Text
text_of (str s) = s
text_of _ = []

abbrev pub Item : Type 0
Item = Text × Text

-- `{(dep.name, dep.version) for dep in rows}` of one SBOM.
unfoldable pub items_of : ℕ → List Dependency → List Item
items_of sbom [] = []
items_of sbom (d ∷ rows) =
    let rest = items_of sbom rows in
    if d.sbom_id == sbom then add (text_of d.name, text_of d.version) rest else rest

-- `dict(deps).get(name)`
abbrev pub version_of : Text → List Item → Option Text
version_of name [] = none
version_of name ((n, v) ∷ l) =
    let rest = version_of name l in
    elim rest [ some w ↦ some w | none ↦ if n == name then some v else none ]

pub record VersionChange : Type 0 where
  pub name : Text
  pub from_version : Text
  pub to_version : Text

pub record Diff : Type 0 where
  pub added : List Item
  pub removed : List Item
  pub changed : List VersionChange

-- `deps - others`
abbrev pub minus : List Item → List Item → List Item
minus deps others = filter (λ x. not (contains others x)) deps

-- The names of a set, once each.
abbrev pub names : List Item → List Text
names [] = []
names ((n, v) ∷ l) = add n (names l)

abbrev pub change_of : Text → Option Text → Option Text → List VersionChange
change_of name (some v) (some w) =
    if v == w then [] else record { name = name; from_version = v; to_version = w } ∷ []
change_of name _ _ = []

unfoldable pub changes : List Item → List Item → List Text → List VersionChange
changes a b [] = []
changes a b (n ∷ l) = change_of n (version_of n a) (version_of n b) ++ changes a b l

unfoldable pub diff_sboms : ℕ → ℕ → List Dependency → Diff
unfolding items_of changes
diff_sboms sbom_id other_id rows =
    let a = items_of sbom_id rows in
    let b = items_of other_id rows in
    record { added = minus b a; removed = minus a b; changed = changes a b (names a) }
