-- ===== src/Parser.antt =====
-- services/sbom_parser.py: the fields and the dependencies of an uploaded document. A row holds the
-- values as they are passed on; that the driver refuses a value of a wrong type is not modelled.
use argus_sbomguard.Common.{
  ℕ, Option, none, some, Bool, true, false, ◌||◌, List, [], ◌∷◌, map, ◌==◌, nat_eq, list_eq, Text,
  text, strip, starts_with, if◌then◌else◌, Outcome, return, raise, ◌>>=◌, type_error,
}
use argus_sbomguard.Common.Json.{
  Json, null, str, arr, obj, nil, Fields, end, field, truthy, or_else, lookup_field, get, items,
}
use argus_sbomguard.Models.{Dependency}

-- `raw.get("metadata") or {}`, and its component.
abbrev metadata_of : Json → Outcome Json
metadata_of raw = do meta ← get raw (text "metadata") null; return (or_else meta (obj end))

abbrev component_of : Json → Outcome Json
component_of raw = do
  meta ← metadata_of raw
  component ← get meta (text "component") null
  return (or_else component (obj end))

abbrev text_or_none : Text → Option Text
text_or_none [] = none
text_or_none (c ∷ s) = some (c ∷ s)

abbrev stripped : Json → Option Text
stripped (str s) = text_or_none (strip s)
stripped _ = none

unfoldable pub extract_service_name : Json → Outcome (Option Text)
unfolding get or_else truthy strip
extract_service_name raw = do
  component ← component_of raw
  name ← get component (text "name") null
  return (stripped name)

unfoldable pub extract_component_version : Json → Outcome (Option Text)
unfolding get or_else truthy strip
extract_component_version raw = do
  component ← component_of raw
  ver ← get component (text "version") null
  return (stripped ver)

abbrev keys : Fields → List Json
keys end = []
keys (field k v fs) = str k ∷ keys fs

-- The elements that `for x in value` visits: those of a list, the keys of an object, the characters
-- of a text.
unfoldable pub iterate : Json → Outcome (List Json)
iterate (arr l) = return (items l)
iterate (obj fs) = return (keys fs)
iterate (str s) = return (map (λ c. str (c ∷ [])) s)
iterate _ = raise type_error

abbrev is_within : Text → Text → Bool
is_within p [] = starts_with [] p
is_within p (c ∷ s) = starts_with (c ∷ s) p || is_within p s

abbrev holds_text : Text → List Json → Bool
holds_text p [] = false
holds_text p (str s ∷ l) = s == p || holds_text p l
holds_text p (_ ∷ l) = holds_text p l

-- The loop of `_extract_license`: a text or a list that holds "license" has no such key.
abbrev license_from : List Json → Outcome Json
license_from [] = return (str [])
license_from (obj fs ∷ rest) =
    let next = license_from rest in
    elim (lookup_field (text "license") fs) [ none ↦ next | some v ↦ get v (text "id") (str []) ]
license_from (str s ∷ rest) =
    let next = license_from rest in if is_within (text "license") s then raise type_error else next
license_from (arr l ∷ rest) =
    let next = license_from rest in
    if holds_text (text "license") (items l) then raise type_error else next
license_from (_ ∷ rest) = raise type_error

unfoldable pub extract_license : Json → Outcome Json
unfolding get iterate lookup_field starts_with
extract_license component = do
  licenses ← get component (text "licenses") (arr nil)
  entries ← iterate licenses
  license_from entries

-- A dependency before it has its SBOM.
pub record Draft : Type 0 where
  pub name : Json
  pub version : Json
  pub purl : Json
  pub dep_type : Json
  pub license : Json
  pub is_direct : Bool
  pub extra_data : Json

-- `Dependency(sbom_id=sbom.id, **dependency_data)`
abbrev pub with_sbom : ℕ → Draft → Dependency
with_sbom sbom_id d = record {
  sbom_id = sbom_id;
  name = d.name;
  version = d.version;
  purl = d.purl;
  dep_type = d.dep_type;
  license = d.license;
  is_direct = d.is_direct;
  extra_data = d.extra_data;
}

abbrev cyclonedx_draft : Json → Outcome Draft
cyclonedx_draft component = do
  purl ← get component (text "purl") (str [])
  name ← get component (text "name") (str [])
  version ← get component (text "version") (str [])
  dep_type ← get component (text "type") (str (text "library"))
  license ← extract_license component
  return (record {
    name = name;
    version = version;
    purl = purl;
    dep_type = dep_type;
    license = license;
    is_direct = true;
    extra_data = component;
  })

abbrev spdx_draft : Json → Outcome Draft
spdx_draft pkg = do
  name ← get pkg (text "name") (str [])
  version ← get pkg (text "versionInfo") (str [])
  license ← get pkg (text "licenseDeclared") (str [])
  return (record {
    name = name;
    version = version;
    purl = str [];
    dep_type = str (text "library");
    license = license;
    is_direct = true;
    extra_data = pkg;
  })

-- A loop that appends one result for each element.
abbrev pub each {ℓ κ} : {A : Type ℓ} {B : Type κ} → (A → Outcome B) → List A → Outcome (List B)
each f [] = return []
each f (a ∷ l) = let rest = each f l in do b ← f a; bs ← rest; return (b ∷ bs)

unfoldable pub parse_cyclonedx : Json → Outcome (List Draft)
unfolding get iterate extract_license
parse_cyclonedx raw = do
  components ← get raw (text "components") (arr nil)
  entries ← iterate components
  each cyclonedx_draft entries

unfoldable pub parse_spdx : Json → Outcome (List Draft)
unfolding get iterate
parse_spdx raw = do
  packages ← get raw (text "packages") (arr nil)
  entries ← iterate packages
  each spdx_draft entries
