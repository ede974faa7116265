-- ===== src/Site/Labels.antt =====
-- api/pages/common.py: the name of a dependency on a page; and what the pages read from the data that
-- grype reported.
use argus_sbomguard.Common.{
  none, some, List, [], ◌∷◌, ◌++◌, any, last, length, split, before, partition, leb, ◌==◌, nat_eq,
  Text, text, if◌then◌else◌, Outcome, return, ◌>>=◌,
}
use argus_sbomguard.Common.Json.{Json, null, str, arr, obj, Items, end, get, or_else, truthy, first}
use argus_sbomguard.Models.{Vulnerability}

abbrev last_part : Text → List Text → Text
last_part purl parts =
    if leb 2 (length parts)
    then before b'?' (elim (last parts) [ none ↦ [] | some part ↦ part ])
    else purl

unfoldable package_and_version : Text → Text
unfolding partition
package_and_version last =
    if any (λ c. c == b'@') last
    then (let (pkg, ver) = partition b'@' last in pkg ++ (text " " ++ ver))
    else last

abbrev name_and_version : Text → Text → Text
name_and_version name [] = name
name_and_version name (c ∷ version) = name ++ (text " " ++ (c ∷ version))

-- An absent name, version or purl is the empty text: both are false.
unfoldable pub dep_name : Text → Text → Text → Text
unfolding split before package_and_version
dep_name (c ∷ name) version purl = name_and_version (c ∷ name) version
dep_name [] version (c ∷ purl) = package_and_version (last_part (c ∷ purl) (split b'/' (c ∷ purl)))
dep_name [] version [] = text "-"

-- What a page shows of `extra_data`.
pub record Extra : Type 0 where
  pub cvss_vector : Json
  pub urls : Json
  pub fix_versions : Json

-- `cvss_list[0].get("vector") if cvss_list else ""`
unfoldable pub cvss_vector_of : Json → Outcome Json
unfolding first get truthy
cvss_vector_of cvss_list =
    if truthy cvss_list
    then (do head ← first cvss_list; get head (text "vector") null)
    else return (str [])

unfoldable pub extra_of : Vulnerability → Outcome Extra
unfolding get or_else cvss_vector_of
extra_of v = do
  let extra = or_else v.extra_data (obj end)
  cvss ← get extra (text "cvss") null
  vector ← cvss_vector_of (or_else cvss (arr Items.nil))
  urls ← get extra (text "urls") null
  fix ← get extra (text "fix") null
  versions ← get (or_else fix (obj end)) (text "versions") null
  return (record {
    cvss_vector = vector;
    urls = or_else urls (arr Items.nil);
    fix_versions = or_else versions (arr Items.nil);
  })
