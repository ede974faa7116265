-- ===== src/Uploads.antt =====
-- services/sbom_parser.py: `store_sbom`. The digest of a document and `datetime.fromisoformat` are
-- parameters, and so are the ids of new rows and the time, which is `uploaded_at`, and `created_at`
-- where the document names none.
pub mod Stored
use argus_sbomguard.Common.{
  ℕ, Option, none, some, Bool, true, false, ◌&&◌, List, [], ◌∷◌, ◌++◌, map, filter, length, ◌==◌,
  nat_eq, list_eq, Text, text, lower, if◌then◌else◌, Outcome, return, raise, ◌>>=◌, attribute_error,
}
use argus_sbomguard.Common.Json.{Json, null, str, obj, end, truthy, or_else, get}
use argus_sbomguard.Models.{Sbom, Dependency, Service, SbomFormat}
use argus_sbomguard.Auth.{one_or_none}
use argus_sbomguard.Scanner.{Calendar, parse_date}
use argus_sbomguard.Parser.{
  Draft, with_sbom, parse_cyclonedx, parse_spdx, extract_service_name, extract_component_version,
}

-- The tables that an upload writes.
pub record Catalog : Type 0 where
  pub services : List Service
  pub sboms : List Sbom
  pub dependencies : List Dependency

-- What an upload takes from outside.
pub record UploadWorld : Type 0 where
  pub digest : Json → Text
  pub calendar : Calendar
  pub now : ℕ
  pub sbom_id : ℕ
  pub service_id : ℕ

-- A value that is no text has no `replace`, and the AttributeError is not caught.
abbrev timestamp_from : Calendar → Json → Outcome (Option ℕ)
timestamp_from calendar (str s) = return (parse_date calendar (str s))
timestamp_from calendar ts = if truthy ts then raise attribute_error else return none

unfoldable pub extract_timestamp : Calendar → Json → Outcome (Option ℕ)
unfolding get or_else truthy parse_date
extract_timestamp calendar raw = do
  meta ← get raw (text "metadata") null
  ts ← get (or_else meta (obj end)) (text "timestamp") null
  timestamp_from calendar ts

abbrev lowered_text : Json → Outcome Text
lowered_text (str s) = return (lower s)
lowered_text _ = raise attribute_error

-- The dependencies and the format of a document.
unfoldable pub read_document : Json → Outcome (List Draft × Option SbomFormat)
unfolding get truthy lower parse_cyclonedx parse_spdx
read_document raw = do
  bom_format ← get raw (text "bomFormat") (str [])
  fmt ← lowered_text bom_format
  spdx_version ← get raw (text "spdxVersion") null
  if fmt == text "cyclonedx"
      then (do deps ← parse_cyclonedx raw; return (deps, some SbomFormat.cyclonedx))
      else if truthy spdx_version
      then (do deps ← parse_spdx raw; return (deps, some SbomFormat.spdx))
      else return ([], none)

-- `version or _extract_component_version(raw) or sha`; an empty text is none.
abbrev pub choose_version : Option Text → Text → Json → Outcome Text
choose_version (some (c ∷ s)) sha raw = return (c ∷ s)
choose_version _ sha raw = do
  found ← extract_component_version raw
  return (elim found [ none ↦ sha | some v ↦ v ])

abbrev pub choose_name : Option Text → Option Text → Option Text
choose_name (some (c ∷ s)) auto_service = some (c ∷ s)
choose_name _ auto_service = auto_service

abbrev is_named : ℕ → Text → Service → Bool
is_named project_id name s = s.project_id == project_id && s.name == name

abbrev service_or_new : ℕ → ℕ → Text → List Service → Option Service → ℕ × List Service
service_or_new id project_id name services (some s) = (s.id, services)
service_or_new id project_id name services none =
    (id, services ++ record { id = id; project_id = project_id; name = name } ∷ [])

unfoldable pub get_or_create_service : ℕ → ℕ → Text → List Service → Outcome (ℕ × List Service)
get_or_create_service id project_id name services = do
  service ← one_or_none (filter (is_named project_id name) services)
  return (service_or_new id project_id name services service)

abbrev pub service_for : ℕ → ℕ → Option Text → List Service → Outcome (Option ℕ × List Service)
service_for id project_id none services = return (none, services)
service_for id project_id (some name) services = do
  found ← get_or_create_service id project_id name services
  return (some found.0, found.1)

abbrev pub value_or {ℓ} : {A : Type ℓ} → A → Option A → A
value_or a none = a
value_or a (some b) = b

abbrev pub has_sha : Text → Sbom → Bool
has_sha sha s = s.sha256 == sha

module _ (world : UploadWorld) (project_id : ℕ) (raw : Json) (service_name : Option Text) where
  -- The rows of a new document.
  abbrev pub insert_rows :
      List Draft × Option SbomFormat
      → Text
      → Option ℕ × List Service
      → Option ℕ
      → Catalog
      → Sbom × Catalog
  insert_rows document version service created a =
      let sbom : Sbom = record {
        id = world.sbom_id;
        project_id = project_id;
        version = version;
        format = document.1;
        raw_sbom = raw;
        sha256 = world.digest raw;
        dependency_count = length document.0;
        uploaded_at = world.now;
        service_id = service.0;
        created_at = value_or world.now created;
      } in
      (
        sbom,
        record {
          services = service.1;
          sboms = a.sboms ++ sbom ∷ [];
          dependencies = a.dependencies ++ map (with_sbom world.sbom_id) document.0;
        },
      )

  abbrev pub store_new : List Draft × Option SbomFormat → Text → Catalog → Outcome (Sbom × Catalog)
  store_new document version a = do
    auto_service ← extract_service_name raw
    service ←
        service_for world.service_id project_id (choose_name service_name auto_service) a.services
    created ← extract_timestamp world.calendar raw
    return (insert_rows document version service created a)

  abbrev pub store_unless :
      List Draft × Option SbomFormat → Text → Catalog → Option Sbom → Outcome (Sbom × Catalog)
  store_unless document version a (some existing) = return (existing, a)
  store_unless document version a none = store_new document version a

  -- Nothing is written for a document that is known.
  unfoldable pub store_sbom : Option Text → Catalog → Outcome (Sbom × Catalog)
  unfolding read_document get_or_create_service
  store_sbom version a = do
    document ← read_document raw
    chosen ← choose_version version (world.digest raw) raw
    existing ← one_or_none (filter (has_sha (world.digest raw)) a.sboms)
    store_unless document chosen a existing
