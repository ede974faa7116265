-- ===== src/Examples/Upload.antt =====
-- An upload of a document with one package, and the same upload again.
use argus_sbomguard.Common.{
  ℕ, none, [], ◌∷◌, text, ◌≡◌, refl, some, strip_nul, Outcome, return, raise,
}
use argus_sbomguard.Common.Json.{Json, str, arr, obj, nil, cons, end, field}
use argus_sbomguard.Models.{Project, Sbom}
use argus_sbomguard.Parser.{extract_component_version, extract_service_name}
use argus_sbomguard.Uploads.{Catalog, UploadWorld, store_sbom, extract_timestamp}
use argus_sbomguard.Common.Reply.{ok}
use argus_sbomguard.Api.Upload.{Parsers, UploadForm, project_named, given, upload_sbom, strip_json}
use argus_sbomguard.Grpc.{UploadRequest, upload_sbom_rpc}
use argus_sbomguard.Grpc.Same.{HasNoNul, form_of, value, rpc_value, upload_sbom_rpc-same}
use argus_sbomguard.Api.Upload.Again.{upload_sbom_again}

abbrev world : ℕ → UploadWorld
world now = record {
  digest = λ raw. text "d";
  calendar = λ s. none;
  now = now;
  sbom_id = now;
  service_id = 9;
}

abbrev raw : Json
raw = obj (
    field (text "spdxVersion") (str (text "SPDX-2.3")) (
      field (text "packages")
        (arr (cons (obj (field (text "name") (str (text "left-pad")) end)) nil)) end))

abbrev empty : Catalog
empty = record { services = []; sboms = []; dependencies = [] }

abbrev result_of : Outcome (Sbom × Catalog) → Sbom → Sbom × Catalog
result_of (return r) s = r
result_of (raise e) s = (s, empty)

abbrev blank : Sbom
blank = record {
  id = 0;
  project_id = 0;
  version = [];
  format = none;
  raw_sbom = raw;
  sha256 = [];
  dependency_count = 0;
  uploaded_at = 0;
  service_id = none;
  created_at = 0;
}

stored : Sbom × Catalog
stored = result_of (store_sbom (world 1) 5 raw none none empty) blank

stores : store_sbom (world 1) 5 raw none none empty ≡ return stored
unfolding stored store_sbom extract_component_version extract_service_name extract_timestamp
stores = refl

abbrev project : Project
project = record {
  id = 5;
  name = text "Shop";
  slug = text "shop";
  description = none;
  repo_url = none;
  platform = none;
  created_at = 0;
}

abbrev parsers : Parsers
parsers = record { uuid = λ s. some 5; json_loads = λ s. some raw }

-- The project by its id, and by its slug for a service.
abbrev form : UploadForm
form = record {
  project_id = some (text "5");
  project_slug = none;
  version = none;
  service_name = none;
  content = text "file";
}

abbrev by_slug : UploadForm
by_slug = record {
  project_id = none;
  project_slug = some (text "shop");
  version = none;
  service_name = some (text "web");
  content = text "file";
}

slug_found :
    project_named parsers (project ∷ []) (given by_slug.project_id) (given by_slug.project_slug)
    ≡ ok project
unfolding strip_nul
slug_found = refl

uploads : upload_sbom parsers (project ∷ []) (world 1) form empty ≡ ok stored
unfolding stored upload_sbom store_sbom extract_component_version extract_service_name
    extract_timestamp strip_json strip_nul
uploads = refl

upload_sbom_again_example :
    upload_sbom parsers (project ∷ []) (world 2) by_slug stored.1 ≡ ok stored
upload_sbom_again_example =
    upload_sbom_again parsers (project ∷ []) (world 1) (world 2) form by_slug empty stored.1
      stored.0 project (λ r. refl) refl refl slug_found uploads

abbrev call : UploadRequest
call = record {
  project_id = text "5";
  project_slug = none;
  version = some (text "1.0");
  service_name = some (text "shop");
  sbom_json = text "file";
}

no_nul : HasNoNul parsers call
unfolding strip_nul strip_json
no_nul = record {
  clean_id = refl;
  clean_slug = λ s h. cc;
  clean_version = λ s h. let same : text "1.0" ≡ s = cc in rw (← same) refl;
  clean_json = λ other h. let same : raw ≡ other = cc in rw (← same) refl;
}

upload_sbom_rpc-same_example :
    rpc_value (upload_sbom_rpc parsers (project ∷ []) (world 1) call empty)
    ≡ value (upload_sbom parsers (project ∷ []) (world 1) (form_of call) empty)
upload_sbom_rpc-same_example =
    upload_sbom_rpc-same parsers (project ∷ []) (world 1) call empty no_nul
