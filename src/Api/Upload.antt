-- ===== src/Api/Upload.antt =====
-- api/v1/sboms.py: `upload_sbom`, and `_strip_nul_from_strings` of api/v1/schemas.py. `uuid.UUID` and
-- `json.loads` are parameters, `none` where they raise. The scan that the route queues is not part
-- of the transaction.
pub mod Again
use argus_sbomguard.Common.{
  ℕ, Option, none, some, Bool, true, false, List, [], ◌∷◌, filter, find, ◌==◌, nat_eq, list_eq,
  Text, text, strip_nul, if◌then◌else◌, ◌&&◌, not,
}
use argus_sbomguard.Common.Json.{
  Json, null, bool, num, str, arr, obj, Items, nil, cons, Fields, end, field,
}
use argus_sbomguard.Common.Reply.{Reply, ok, refuse, ◌>>=◌, ◌>>◌, refuse_if, found_or, reply_of}
use argus_sbomguard.Models.{Project, Sbom}
use argus_sbomguard.Uploads.{Catalog, UploadWorld, store_sbom}

-- `d[k] = v`: a key that is there keeps its place.
abbrev put : Text → Json → Fields → Fields
put k v end = field k v end
put k v (field j w fs) = let rest = put k v fs in if j == k then field j v fs else field j w rest

unfoldable mutual
  unfolding strip_nul

  pub strip_json : Json → Json
  strip_json (str s) = str (strip_nul s)
  strip_json (arr l) = arr (strip_items l)
  strip_json (obj fs) = obj (strip_fields fs end)
  strip_json null = null
  strip_json (bool b) = bool b
  strip_json (num n) = num n

  pub strip_items : Items → Items
  strip_items nil = nil
  strip_items (cons x l) = cons (strip_json x) (strip_items l)

  -- The comprehension over the items; the last argument is the dict so far.
  pub strip_fields : Fields → Fields → Fields
  strip_fields end fs = fs
  strip_fields (field k v rest) fs = strip_fields rest (put (strip_nul k) (strip_json v) fs)

-- A form field with no value, and one that is empty, are as good as absent.
abbrev pub given : Option Text → Option Text
given none = none
given (some s) = elim (strip_nul s) [ [] ↦ none | c ∷ t ↦ some (c ∷ t) ]

pub record UploadForm : Type 0 where
  pub project_id : Option Text
  pub project_slug : Option Text
  pub version : Option Text
  pub service_name : Option Text
  pub content : Text

-- What the route takes from outside of the program.
pub record Parsers : Type 0 where
  pub uuid : Text → Option ℕ
  pub json_loads : Text → Option Json

module _ (parsers : Parsers) (projects : List Project) where
  abbrev by_id : Text → Reply Project
  by_id s = do id ← found_or (parsers.uuid s) 404; found_or (find (λ p. p.id == id) projects) 404

  -- The project of the form: exactly one of its two fields names it. The slug is unique.
  abbrev pub project_named : Option Text → Option Text → Reply Project
  project_named none none = refuse 422
  project_named (some s) (some t) = refuse 422
  project_named (some s) none = by_id s
  project_named none (some slug) = found_or (find (λ p. p.slug == slug) projects) 404

  unfoldable pub upload_sbom : UploadWorld → UploadForm → Catalog → Reply (Sbom × Catalog)
  upload_sbom world form a = do
    project ← project_named (given form.project_id) (given form.project_slug)
    raw ← found_or (parsers.json_loads form.content) 422
    reply_of (
        store_sbom world project.id (strip_json raw) (given form.service_name) (given form.version)
          a)
