-- ===== src/Api/Upload/Again.antt =====
-- The same file, uploaded twice.
use argus_sbomguard.Common.{List, ◌≡◌, refl}
use argus_sbomguard.Common.Json.{Json}
use argus_sbomguard.Common.Reply.{ok, >>=-eq-ok, found_or, reply_of-eq-ok}
use argus_sbomguard.Models.{Project, Sbom}
use argus_sbomguard.Uploads.{Catalog, UploadWorld}
use argus_sbomguard.Uploads.Stored.{store_sbom_again}
use argus_sbomguard.Api.Upload.{UploadForm, Parsers, given, strip_json, project_named, upload_sbom}

-- If an upload succeeds, and the digest of a document stays the same, then an upload of the same file
-- with the same version, for any project that is found and any service, answers with the same SBOM
-- and changes no table.
pub upload_sbom_again :
    (parsers : Parsers) (projects : List Project) (world later : UploadWorld)
    (form other : UploadForm) (a b : Catalog) (s : Sbom) (p : Project)
    → ((raw : Json) → later.digest raw ≡ world.digest raw)
    → other.content ≡ form.content
    → other.version ≡ form.version
    → project_named parsers projects (given other.project_id) (given other.project_slug) ≡ ok p
    → upload_sbom parsers projects world form a ≡ ok (s, b)
    → upload_sbom parsers projects later other b ≡ ok (s, b)
unfolding upload_sbom
upload_sbom_again parsers projects world later form other a b s p d same_content same_version found
      e =
    let (q, named, e1) =
      >>=-eq-ok (project_named parsers projects (given form.project_id) (given form.project_slug)) _
        e in
    let (raw, parsed, e2) = >>=-eq-ok (found_or (parsers.json_loads form.content) 422) _ e1 in
    let first = reply_of-eq-ok _ e2 in
    rw
      (
        same_content,
        same_version,
        found,
        parsed,
        store_sbom_again world later q.id p.id (strip_json raw) (given form.service_name)
            (given other.service_name) (given form.version) a b s (d (strip_json raw)) first,
      )
      refl
