-- ===== src/Grpc/Same.antt =====
-- The gRPC server beside the API: the same keys get in, and the same document is stored.
use argus_sbomguard.Common.{
  ℕ, Option, none, some, Bool, true, false, List, [], ◌∷◌, find, ◌==◌, nat_eq, list_eq, Text,
  strip_nul, partition, ◌≡◌, ◌↔◌, refl, sym, ap, ◌∙◌, Bool-cases, inl, inr, ◌>>=◌ as and_then,
  Outcome, return, raise,
}
use argus_sbomguard.Common.Reply.{Reply, ok, refuse, ◌>>=◌, found_or, found_or-eq-ok, reply_of}
use argus_sbomguard.Common.Json.{Json}
use argus_sbomguard.Models.{User, Project, Sbom}
use argus_sbomguard.Auth.{Accounts, AuthResult, authenticate_api_key}
use argus_sbomguard.Access.Bearer.{is_no_bearer, key_holder, granted, api_key_required}
use argus_sbomguard.Uploads.{Catalog, UploadWorld, store_sbom}
use argus_sbomguard.Api.Upload.{UploadForm, Parsers, given, strip_json, project_named, upload_sbom}
use argus_sbomguard.Grpc.{
  Rpc, response, abort, invalid_argument, not_found, then_rpc, or_abort, rpc_of, admitted,
  intercept_service, UploadRequest, if_not_empty, slug_of, project_of_request, upload_sbom_rpc,
}

admitted-iff-granted :
    (result : AuthResult) (a c b : Accounts)
    → (admitted result a c ≡ (response tt, b))
      ↔ ((u : User) × (granted result c ≡ ok (key_holder u, b)))
admitted-iff-granted result a c b = from result.user result.expired
  where
    from :
        (o : Option User) (late : Bool)
        → (admitted (record { user = o; expired = late }) a c ≡ (response tt, b))
          ↔ ((u : User) × (granted (record { user = o; expired = late }) c ≡ ok (key_holder u, b)))
    from o true = (λ h. cc, λ h. cc h.1)
    from none false = (λ h. cc, λ h. cc h.1)
    from (some u) false = (λ h. (u, cc), λ h. cc h.1)

-- A gRPC call goes on with tables exactly if a route of the API would run with them for the same
-- header of a key and no session.
pub intercept-iff-api_key_required :
    (digest : Text → Text) (now : ℕ) (auth : Text) (a b : Accounts)
    → (intercept_service digest now auth a ≡ return (response tt, b))
      ↔ ((u : User) × (api_key_required digest now none auth a ≡ ok (key_holder u, b)))
unfolding intercept_service api_key_required
intercept-iff-api_key_required digest now auth a b =
    elim (Bool-cases (is_no_bearer (partition b' ' auth))) [
      | inl bad ↦ rw bad (λ h. cc, λ h. cc h.1)
      | inr bearer ↦
          rw bearer (looked_up (authenticate_api_key digest now (partition b' ' auth).1 a))
    ]
  where
    looked_up :
        (m : Outcome (AuthResult × Accounts))
        → (and_then {B = Rpc (Unit {0}) × Accounts} m (λ p. return (admitted p.0 a p.1))
            ≡ return (response tt, b))
          ↔ ((u : User) × ((reply_of m >>= λ p. granted p.0 p.1) ≡ ok (key_holder u, b)))
    looked_up (return (result, c)) =
        let (there, back) = admitted-iff-granted result a c b in
        (λ h. there cc, λ h. ap return (back h))
    looked_up (raise e) = (λ h. cc, λ h. cc h.1)

-- The value of an answer, if it has one.
abbrev pub value {ℓ} : {A : Type ℓ} → Reply A → Option A
value (ok a) = some a
value (refuse status) = none

abbrev pub rpc_value {ℓ} : {A : Type ℓ} → Rpc A → Option A
rpc_value (response a) = some a
rpc_value (abort code) = none

value-bind {ℓ κ} :
    {A : Type ℓ} {B : Type κ} (m : Rpc A) (n : Reply A) (f : A → Rpc B) (g : A → Reply B)
    → rpc_value m ≡ value n
    → ((a : A) → n ≡ ok a → rpc_value (f a) ≡ value (g a))
    → rpc_value (then_rpc m f) ≡ value (n >>= g)
value-bind (response a) (ok b) f g e h =
    let same : a ≡ b = cc in ap (λ a. rpc_value (f a)) same ∙ h b refl
value-bind (response a) (refuse status) f g e h = cc
value-bind (abort code) (ok b) f g e h = cc
value-bind (abort code) (refuse status) f g e h = refl

-- The texts of the request and of its document hold no NUL.
pub record HasNoNul (parsers : Parsers) (request : UploadRequest) : Type 0 where
  pub clean_id : strip_nul request.project_id ≡ request.project_id
  pub clean_slug : (s : Text) → request.project_slug ≡ some s → strip_nul s ≡ s
  pub clean_version : (s : Text) → request.version ≡ some s → strip_nul s ≡ s
  pub clean_json :
      (raw : Json) → parsers.json_loads request.sbom_json ≡ some raw → strip_json raw ≡ raw

-- The form with the fields of the request but for the name of the service, which is left out.
abbrev pub form_of : UploadRequest → UploadForm
form_of request = record {
  project_id = some request.project_id;
  project_slug = request.project_slug;
  version = request.version;
  service_name = none;
  content = request.sbom_json;
}

given-if_not_empty : (s : Text) → strip_nul s ≡ s → given (some s) ≡ if_not_empty s
given-if_not_empty s e = ap (λ t. elim t [ [] ↦ none | c ∷ t ↦ some (c ∷ t) ]) e ∙ cases s
  where
    cases : (s : Text) → elim s [ [] ↦ none | c ∷ t ↦ some (c ∷ t) ] ≡ if_not_empty s
    cases [] = refl
    cases (c ∷ t) = refl

module _ (parsers : Parsers) (projects : List Project) where
  project-same :
      (id slug : Option Text)
      → rpc_value (project_of_request parsers projects id slug)
        ≡ value (project_named parsers projects id slug)
  project-same none none = refl
  project-same (some id) (some slug) = refl
  project-same none (some slug) = by_row (find (λ p. p.slug == slug) projects)
    where
      by_row : (o : Option Project) → rpc_value (or_abort o not_found) ≡ value (found_or o 404)
      by_row none = refl
      by_row (some p) = refl
  project-same (some id) none = by_uuid (parsers.uuid id)
    where
      by_row : (o : Option Project) → rpc_value (or_abort o not_found) ≡ value (found_or o 404)
      by_row none = refl
      by_row (some p) = refl

      by_uuid :
          (o : Option ℕ)
          → rpc_value (
              then_rpc
                (or_abort o invalid_argument)
                (λ k. or_abort (find (λ p. p.id == k) projects) not_found))
            ≡ value (found_or o 404 >>= λ k. found_or (find (λ p. p.id == k) projects) 404)
      by_uuid none = refl
      by_uuid (some k) = by_row (find (λ p. p.id == k) projects)

  -- An empty version counts as none.
  version-same :
      (world : UploadWorld) (project : ℕ) (raw : Json) (version : Option Text) (a : Catalog)
      → ((s : Text) → version ≡ some s → strip_nul s ≡ s)
      → store_sbom world project raw none version a
        ≡ store_sbom world project raw none (given version) a
  version-same world project raw none a h = refl
  version-same world project raw (some []) a h =
      unfold store_sbom in rw (given-if_not_empty [] (h [] refl)) refl
  version-same world project raw (some (c ∷ s)) a h =
      rw (given-if_not_empty (c ∷ s) (h (c ∷ s) refl)) refl

  json-same : (o : Option Json) → rpc_value (or_abort o invalid_argument) ≡ value (found_or o 422)
  json-same none = refl
  json-same (some raw) = refl

  stored-same : (m : Outcome (Sbom × Catalog)) → rpc_value (rpc_of m) ≡ value (reply_of m)
  stored-same (return a) = refl
  stored-same (raise e) = refl

  -- For a request without NUL characters, and whatever name of a service it gives, the upload of the
  -- gRPC server succeeds exactly if that of the API does for the same fields and no name of a service,
  -- and then with the same SBOM and the same tables.
  pub upload_sbom_rpc-same :
      (world : UploadWorld) (request : UploadRequest) (a : Catalog)
      → HasNoNul parsers request
      → rpc_value (upload_sbom_rpc parsers projects world request a)
        ≡ value (upload_sbom parsers projects world (form_of request) a)
  unfolding upload_sbom_rpc upload_sbom
  upload_sbom_rpc-same world request a clean =
      rw
        (
          given-if_not_empty request.project_id clean.clean_id,
          slug request.project_slug clean.clean_slug,
        )
        (value-bind _ _ _ _
          (project-same (if_not_empty request.project_id) (slug_of request.project_slug))
          (λ project _.
            value-bind _ _ _ _ (json-same (parsers.json_loads request.sbom_json)) (λ raw parsed.
              ap (λ m. rpc_value (rpc_of m))
                (version-same world project.id raw request.version a clean.clean_version)
              ∙ stored-same (store_sbom world project.id raw none (given request.version) a)
              ∙ ap
                  (λ j.
                    value (reply_of (store_sbom world project.id j none (given request.version) a)))
                  (sym (
                    clean.clean_json raw
                      (found_or-eq-ok (parsers.json_loads request.sbom_json) 422 parsed))))))
    where
      slug : (o : Option Text) → ((s : Text) → o ≡ some s → strip_nul s ≡ s) → given o ≡ slug_of o
      slug none h = refl
      slug (some s) h = given-if_not_empty s (h s refl)
