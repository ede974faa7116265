-- ===== src/Grpc.antt =====
-- services/grpc_server.py: the interceptor for API keys, and the upload. `uuid.UUID` and `json.loads`
-- are those of the API. The scan that is queued is not part of the transaction; an exception that
-- nothing catches is answered with UNKNOWN.
pub mod Same
use argus_sbomguard.Common.{
  ℕ, Option, none, some, Bool, true, false, List, [], ◌∷◌, find, ◌==◌, nat_eq, list_eq, Text, lower,
  partition, if◌then◌else◌, Outcome, return, raise, ◌>>=◌,
}
use argus_sbomguard.Common.Json.{Json}
use argus_sbomguard.Models.{Project, Sbom}
use argus_sbomguard.Auth.{Accounts, AuthResult, authenticate_api_key}
use argus_sbomguard.Access.Bearer.{is_no_bearer}
use argus_sbomguard.Uploads.{Catalog, UploadWorld, store_sbom}
use argus_sbomguard.Api.Upload.{Parsers}

pub data StatusCode : Type 0 where
  unknown invalid_argument not_found unauthenticated : StatusCode

-- What a call answers: a response, or the code that it is aborted with.
pub data Rpc {ℓ} (A : Type ℓ) : Type ℓ where
  response : A → Rpc A
  abort : StatusCode → Rpc A

abbrev pub then_rpc {ℓ κ} : {A : Type ℓ} {B : Type κ} → Rpc A → (A → Rpc B) → Rpc B
then_rpc (response a) next = next a
then_rpc (abort code) next = abort code

abbrev pub or_abort {ℓ} : {A : Type ℓ} → Option A → StatusCode → Rpc A
or_abort none code = abort code
or_abort (some a) code = response a

abbrev pub rpc_of {ℓ} : {A : Type ℓ} → Outcome A → Rpc A
rpc_of (return a) = response a
rpc_of (raise e) = abort unknown

-- Only a call that goes on commits the time of use of the key.
abbrev pub admitted : AuthResult → Accounts → Accounts → Rpc (Unit {0}) × Accounts
admitted result a b =
    if result.expired
    then (abort unauthenticated, a)
    else elim result.user [ none ↦ (abort unauthenticated, a) | some u ↦ (response tt, b) ]

module _ (digest : Text → Text) (now : ℕ) where
  -- `intercept_service`, of the metadata `authorization`
  unfoldable pub intercept_service : Text → Accounts → Outcome (Rpc (Unit {0}) × Accounts)
  unfolding lower partition
  intercept_service auth a =
      if is_no_bearer (partition b' ' auth) then return (abort unauthenticated, a) else (do
        (result, b) ← authenticate_api_key digest now (partition b' ' auth).1 a
        return (admitted result a b))

-- The message of app/protos/sbom.proto. The server does not read the name of the service.
pub record UploadRequest : Type 0 where
  pub project_id : Text
  pub project_slug : Option Text
  pub version : Option Text
  pub service_name : Option Text
  pub sbom_json : Text

abbrev pub if_not_empty : Text → Option Text
if_not_empty [] = none
if_not_empty (c ∷ s) = some (c ∷ s)

-- `request.HasField("project_slug") and bool(request.project_slug)`
abbrev pub slug_of : Option Text → Option Text
slug_of none = none
slug_of (some slug) = if_not_empty slug

module _ (parsers : Parsers) (projects : List Project) where
  -- The project of the request: exactly one of the two fields names it.
  abbrev pub project_of_request : Option Text → Option Text → Rpc Project
  project_of_request (some id) (some slug) = abort invalid_argument
  project_of_request none none = abort invalid_argument
  project_of_request none (some slug) = or_abort (find (λ p. p.slug == slug) projects) not_found
  project_of_request (some id) none =
      then_rpc (or_abort (parsers.uuid id) invalid_argument)
        (λ k. or_abort (find (λ p. p.id == k) projects) not_found)

  -- The SBOM of the response, and the tables.
  unfoldable pub upload_sbom_rpc : UploadWorld → UploadRequest → Catalog → Rpc (Sbom × Catalog)
  upload_sbom_rpc world request a =
      then_rpc (project_of_request (if_not_empty request.project_id) (slug_of request.project_slug))
        (λ project.
          then_rpc (or_abort (parsers.json_loads request.sbom_json) invalid_argument)
            (λ raw. rpc_of (store_sbom world project.id raw none request.version a)))
