-- ===== src/Uploads/Stored.antt =====
-- What `store_sbom` stores, and that it stores a document once.
use argus_sbomguard.Common.{
  length-map, ℕ, inl, inr, ◌⊎◌, Option, none, some, List, [], ◌∷◌, ◌++◌, map, filter, length, Text,
  ◌≡◌, refl, ap, ◌∙◌, All, return, >>=-eq-return, list_eq, filter-append,
}
use argus_sbomguard.Common.Json.{Json}
use argus_sbomguard.Models.{Service, Sbom, Dependency, SbomFormat}
use argus_sbomguard.Auth.{one_or_none}
use argus_sbomguard.Auth.Logins.{one_or_none-eq-some}
use argus_sbomguard.Parser.{Draft, with_sbom, extract_service_name}
use argus_sbomguard.Uploads.{
  Catalog, UploadWorld, read_document, choose_version, has_sha, store_new, store_unless, store_sbom,
  insert_rows, service_for, choose_name, extract_timestamp,
}

one_or_none-eq-none {ℓ} : {A : Type ℓ} (l : List A) → one_or_none l ≡ return none → l ≡ []
one_or_none-eq-none [] h = refl
one_or_none-eq-none (x ∷ []) h = cc
one_or_none-eq-none (x ∷ y ∷ l) h = cc

-- What a new document adds: a row with its digest, and its dependencies.
abbrev pub Adds : Text → Sbom → Catalog → Catalog → Type 0
Adds sha s a b =
    (s.sha256 ≡ sha)
    × (b.sboms ≡ a.sboms ++ s ∷ [])
    × ((deps : List Dependency) × (b.dependencies ≡ a.dependencies ++ deps)
        × (length deps ≡ s.dependency_count)
        × All (λ d. d.sbom_id ≡ s.id) deps)

module _ (world : UploadWorld) (project_id : ℕ) (raw : Json) (service_name : Option Text) where
  drafts-All :
      (l : List Draft) → All (λ d. d.sbom_id ≡ world.sbom_id) (map (with_sbom world.sbom_id) l)
  drafts-All [] = tt
  drafts-All (d ∷ l) = (refl, drafts-All l)

  insert_rows-Adds :
      (document : List Draft × Option SbomFormat) (version : Text)
      (service : Option ℕ × List Service) (created : Option ℕ) (a : Catalog)
      → Adds
          (world.digest raw)
          (insert_rows world project_id raw service_name document version service created a).0
          a
          (insert_rows world project_id raw service_name document version service created a).1
  insert_rows-Adds document version service created a = (
    refl,
    refl,
    (_, refl, length-map (with_sbom world.sbom_id) document.0, drafts-All document.0),
  )

  store_new-Adds :
      (document : List Draft × Option SbomFormat) (version : Text) (a b : Catalog) (s : Sbom)
      → store_new world project_id raw service_name document version a ≡ return (s, b)
      → Adds (world.digest raw) s a b
  store_new-Adds document version a b s e =
      let (auto_service, e0, e1) = >>=-eq-return (extract_service_name raw) _ e in
      let (service, e2, e3) =
        >>=-eq-return
          (service_for world.service_id project_id (choose_name service_name auto_service)
            a.services)
          _ e1 in
      let (created, e4, e5) = >>=-eq-return (extract_timestamp world.calendar raw) _ e3 in
      let rows = insert_rows world project_id raw service_name document version service created a in
      let same_sbom : rows.0 ≡ s = cc in
      let same_tables : rows.1 ≡ b = cc in
      rw (← same_sbom, ← same_tables) (insert_rows-Adds document version service created a)

  -- The run of an upload: the document and the version that it read, and either the one row of the
  -- digest, with the tables as they were, or none, with what is added.
  store_sbom-run :
      (version : Option Text) (a b : Catalog) (s : Sbom)
      → store_sbom world project_id raw service_name version a ≡ return (s, b)
      → (document : List Draft × Option SbomFormat) × (chosen : Text) × (read_document raw
          ≡ return document)
        × (choose_version version (world.digest raw) raw ≡ return chosen)
        × ((filter (has_sha (world.digest raw)) a.sboms ≡ s ∷ []) × (a ≡ b)
            ⊎ ((filter (has_sha (world.digest raw)) a.sboms ≡ []) × Adds (world.digest raw) s a b))
  unfolding store_sbom
  store_sbom-run version a b s e =
      let (document, read, e1) = >>=-eq-return (read_document raw) _ e in
      let (chosen, choice, e2) =
        >>=-eq-return (choose_version version (world.digest raw) raw) _ e1 in
      let (o, first, rest) =
        >>=-eq-return (one_or_none (filter (has_sha (world.digest raw)) a.sboms))
          (store_unless world project_id raw service_name document chosen a) e2 in
      (document, chosen, read, choice, from document chosen o first rest)
    where
      from :
          (document : List Draft × Option SbomFormat) (chosen : Text) (o : Option Sbom)
          → one_or_none (filter (has_sha (world.digest raw)) a.sboms) ≡ return o
          → store_unless world project_id raw service_name document chosen a o ≡ return (s, b)
          → (filter (has_sha (world.digest raw)) a.sboms ≡ s ∷ []) × (a ≡ b)
            ⊎ ((filter (has_sha (world.digest raw)) a.sboms ≡ []) × Adds (world.digest raw) s a b)
      from document chosen none first rest =
          inr (one_or_none-eq-none _ first, store_new-Adds document chosen a b s rest)
      from document chosen (some t) first rest =
          let e' : t ≡ s = cc in inl (one_or_none-eq-some _ t first ∙ ap (λ x. x ∷ []) e', cc)

-- If `store_sbom` returns and the digest of the document was unknown, exactly one SBOM is added, with
-- this digest, and as many dependencies as it counts, which all belong to it; if the digest was
-- known, the SBOM that has it is returned and the tables are as they were.
pub store_sbom-stores :
    (world : UploadWorld) (project_id : ℕ) (raw : Json) (service_name version : Option Text)
    (a b : Catalog) (s : Sbom)
    → store_sbom world project_id raw service_name version a ≡ return (s, b)
    → (filter (has_sha (world.digest raw)) a.sboms ≡ s ∷ []) × (a ≡ b)
      ⊎ ((filter (has_sha (world.digest raw)) a.sboms ≡ []) × Adds (world.digest raw) s a b)
store_sbom-stores world project_id raw service_name version a b s e =
    let (document, chosen, read, choice, run) =
      store_sbom-run world project_id raw service_name version a b s e in
    run

-- If `store_sbom` returns an SBOM, then the same document, uploaded again with the same version for
-- any project and service, returns the same SBOM and changes no table.
pub store_sbom_again :
    (world later : UploadWorld) (project_id other_id : ℕ) (raw : Json)
    (service_name other_name version : Option Text) (a b : Catalog) (s : Sbom)
    → later.digest raw ≡ world.digest raw
    → store_sbom world project_id raw service_name version a ≡ return (s, b)
    → store_sbom later other_id raw other_name version b ≡ return (s, b)
unfolding store_sbom
store_sbom_again world later project_id other_id raw service_name other_name version a b s d e =
    let (document, chosen, read, choice, run) =
      store_sbom-run world project_id raw service_name version a b s e in
    rw (read, d, choice, known run) refl
  where
    known :
        (filter (has_sha (world.digest raw)) a.sboms ≡ s ∷ []) × (a ≡ b)
          ⊎ ((filter (has_sha (world.digest raw)) a.sboms ≡ []) × Adds (world.digest raw) s a b)
        → filter (has_sha (world.digest raw)) b.sboms ≡ s ∷ []
    known (inl (found, same)) = rw (← same) found
    known (inr (fresh, (sha, added, _))) =
        ap (filter (has_sha (world.digest raw))) added
        ∙ filter-append (has_sha (world.digest raw)) a.sboms (s ∷ [])
        ∙ rw (fresh, (list_eq.beq_iff s.sha256 (world.digest raw)).1 sha) refl
