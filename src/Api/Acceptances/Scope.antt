-- ===== src/Api/Acceptances/Scope.antt =====
-- What an acceptance covers, and that acceptances do not overlap.
use argus_sbomguard.Common.{
  ℕ, Option, none, some, Bool, true, false, not, ◌||◌, List, [], ◌∷◌, ◌++◌, filter, find, any,
  length, delete_where, ◌==◌, nat_eq, option_eq, ==_refl, ◌≡◌, ◌↔◌, ◌⊎◌, inl, inr, refl, sym, ap,
  ◌∙◌, ◌≤◌, arith, Memᴰ, Bool-cases, Option-cases, filter-append, any_of_mem, mem-filter,
  filter-eq-nil, All-of_mem,
}
use mathlib.Core.List.{append-nil}
use argus_sbomguard.Common.Reply.{
  Reply, ok, refuse, ◌>>=◌, >>=-eq-ok, refuse_if, found_or, ◌>>◌, refuse_if->>-eq-ok,
}
use argus_sbomguard.Models.{Finding, Sbom, RiskAcceptance}
use argus_sbomguard.Acceptance.{accepts, covered_by_acceptance, in_service_scope}
use argus_sbomguard.Api.Acceptances.{
  AcceptanceTables, RiskAcceptanceCreate, in_request_scope, is_service_of, is_project_wide,
  is_decision_on, is_excluded, same_key, new_acceptance, may_accept, has_service, is_open_link,
  accept_reply, create_risk_acceptance, delete_risk_acceptance, stored,
}

any-snoc :
    {A : Type 0} (p : A → Bool) (xs : List A) (a : A) → any p (xs ++ a ∷ []) ≡ (any p xs || p a)
any-snoc p [] a = ground arith
any-snoc p (x ∷ xs) a = ground (arith, any-snoc p xs a)

in_service_scope_symm :
    (named service : Option ℕ) → in_service_scope named service ≡ is_service_of named service
in_service_scope_symm none service = refl
in_service_scope_symm (some k) none = refl
in_service_scope_symm (some k) (some j) = ground arith

-- A check that did not refuse.
refuse_if-eq-ok : (b : Bool) (status : ℕ) {u : Unit {0}} → refuse_if b status ≡ ok u → b ≡ false
refuse_if-eq-ok true status h = cc
refuse_if-eq-ok false status h = refl

module _ (id now : ℕ) (request : RiskAcceptanceCreate) where
  accept_reply-eq-ok :
      (others : List RiskAcceptance) (t : AcceptanceTables) (a : RiskAcceptance)
      → accept_reply id now request others t ≡ ok a
      → (may_accept request t ≡ ok tt) × (new_acceptance id now request ≡ a)
  unfolding accept_reply
  accept_reply-eq-ok others t a e =
      let (u, checked, e1) = >>=-eq-ok (may_accept request t) _ e in
      let (w, fresh, e2) =
        >>=-eq-ok
          (refuse_if (any (same_key (new_acceptance id now request)) (t.acceptances ++ others)) 409)
          _ e1 in
      (checked, cc)

  create-eq-ok :
      (others : List RiskAcceptance) (t : AcceptanceTables) (a : RiskAcceptance)
      → (create_risk_acceptance id now request others t).0 ≡ ok a
      → (create_risk_acceptance id now request others t).1
        ≡ (t.acceptances ++ others) ++ new_acceptance id now request ∷ []
  unfolding create_risk_acceptance
  create-eq-ok others t a e = rw e (rw (accept_reply-eq-ok others t a e).1 refl)

  -- The new row accepts the findings of its vulnerability in the scope of the request.
  accepts-new :
      (link : Finding) (sbom : Sbom)
      → (accepts none link sbom (new_acceptance id now request) ≡ true) ↔ (
          (link.vulnerability_id ≡ request.vulnerability_id)
          × (in_request_scope request sbom ≡ true))
  unfolding accepts
  accepts-new link sbom =
      rw (in_service_scope_symm request.service_id sbom.service_id) (ground arith)

  -- If a risk acceptance is created, then afterwards a finding is covered exactly if it was covered
  -- before, or is of the vulnerability of the request and in an SBOM of its project, and of its
  -- service where it names one. Rows that other requests commit in between count as before.
  pub create_risk_acceptance-covers :
      (others : List RiskAcceptance) (t : AcceptanceTables) (a : RiskAcceptance) (link : Finding)
      (sbom : Sbom)
      → (create_risk_acceptance id now request others t).0 ≡ ok a
      → (covered_by_acceptance (create_risk_acceptance id now request others t).1 none link sbom
          ≡ true)
        ↔ ((covered_by_acceptance (t.acceptances ++ others) none link sbom ≡ true)
            ⊎ ((link.vulnerability_id ≡ request.vulnerability_id)
                × (in_request_scope request sbom ≡ true)))
  unfolding covered_by_acceptance
  create_risk_acceptance-covers others t a link sbom e = rw (create-eq-ok others t a e) (
      rw
        (any-snoc (accepts none link sbom) (t.acceptances ++ others)
          (new_acceptance id now request))
        (ground (arith, accepts-new link sbom)))

  not_excluded :
      (existing : List RiskAcceptance) (b : RiskAcceptance) (service : Option ℕ)
      → is_excluded request.service_id existing ≡ false
      → Memᴰ b existing
      → in_service_scope request.service_id service ≡ true
      → in_service_scope b.service_id service ≡ false
  not_excluded existing b service h m s = scope request.service_id existing h m s
    where
      scope :
          (o : Option ℕ) (l : List RiskAcceptance)
          → is_excluded o l ≡ false
          → Memᴰ b l
          → in_service_scope o service ≡ true
          → in_service_scope b.service_id service ≡ false
      scope none [] h m s = elim m [ ]
      scope none (x ∷ l) h m s = cc
      scope (some k) l h m s = elim (Option-cases b.service_id) [
        | inl wide ↦ let p = any_of_mem is_project_wide l m (rw wide refl) in ground arith
        | inr (j, named) ↦ elim (Bool-cases (in_service_scope b.service_id service)) [
          | inr apart ↦ apart
          | inl meets ↦
              let mine : some j ≡ service =
                (option_eq.beq_iff (some j) service).0 (rw named at meets) in
              let theirs : some k ≡ service = (option_eq.beq_iff (some k) service).0 s in
              let taken =
                any_of_mem (λ a. option_eq.beq a.service_id (some k)) l m
                  ((option_eq.beq_iff b.service_id (some k)).1 (named ∙ mine ∙ sym theirs)) in
              ground arith
        ]
      ]

  may_accept-eq-ok :
      (t : AcceptanceTables)
      → may_accept request t ≡ ok tt
      → is_excluded request.service_id
          (filter (is_decision_on request.project_id request.vulnerability_id) t.acceptances)
        ≡ false
  unfolding may_accept
  may_accept-eq-ok t e =
      let (p, e1, f1) =
        >>=-eq-ok (found_or (find (λ p. p.id == request.project_id) t.projects) 404) _ e in
      let (v, e2, f2) =
        >>=-eq-ok (found_or (find (λ v. v.id == request.vulnerability_id) t.vulnerabilities) 404) _
          f1 in
      let overlap =
        is_excluded request.service_id
          (filter (is_decision_on request.project_id request.vulnerability_id) t.acceptances) in
      let is_closed = not (any (is_open_link request t.sboms) t.findings) in
      let (no_service, f3) =
        refuse_if->>-eq-ok (not (has_service request.project_id request.service_id t.services)) 400
          (refuse_if is_closed 400 >> refuse_if overlap 409) f2 in
      let (closed, f4) = refuse_if->>-eq-ok is_closed 400 (refuse_if overlap 409) f3 in
      refuse_if-eq-ok overlap 409 f4

  -- No existing acceptance covers a finding that the new one covers.
  none_covers :
      (t : AcceptanceTables) (link : Finding) (sbom : Sbom)
      → may_accept request t ≡ ok tt
      → accepts none link sbom (new_acceptance id now request) ≡ true
      → filter (accepts none link sbom) t.acceptances ≡ []
  unfolding accepts
  none_covers t link sbom checked new = filter-eq-nil (accepts none link sbom) t.acceptances (
      All-of_mem _ t.acceptances (λ b m. elim (Bool-cases (accepts none link sbom b)) [
        | inr apart ↦ apart
        | inl both ↦
            let decision : is_decision_on request.project_id request.vulnerability_id b ≡ true =
              ground arith in
            let apart =
              not_excluded
                (filter (is_decision_on request.project_id request.vulnerability_id) t.acceptances)
                b sbom.service_id (may_accept-eq-ok t checked)
                (mem-filter (is_decision_on request.project_id request.vulnerability_id)
                  t.acceptances m decision)
                (ground arith) in
            ground arith
      ]))

-- No finding in any SBOM is covered twice.
abbrev pub AreDisjoint : List RiskAcceptance → Type 0
AreDisjoint acceptances =
    (link : Finding) (sbom : Sbom) → length (filter (accepts none link sbom) acceptances) ≤ 1

-- If no finding is covered by two acceptances, none is after `create_risk_acceptance`, whatever it
-- answers, provided that no other request commits an acceptance between its query and its insert.
pub create_risk_acceptance-AreDisjoint :
    (id now : ℕ) (request : RiskAcceptanceCreate) (t : AcceptanceTables)
    → AreDisjoint t.acceptances
    → AreDisjoint (create_risk_acceptance id now request [] t).1
unfolding create_risk_acceptance
create_risk_acceptance-AreDisjoint id now request t h link sbom =
    answered (accept_reply id now request [] t) refl
  where
    answered :
        (r : Reply RiskAcceptance)
        → accept_reply id now request [] t ≡ r
        → length (filter (accepts none link sbom) (stored (t.acceptances ++ []) r)) ≤ 1
    answered (refuse status) e = rw (append-nil t.acceptances) (h link sbom)
    answered (ok a) e =
        let (checked, same) = accept_reply-eq-ok id now request [] t a e in
        rw (append-nil t.acceptances, ← same)
          (elim (Bool-cases (accepts none link sbom (new_acceptance id now request))) [
            | inl new ↦
                rw
                  (
                    filter-append (accepts none link sbom) t.acceptances _,
                    none_covers id now request t link sbom checked new,
                    new,
                  )
                  (omega arith)
            | inr apart ↦
                rw
                  (
                    filter-append (accepts none link sbom) t.acceptances _,
                    apart,
                    append-nil (filter (accepts none link sbom) t.acceptances),
                  )
                  (h link sbom)
          ])

-- If a risk acceptance is created under an id that no row has, deleting it restores the table.
pub delete-create_risk_acceptance :
    (id now : ℕ) (request : RiskAcceptanceCreate) (others : List RiskAcceptance)
    (t : AcceptanceTables) (a : RiskAcceptance)
    → any (λ b. b.id == id) (t.acceptances ++ others) ≡ false
    → (create_risk_acceptance id now request others t).0 ≡ ok a
    → delete_risk_acceptance id (create_risk_acceptance id now request others t).1
      ≡ ok (t.acceptances ++ others)
unfolding delete_risk_acceptance
delete-create_risk_acceptance id now request others t a fresh e =
    rw (create-eq-ok id now request others t a e) (last_row (t.acceptances ++ others) fresh)
  where
    last_row :
        (l : List RiskAcceptance)
        → any (λ b. b.id == id) l ≡ false
        → (found_or (find (λ b. b.id == id) (l ++ new_acceptance id now request ∷ [])) 404 >>= λ b.
            ok (delete_where (λ c. c.id == b.id) (l ++ new_acceptance id now request ∷ [])))
          ≡ ok l
    last_row l h = rw (find_last l h) (ap ok (deleted l h))
      where
        find_last :
            (l : List RiskAcceptance)
            → any (λ b. b.id == id) l ≡ false
            → find (λ b. b.id == id) (l ++ new_acceptance id now request ∷ [])
              ≡ some (new_acceptance id now request)
        find_last [] h = rw (==_refl id) refl
        find_last (x ∷ l) h = ground (arith, find_last l)

        deleted :
            (l : List RiskAcceptance)
            → any (λ b. b.id == id) l ≡ false
            → delete_where (λ b. b.id == id) (l ++ new_acceptance id now request ∷ []) ≡ l
        deleted [] h = rw (==_refl id) refl
        deleted (x ∷ l) h = ground (arith, deleted l)
