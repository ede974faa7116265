-- ===== src/Queries/Names.antt =====
-- The names that a vulnerability is listed with.
use argus_sbomguard.Common.{
  ℕ, Option, none, some, Bool, not, ◌&&◌, ◌||◌, List, [], ◌∷◌, any, any-append, contains,
  contains-add, ◌==◌, nat_eq, list_eq, Text, ◌≡◌, refl, ap, ◌∙◌, arith, Bool-cases, inl, inr, Eq,
}
use argus_sbomguard.Models.{Finding, Sbom}
use argus_sbomguard.Alerting.{is_actionable, sbom_of, project_name_of}
use argus_sbomguard.Alerting.Card.{is_empty}
use argus_sbomguard.Snapshots.{joined}
use argus_sbomguard.Mcp.Paging.{order_by, insert_by}
use argus_sbomguard.Mcp.Posture.{PostureTables}
use argus_sbomguard.Queries.{
  LinkRow, link_row, link_rows, names_of, text_before, sorted, QueryTables, projects_of,
  services_named, service_name_or_empty,
}

contains-insert_by {ℓ} :
    {A : Type ℓ} ⦃e : Eq A⦄ (before : A → A → Bool) (x b : A) (xs : List A)
    → contains (insert_by before x xs) b ≡ (x == b || contains xs b)
contains-insert_by before x b [] = refl
contains-insert_by before x b (y ∷ ys) = ground (arith, contains-insert_by before x b ys)

pub contains-order_by {ℓ} :
    {A : Type ℓ} ⦃e : Eq A⦄ (before : A → A → Bool) (b : A) (xs : List A)
    → contains (order_by before xs) b ≡ contains xs b
unfolding order_by
contains-order_by before b [] = refl
contains-order_by before b (x ∷ xs) =
    contains-insert_by before x b (order_by before xs)
    ∙ ap (◌||◌ (x == b)) (contains-order_by before b xs)

any-link_row :
    (p : LinkRow → Bool) (t : PostureTables) (l : Finding) (o : Option Sbom)
    → any p (link_row t l o)
      ≡ joined (λ l s. is_actionable t.sboms t.acceptances l s && p (l, s)) l o
any-link_row p t l none = refl
any-link_row p t l (some sbom) = elim (Bool-cases (is_actionable t.sboms t.acceptances l sbom)) [
  | inl live ↦ rw live (ground arith)
  | inr done ↦ rw done refl
]

pub any-link_rows :
    (p : LinkRow → Bool) (t : PostureTables) (links : List Finding)
    → any p (link_rows t links)
      ≡ any
          (λ l.
            joined
              (λ l s. is_actionable t.sboms t.acceptances l s && p (l, s))
              l
              (sbom_of t.sboms t.acceptances l))
          links
unfolding link_rows
any-link_rows p t [] = refl
any-link_rows p t (l ∷ links) =
    any-append p (link_row t l (sbom_of t.sboms t.acceptances l)) (link_rows t links)
    ∙ ground (arith, any-link_row p t l (sbom_of t.sboms t.acceptances l), any-link_rows p t links)

module _ (name : LinkRow → Text) (k : ℕ) (s : Text) where
  -- The row is of the vulnerability, and has the name.
  abbrev pub has_name : LinkRow → Bool
  has_name row = row.0.vulnerability_id == k && (not (is_empty (name row)) && name row == s)

  contains-names_of : (rows : List LinkRow) → contains (names_of name k rows) s ≡ any has_name rows
  unfolding names_of
  contains-names_of [] = refl
  contains-names_of (row ∷ rows) =
      elim (Bool-cases (row.0.vulnerability_id == k && not (is_empty (name row)))) [
        | inl t ↦ rw t (
            contains-add (name row) s (names_of name k rows)
            ∙ ground (arith, contains-names_of rows))
        | inr f ↦ rw f (ground (arith, contains-names_of rows))
      ]

-- A vulnerability is listed with the name of a project exactly if it has an actionable finding in an
-- SBOM of a project of that name, and so with the name of a service; empty names are left out.
pub projects_of-iff-found :
    (t : QueryTables) (k : ℕ) (s : Text)
    → (contains (projects_of t k) s
        ≡ any
            (λ l.
              joined
                (λ l sbom.
                  is_actionable t.posture.sboms t.posture.acceptances l sbom
                  && has_name (λ row. project_name_of t.projects row.1.project_id) k s (l, sbom))
                l
                (sbom_of t.posture.sboms t.posture.acceptances l))
            t.posture.findings)
      × (contains (services_named t k) s
          ≡ any
              (λ l.
                joined
                  (λ l sbom.
                    is_actionable t.posture.sboms t.posture.acceptances l sbom
                    && has_name (service_name_or_empty t.services) k s (l, sbom))
                  l
                  (sbom_of t.posture.sboms t.posture.acceptances l))
              t.posture.findings)
unfolding projects_of services_named
projects_of-iff-found t k s = (
  found (λ row. project_name_of t.projects row.1.project_id),
  found (service_name_or_empty t.services),
)
  where
    found :
        (name : LinkRow → Text)
        → contains (sorted (names_of name k (link_rows t.posture t.posture.findings))) s
          ≡ any
              (λ l.
                joined
                  (λ l sbom.
                    is_actionable t.posture.sboms t.posture.acceptances l sbom
                    && has_name name k s (l, sbom))
                  l
                  (sbom_of t.posture.sboms t.posture.acceptances l))
              t.posture.findings
    found name =
        let rows = link_rows t.posture t.posture.findings in
        contains-order_by text_before s (names_of name k rows)
        ∙ contains-names_of name k s rows
        ∙ any-link_rows (has_name name k s) t.posture t.posture.findings
