-- ===== src/Api/Projects/Links.antt =====
-- The foreign keys of the tables, and what keeps them when rows are deleted.
use argus_sbomguard.Common.{
  ℕ, Option, none, some, Bool, true, false, ◌||◌, List, [], ◌∷◌, filter, any, map, contains,
  delete_where, ◌==◌, nat_eq, option_eq, ◌≡◌, refl, arith, inl, inr, All, All-get, Memᴰ, Bool-cases,
  nat_beq_iff, All-delete_where, contains-map_of_mem, mem-filter,
}
use argus_sbomguard.Models.{
  Project, Service, Sbom, Dependency, Finding, RiskAcceptance, AlertRule, Notification, Snapshot,
}
use argus_sbomguard.Api.Projects.{ProjectTables, is_in}

-- A row with the id is in the table.
abbrev pub has_id : {A : Type 0} → (A → ℕ) → List A → ℕ → Bool
has_id id rows k = any (λ r. id r == k) rows

abbrev pub has_id_if_any : {A : Type 0} → (A → ℕ) → List A → Option ℕ → Bool
has_id_if_any id rows none = true
has_id_if_any id rows (some k) = has_id id rows k

-- Every foreign key of these tables refers to a row.
pub record AreLinked (t : ProjectTables) : Type 0 where
  pub services :
      All
        (λ (s : Service). has_id (λ (p : Project). p.id) t.projects s.project_id ≡ true)
        t.services
  pub sboms :
      All (λ (s : Sbom). has_id (λ (p : Project). p.id) t.projects s.project_id ≡ true) t.sboms
  pub services_of_sboms :
      All
        (λ (s : Sbom). has_id_if_any (λ (r : Service). r.id) t.services s.service_id ≡ true)
        t.sboms
  pub dependencies :
      All (λ (d : Dependency). has_id (λ (s : Sbom). s.id) t.sboms d.sbom_id ≡ true) t.dependencies
  pub findings :
      All (λ (l : Finding). has_id (λ (s : Sbom). s.id) t.sboms l.sbom_id ≡ true) t.findings
  pub acceptances :
      All
        (λ (a : RiskAcceptance). has_id (λ (p : Project). p.id) t.projects a.project_id ≡ true)
        t.acceptances
  pub services_of_acceptances :
      All
        (λ (a : RiskAcceptance).
          has_id_if_any (λ (r : Service). r.id) t.services a.service_id ≡ true)
        t.acceptances
  pub alert_rules :
      All
        (λ (a : AlertRule). has_id (λ (p : Project). p.id) t.projects a.project_id ≡ true)
        t.alert_rules
  pub notifications :
      All
        (λ (n : Notification).
          has_id (λ (a : AlertRule). a.id) t.alert_rules n.alert_rule_id ≡ true)
        t.notifications
  pub snapshots :
      All
        (λ (s : Snapshot). has_id_if_any (λ (p : Project). p.id) t.projects s.project_id ≡ true)
        t.snapshots

module _ {A : Type 0} (id : A → ℕ) (is_dead : A → Bool) where
  -- A row is still there if none of its id is deleted.
  pub has_id-delete_where :
      (rows : List A) (k : ℕ)
      → has_id id rows k ≡ true
      → ((a : A) → Memᴰ a rows → (id a == k) ≡ true → is_dead a ≡ false)
      → has_id id (delete_where is_dead rows) k ≡ true
  has_id-delete_where [] k h stays = h
  has_id-delete_where (a ∷ rows) k h stays = elim (Bool-cases (id a == k)) [
    | inl here ↦ let kept = stays a (Memᴰ.head refl) here in rw kept (rw here refl)
    | inr other ↦
        let rest = has_id-delete_where rows k (rw other at h) (λ b m. stays b (Memᴰ.tail m)) in
        ground arith
  ]

  -- The parent of a row that the cascade passes over is not deleted.
  pub has_id_of_kept :
      (rows : List A) (k : ℕ)
      → has_id id rows k ≡ true
      → contains (map id (filter is_dead rows)) k ≡ false
      → has_id id (delete_where is_dead rows) k ≡ true
  has_id_of_kept rows k h kept = has_id-delete_where rows k h (λ a m e.
      elim (Bool-cases (is_dead a)) [
        | inr alive ↦ alive
        | inl dead ↦
            let among =
              contains-map_of_mem id (filter is_dead rows) (mem-filter is_dead rows m dead) in
            let same : id a ≡ k = (nat_beq_iff (id a) k).0 e in cc (among, kept, same)
      ])

  pub has_id_if_any_of_kept :
      (rows : List A) (o : Option ℕ)
      → has_id_if_any id rows o ≡ true
      → is_in (map id (filter is_dead rows)) o ≡ false
      → has_id_if_any id (delete_where is_dead rows) o ≡ true
  has_id_if_any_of_kept rows none h kept = refl
  has_id_if_any_of_kept rows (some k) h kept = has_id_of_kept rows k h kept

pub or_false : (b c : Bool) → (b || c) ≡ false → (b ≡ false) × (c ≡ false)
or_false true c h = cc
or_false false c h = (refl, h)

-- The rows of a table that refer to kept rows still do after the others are deleted.
pub All-kept :
    {A : Type 0} (P Q : A → Type 0) (is_dead : A → Bool) (rows : List A)
    → All P rows
    → ((a : A) → P a → is_dead a ≡ false → Q a)
    → All Q (delete_where is_dead rows)
All-kept P Q is_dead rows all step =
    All-delete_where is_dead Q rows (λ a m e. step a (All-get P rows all m) e)
