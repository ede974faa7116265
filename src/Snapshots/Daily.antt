-- ===== src/Snapshots/Daily.antt =====
-- The row of a day, what it counts, and that alerting and snapshots agree on what is open.
use argus_sbomguard.Common.{
  ℕ, ◌+◌, suc, Option, none, some, Bool, true, false, not, ◌&&◌, ◌||◌, List, [], ◌∷◌, ◌++◌, filter,
  any, map, length, contains, update_where, ◌==◌, nat_eq, ◌≡◌, ◌≤◌, refl, ap, ◌∙◌, arith, inl, inr,
  ==_refl, All, Bool-cases, Option-cases, filter-append, filter-congr, filter-update_where_apart,
}
use mathlib.Core.List.{append-nil}
use argus_sbomguard.Models.{
  Vulnerability, Severity, critical, high, medium, low, unknown, Finding, Sbom, Snapshot,
}
use argus_sbomguard.Alerting.{OpenRow, row_of, sbom_of, is_actionable, open_rows}
use argus_sbomguard.Snapshots.{
  MetricTables, counts_for, counted, count_of, joined, has_severity, metrics, is_row_of_day,
  upsert_snapshot,
}

-- The rows of a day after the upsert, for a table that has at most one.
filter-upsert :
    (row : Snapshot) (snapshots : List Snapshot)
    → is_row_of_day row.snapshot_date row ≡ true
    → length (filter (is_row_of_day row.snapshot_date) snapshots) ≤ 1
    → filter (is_row_of_day row.snapshot_date) (upsert_snapshot row snapshots) ≡ row ∷ []
unfolding upsert_snapshot
filter-upsert row snapshots own h =
    elim (Bool-cases (any (is_row_of_day row.snapshot_date) snapshots)) [
      | inl there ↦ rw there (replaced snapshots there h)
      | inr absent ↦
          rw
            (
              absent,
              filter-append (is_row_of_day row.snapshot_date) snapshots (row ∷ []),
              own,
              empty snapshots absent,
            )
            refl
    ]
  where
    empty :
        (l : List Snapshot)
        → any (is_row_of_day row.snapshot_date) l ≡ false
        → filter (is_row_of_day row.snapshot_date) l ≡ []
    empty [] e = refl
    empty (s ∷ l) e = ground (arith, empty l)

    replaced :
        (l : List Snapshot)
        → any (is_row_of_day row.snapshot_date) l ≡ true
        → length (filter (is_row_of_day row.snapshot_date) l) ≤ 1
        → filter
            (is_row_of_day row.snapshot_date)
            (update_where (is_row_of_day row.snapshot_date) (λ s. row) l)
          ≡ row ∷ []
    replaced [] e h = cc
    replaced (s ∷ l) e h = elim (Bool-cases (is_row_of_day row.snapshot_date s)) [
      | inr other ↦ rw (other, other) (replaced l (ground arith) (ground arith))
      | inl hit ↦ rw (hit, own) (ap (◌∷◌ row) (rest l (ground arith)))
    ]
      where
        rest :
            (l : List Snapshot)
            → length (filter (is_row_of_day row.snapshot_date) l) ≤ 0
            → filter
                (is_row_of_day row.snapshot_date)
                (update_where (is_row_of_day row.snapshot_date) (λ s. row) l)
              ≡ []
        rest [] h = refl
        rest (s ∷ l) h = elim (Bool-cases (is_row_of_day row.snapshot_date s)) [
          | inl hit ↦ absurd (ground arith)
          | inr other ↦ rw (other, other) (rest l (ground arith))
        ]

filter-upsert_other :
    (row : Snapshot) (snapshots : List Snapshot)
    → is_row_of_day row.snapshot_date row ≡ true
    → filter (λ s. not (is_row_of_day row.snapshot_date s)) (upsert_snapshot row snapshots)
      ≡ filter (λ s. not (is_row_of_day row.snapshot_date s)) snapshots
unfolding upsert_snapshot
filter-upsert_other row snapshots own =
    elim (Bool-cases (any (is_row_of_day row.snapshot_date) snapshots)) [
      | inl there ↦ rw there (
          filter-update_where_apart (λ s. not (is_row_of_day row.snapshot_date s))
            (is_row_of_day row.snapshot_date) (λ s. row) (λ s hit. (rw hit refl, rw own refl))
            snapshots)
      | inr absent ↦
          rw
            (
              absent,
              filter-append (λ s. not (is_row_of_day row.snapshot_date s)) snapshots (row ∷ []),
              own,
            )
            (append-nil (filter (λ s. not (is_row_of_day row.snapshot_date s)) snapshots))
    ]

module _ (today d : ℕ) (t : MetricTables) (snapshots : List Snapshot) where
  own_day : is_row_of_day d (metrics t today d) ≡ true
  unfolding metrics
  own_day = rw (==_refl d) refl

  same_day : (metrics t today d).snapshot_date ≡ d
  unfolding metrics
  same_day = refl

  -- If a day has at most one platform-wide row, it has exactly one after the upsert, with the counts
  -- of the run, and every other row is as it was: a second run for the day replaces the first.
  pub upsert_snapshot-row :
      length (filter (is_row_of_day d) snapshots) ≤ 1
      → (filter (is_row_of_day d) (upsert_snapshot (metrics t today d) snapshots)
          ≡ metrics t today d ∷ [])
        × (filter (λ s. not (is_row_of_day d s)) (upsert_snapshot (metrics t today d) snapshots)
            ≡ filter (λ s. not (is_row_of_day d s)) snapshots)
  unfolding metrics
  upsert_snapshot-row h = (
    filter-upsert (metrics t today d) snapshots own_day h,
    filter-upsert_other (metrics t today d) snapshots own_day,
  )

count_split :
    (vulns : List Vulnerability)
    → All (λ v. has_severity v ≡ true) vulns
    → count_of Severity.critical vulns
        + (count_of Severity.high vulns
            + (count_of Severity.medium vulns
                + (count_of Severity.low vulns + count_of Severity.unknown vulns)))
      ≡ length vulns
count_split [] h = omega arith
count_split (v ∷ vulns) (h, hs) = elim (Option-cases v.severity) [
  | inl absent ↦ ground arith
  | inr (s, e) ↦ one s e (count_split vulns hs)
]
  where
    one :
        (s : Severity)
        → v.severity ≡ some s
        → count_of Severity.critical vulns
            + (count_of Severity.high vulns
                + (count_of Severity.medium vulns
                    + (count_of Severity.low vulns + count_of Severity.unknown vulns)))
          ≡ length vulns
        → count_of Severity.critical (v ∷ vulns)
            + (count_of Severity.high (v ∷ vulns)
                + (count_of Severity.medium (v ∷ vulns)
                    + (count_of Severity.low (v ∷ vulns) + count_of Severity.unknown (v ∷ vulns))))
          ≡ suc (length vulns)
    one critical e ih = rw e (omega arith)
    one high e ih = rw e (omega arith)
    one medium e ih = rw e (omega arith)
    one low e ih = rw e (omega arith)
    one unknown e ih = rw e (omega arith)

All-filter_of :
    {A : Type 0} (p q : A → Bool) (l : List A)
    → ((a : A) → p a ≡ true → q a ≡ true)
    → All (λ a. q a ≡ true) (filter p l)
All-filter_of p q [] h = tt
All-filter_of p q (a ∷ l) h = elim (Bool-cases (p a)) [
  | inl yes_a ↦ rw yes_a (h a yes_a, All-filter_of p q l h)
  | inr no_a ↦ rw no_a (All-filter_of p q l h)
]

-- The vulnerabilities with a severity that alerting sees as open in some project.
abbrev pub open_vulnerabilities : MetricTables → List Vulnerability
open_vulnerabilities t =
    filter
      (λ v.
        has_severity v
        && contains (map (λ row. row.0) (open_rows t.sboms t.acceptances t.findings)) v.id)
      t.vulnerabilities

module _ (t : MetricTables) (today : ℕ) where
  contains-row_of :
      (k : ℕ) (l : Finding) (o : Option Sbom) (rows : List OpenRow)
      → ((l.vulnerability_id == k && joined (is_actionable t.sboms t.acceptances) l o)
          || contains (map (λ row. row.0) rows) k)
        ≡ contains (map (λ row. row.0) (row_of t.sboms t.acceptances l o ++ rows)) k
  contains-row_of k l none rows = elim (Bool-cases (l.vulnerability_id == k)) [
    | inl hit ↦ rw hit refl
    | inr miss ↦ rw miss refl
  ]
  contains-row_of k l (some s) rows = elim (Bool-cases (is_actionable t.sboms t.acceptances l s)) [
    | inl live ↦ rw live (and_true (l.vulnerability_id == k) _)
    | inr done ↦ rw done (and_false (l.vulnerability_id == k) _)
  ]
    where
      and_true : (b c : Bool) → (b && true || c) ≡ (b || c)
      and_true true c = refl
      and_true false c = refl

      and_false : (b c : Bool) → (b && false || c) ≡ c
      and_false true c = refl
      and_false false c = refl

  -- A finding counts today exactly if alerting sees it as open.
  counts-eq-open_rows :
      (k : ℕ) (links : List Finding)
      → any (λ l. l.vulnerability_id == k && counts_for t today today l) links
        ≡ contains (map (λ row. row.0) (open_rows t.sboms t.acceptances links)) k
  unfolding counts_for open_rows
  counts-eq-open_rows k [] = refl
  counts-eq-open_rows k (l ∷ links) = rw (==_refl today) (
      ap
        (◌||◌ (
          l.vulnerability_id == k
          && joined (is_actionable t.sboms t.acceptances) l (sbom_of t.sboms t.acceptances l)))
        (counts-eq-open_rows k links)
      ∙ contains-row_of k l (sbom_of t.sboms t.acceptances l)
          (open_rows t.sboms t.acceptances links))

  -- The counts of today's row and the vulnerabilities of unknown severity add up to the number of
  -- vulnerabilities with a severity that alerting sees as open: each is counted once.
  pub metrics-count :
      (metrics t today today).critical_count
        + ((metrics t today today).high_count
            + ((metrics t today today).medium_count
                + ((metrics t today today).low_count
                    + count_of Severity.unknown (open_vulnerabilities t))))
      ≡ length (open_vulnerabilities t)
  unfolding metrics
  metrics-count = rw counted-eq-open (
      count_split (open_vulnerabilities t)
        (All-filter_of _ has_severity t.vulnerabilities (λ v h. ground arith)))
    where
      counted-eq-open : counted t today today ≡ open_vulnerabilities t
      counted-eq-open =
          filter-congr _ _
            (λ v. ap (λ b. has_severity v && b) (counts-eq-open_rows v.id t.findings))
            t.vulnerabilities
