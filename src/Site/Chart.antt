-- ===== src/Site/Chart.antt =====
-- The dashboard beside the snapshots: the cards show what the snapshot of the day counts, and the
-- chart ends with it.
use argus_sbomguard.Common.{
  ℕ, suc, ◌≤◌, none, some, Bool, true, false, not, ◌&&◌, List, [], ◌∷◌, filter, any, map, take,
  last, length, ltb, ◌==◌, nat_eq, ◌≡◌, refl, sym, ap, ◌∙◌, arith, All, All-get, All-append,
  All-update_where, Bool-cases, Option-cases, inl, inr, ==_refl, Memᴰ, mem-filter,
  mem_of_mem-filter, Text,
}
use mathlib.Core.Path.{subst}
use mathlib.Core.List.{reverse, reverse_aux}
use argus_sbomguard.Models.{Vulnerability, Severity, Finding, Snapshot, is_open}
use argus_sbomguard.Snapshots.{
  MetricTables, counts_for, counted, count_of, has_severity, metrics, is_fixed_finding,
  is_row_of_day, distinct_ids, upsert_snapshot,
}
use argus_sbomguard.Snapshots.Daily.{upsert_snapshot-row}
use argus_sbomguard.Mcp.Paging.{order_by}
use argus_sbomguard.Mcp.Listing.{is_platform_wide}
use argus_sbomguard.Mcp.Posture.{open_now}
use argus_sbomguard.Queries.Order.{IsOrder, IsSorted, order_by-IsSorted}
use argus_sbomguard.Queries.Members.{mem-order_by, mem_of-order_by}
use argus_sbomguard.Site.Dashboard.{DashboardTables, dashboard, snap_rows, posture_of}

module _ (t : MetricTables) (today : ℕ) where
  -- Every fixed finding has been so by today.
  abbrev pub IsFixedByToday : Finding → Type 0
  IsFixedByToday l = is_fixed_finding today l ≡ not (is_open l.status)

  -- A count by severity is of vulnerabilities that have one.
  count_of-filter :
      (s : Severity) (live : Vulnerability → Bool) (vulns : List Vulnerability)
      → count_of s (filter (λ v. has_severity v && live v) vulns) ≡ count_of s (filter live vulns)
  count_of-filter s live [] = refl
  count_of-filter s live (v ∷ vulns) = elim (Option-cases v.severity) [
    | inl absent ↦ ground (arith, count_of-filter s live vulns)
    | inr (r, e) ↦ ground (arith, count_of-filter s live vulns)
  ]

  count_of-counted :
      (s : Severity) → count_of s (counted t today today) ≡ count_of s (open_now (posture_of t))
  unfolding counted counts_for open_now
  count_of-counted s = rw (==_refl today) (count_of-filter s _ t.vulnerabilities)

  fixed-counted :
      All IsFixedByToday t.findings
      → filter (is_fixed_finding today) t.findings ≡ filter (λ l. not (is_open l.status)) t.findings
  fixed-counted h = among t.findings h
    where
      among :
          (links : List Finding)
          → All IsFixedByToday links
          → filter (is_fixed_finding today) links ≡ filter (λ l. not (is_open l.status)) links
      among [] h = refl
      among (l ∷ links) h = rw (h.0, among links h.1) refl

-- If every fixed finding was fixed by today, the cards of the dashboard show the counts that the
-- snapshot of today has, for each severity and for what is fixed.
pub dashboard-metrics :
    (strftime : ℕ → Text) (retention_days today : ℕ) (t : DashboardTables)
    → All (IsFixedByToday t.metric today) t.metric.findings
    → ((dashboard strftime retention_days t).critical
        ≡ (metrics t.metric today today).critical_count)
      × ((dashboard strftime retention_days t).high ≡ (metrics t.metric today today).high_count)
      × ((dashboard strftime retention_days t).medium ≡ (metrics t.metric today today).medium_count)
      × ((dashboard strftime retention_days t).low ≡ (metrics t.metric today today).low_count)
      × ((dashboard strftime retention_days t).fixed_count
          ≡ (metrics t.metric today today).fixed_count)
unfolding dashboard metrics
dashboard-metrics strftime retention_days today t h = (
  sym (count_of-counted t.metric today Severity.critical),
  sym (count_of-counted t.metric today Severity.high),
  sym (count_of-counted t.metric today Severity.medium),
  sym (count_of-counted t.metric today Severity.low),
  ap (λ l. length (distinct_ids l)) (sym (fixed-counted t.metric today h)),
)

abbrev by_date : Snapshot → Snapshot → Bool
by_date a b = ltb b.snapshot_date a.snapshot_date

by_date-IsOrder : IsOrder by_date
by_date-IsOrder = record { asymm = λ a b h. ground arith; behind = λ a b c h k. ground arith }

mem-one {ℓ} : {A : Type ℓ} {x y : A} → Memᴰ x (y ∷ []) → x ≡ y
mem-one (Memᴰ.head e) = e
mem-one (Memᴰ.tail m) = elim m [ ]

last-cons {ℓ} : {A : Type ℓ} (y x : A) (l : List A) → last l ≡ some x → last (y ∷ l) ≡ some x
last-cons y x [] h = cc
last-cons y x (z ∷ l) h = h

last-reverse_aux {ℓ} :
    {A : Type ℓ} (x : A) (l k : List A) → last k ≡ some x → last (reverse_aux l k) ≡ some x
last-reverse_aux x [] k h = h
last-reverse_aux x (y ∷ l) k h = last-reverse_aux x l (y ∷ k) (last-cons y x k h)

last-reverse {ℓ} : {A : Type ℓ} (x : A) (xs : List A) → last (reverse (x ∷ xs)) ≡ some x
last-reverse x xs = last-reverse_aux x xs (x ∷ []) refl

last-map {ℓ κ} :
    {A : Type ℓ} {B : Type κ} (f : A → B) (xs : List A) (x : A)
    → last xs ≡ some x
    → last (map f xs) ≡ some (f x)
last-map f [] x h = cc
last-map f (y ∷ []) x h = cc
last-map f (y ∷ z ∷ xs) x h = last-map f (z ∷ xs) x h

-- The newest row is the last that is shown.
last-snap_rows :
    (row : Snapshot) (snapshots : List Snapshot) (n : ℕ)
    → row.project_id ≡ none
    → filter (is_row_of_day row.snapshot_date) snapshots ≡ row ∷ []
    → All (λ s. s.snapshot_date ≤ row.snapshot_date) snapshots
    → last (snap_rows (suc n) snapshots) ≡ some row
unfolding snap_rows
last-snap_rows row snapshots n wide only past =
    from (order_by by_date rows) refl (order_by-IsSorted by_date by_date-IsOrder rows)
      (mem-order_by by_date rows (mem-filter is_platform_wide snapshots member (rw wide refl)))
  where
    rows : List Snapshot
    rows = filter is_platform_wide snapshots

    member : Memᴰ row snapshots
    member =
        (mem_of_mem-filter (is_row_of_day row.snapshot_date) snapshots
          (subst (Memᴰ row) (sym only) (Memᴰ.head refl))).0

    first : (x : Snapshot) (xs : List Snapshot) → order_by by_date rows ≡ x ∷ xs → Memᴰ x rows
    first x xs e = mem_of-order_by by_date rows (subst (Memᴰ x) (sym e) (Memᴰ.head refl))

    -- A row that is not older is the row of the day.
    alone : (x : Snapshot) → Memᴰ x rows → by_date row x ≡ false → x ≡ row
    alone x m h =
        let (listed, is_wide) = mem_of_mem-filter is_platform_wide snapshots m in
        let old : x.snapshot_date ≤ row.snapshot_date = All-get _ snapshots past listed in
        let same : (x.snapshot_date == row.snapshot_date) ≡ true = ground arith in
        mem-one (
          subst (Memᴰ x) only
            (mem-filter (is_row_of_day row.snapshot_date) snapshots listed (ground arith)))

    from :
        (l : List Snapshot)
        → order_by by_date rows ≡ l
        → IsSorted by_date l
        → Memᴰ row l
        → last (reverse (take (suc n) l)) ≡ some row
    from [] e s m = elim m [ ]
    from (x ∷ xs) e s (Memᴰ.head same) = last-reverse x (take n xs) ∙ ap some (sym same)
    from (x ∷ xs) e s (Memᴰ.tail m) =
        last-reverse x (take n xs) ∙ ap some (alone x (first x xs e) (All-get _ xs s.0 m))

-- The dashboard right after the snapshot of today was taken.
abbrev pub after_snapshot : ℕ → DashboardTables → DashboardTables
after_snapshot today t = record t {
  snapshots = upsert_snapshot (metrics t.metric today today) t.snapshots;
}

upsert_snapshot-past :
    (row : Snapshot) (snapshots : List Snapshot)
    → All (λ s. s.snapshot_date ≤ row.snapshot_date) snapshots
    → All (λ s. s.snapshot_date ≤ row.snapshot_date) (upsert_snapshot row snapshots)
unfolding upsert_snapshot
upsert_snapshot-past row snapshots h =
    elim (Bool-cases (any (is_row_of_day row.snapshot_date) snapshots)) [
      | inl t ↦ rw t (
          All-update_where (λ s. s.snapshot_date ≤ row.snapshot_date)
            (is_row_of_day row.snapshot_date) (λ s. row) (λ s _ _. omega arith) snapshots h)
      | inr f ↦ rw f (
          All-append (λ s. s.snapshot_date ≤ row.snapshot_date) snapshots (row ∷ []) h
            (omega arith, tt))
    ]

-- After the snapshot of today, with no row of a later day, at most one of today and every fixed
-- finding fixed by today, each line of the chart ends with the count that its card shows.
pub dashboard-chart :
    (strftime : ℕ → Text) (n today : ℕ) (t : DashboardTables)
    → All (IsFixedByToday t.metric today) t.metric.findings
    → All (λ s. s.snapshot_date ≤ today) t.snapshots
    → length (filter (is_row_of_day today) t.snapshots) ≤ 1
    → (last (dashboard strftime (suc n) (after_snapshot today t)).chart_critical
        ≡ some (dashboard strftime (suc n) (after_snapshot today t)).critical)
      × (last (dashboard strftime (suc n) (after_snapshot today t)).chart_high
          ≡ some (dashboard strftime (suc n) (after_snapshot today t)).high)
      × (last (dashboard strftime (suc n) (after_snapshot today t)).chart_medium
          ≡ some (dashboard strftime (suc n) (after_snapshot today t)).medium)
      × (last (dashboard strftime (suc n) (after_snapshot today t)).chart_low
          ≡ some (dashboard strftime (suc n) (after_snapshot today t)).low)
      × (last (dashboard strftime (suc n) (after_snapshot today t)).chart_fixed
          ≡ some (dashboard strftime (suc n) (after_snapshot today t)).fixed_count)
unfolding dashboard metrics
dashboard-chart strftime n today t fixed past once =
    let row = metrics t.metric today today in
    let rows = snap_rows (suc n) (upsert_snapshot row t.snapshots) in
    let newest : last rows ≡ some row =
      last-snap_rows row (upsert_snapshot row t.snapshots) n refl
        (upsert_snapshot-row today today t.metric t.snapshots once).0
        (upsert_snapshot-past row t.snapshots past) in
    let cards = dashboard-metrics strftime (suc n) today (after_snapshot today t) fixed in
    (
      last-map (λ s. s.critical_count) rows row newest ∙ ap some (sym cards.0),
      last-map (λ s. s.high_count) rows row newest ∙ ap some (sym cards.1),
      last-map (λ s. s.medium_count) rows row newest ∙ ap some (sym cards.2),
      last-map (λ s. s.low_count) rows row newest ∙ ap some (sym cards.3),
      last-map (λ s. s.fixed_count) rows row newest ∙ ap some (sym cards.4),
    )
