-- ===== src/Retention.antt =====
-- services/retention.py: what is pruned. A date counts days, and an instant microseconds.
pub mod Kept
use argus_sbomguard.Common.{
  ℕ, suc, ◌-◌, ◌*◌, Option, none, some, Bool, true, false, ◌&&◌, List, map, filter, delete_where,
  contains, ltb, ◌==◌, nat_eq,
}
use argus_sbomguard.Models.{Sbom, Dependency, Finding, Snapshot}
use argus_sbomguard.Scanning.{row_number}

-- The tables that are pruned.
pub record Archive : Type 0 where
  pub snapshots : List Snapshot
  pub sboms : List Sbom
  pub dependencies : List Dependency
  pub findings : List Finding

abbrev is_none : Option ℕ → Bool
is_none none = true
is_none (some k) = false

abbrev pub is_expired_snapshot : ℕ → Snapshot → Bool
is_expired_snapshot cutoff s = ltb s.snapshot_date cutoff && is_none s.project_id

-- `today - timedelta(days=snapshot_retention_days - 1)`
unfoldable pub prune_snapshots : ℕ → ℕ → Archive → Archive
prune_snapshots today snapshot_retention_days a = record a {
  snapshots =
      delete_where (is_expired_snapshot (today - (snapshot_retention_days - 1))) a.snapshots;
}

abbrev pub microseconds_per_day : ℕ
microseconds_per_day = 86_400_000_000

-- The start of the day so many days before `today`.
abbrev pub sbom_cutoff : ℕ → ℕ → ℕ
sbom_cutoff today days = (today - days) * microseconds_per_day

abbrev pub is_expired : ℕ → List Sbom → Sbom → Bool
is_expired cutoff sboms s = ltb 1 (row_number sboms s) && ltb s.created_at cutoff

unfoldable pub expired_ids : ℕ → List Sbom → List ℕ
expired_ids cutoff sboms = map (λ s. s.id) (filter (is_expired cutoff sboms) sboms)

-- The three deletes. The query of the expired ids is the same for each, since the SBOMs go last.
unfoldable pub delete_expired : ℕ → Archive → Archive
delete_expired cutoff a = record a {
  findings = delete_where (λ l. contains (expired_ids cutoff a.sboms) l.sbom_id) a.findings;
  dependencies = delete_where (λ d. contains (expired_ids cutoff a.sboms) d.sbom_id) a.dependencies;
  sboms = delete_where (λ s. contains (expired_ids cutoff a.sboms) s.id) a.sboms;
}

unfoldable pub prune_sboms : ℕ → Option ℕ → Archive → Archive
unfolding delete_expired
prune_sboms today none a = a
prune_sboms today (some days) a = delete_expired (sbom_cutoff today days) a

unfoldable pub do_prune_old_data : ℕ → ℕ → Option ℕ → Archive → Archive
unfolding prune_snapshots prune_sboms
do_prune_old_data today snapshot_days sbom_days a =
    prune_sboms today sbom_days (prune_snapshots today snapshot_days a)
