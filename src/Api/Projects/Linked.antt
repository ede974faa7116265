-- ===== src/Api/Projects/Linked.antt =====
-- Deleting a project or a service leaves no row that refers to a missing one.
use argus_sbomguard.Common.{
  ℕ, Option, none, some, true, false, ◌||◌, List, [], ◌∷◌, filter, find, length, contains, ltb,
  ◌==◌, nat_eq, option_eq, ◌≡◌, ◌⊎◌, refl, arith, inl, inr, All-get, Memᴰ, Bool-cases, nat_beq_iff,
  All-of_mem, mem-filter,
}
use argus_sbomguard.Common.Reply.{ok, >>=-eq-ok, found_or, refuse_if->>-eq-ok}
use argus_sbomguard.Models.{Project, Service, Sbom}
use argus_sbomguard.Api.Projects.{
  ProjectTables, is_service_in, is_in, ids_of_services, is_sbom_in, ids_of_sboms, is_rule_in,
  ids_of_rules, without_project, without_service, delete_project, delete_service,
}
use argus_sbomguard.Api.Projects.Links.{
  has_id, has_id_if_any, AreLinked, has_id-delete_where, has_id_of_kept, has_id_if_any_of_kept,
  or_false, All-kept,
}

module _ (k : ℕ) (t : ProjectTables) where
  project_stays :
      (j : ℕ)
      → has_id (λ (p : Project). p.id) t.projects j ≡ true
      → (j == k) ≡ false
      → has_id (λ (p : Project). p.id) (without_project k t).projects j ≡ true
  project_stays j h other =
      has_id-delete_where (λ p. p.id) (λ p. p.id == k) t.projects j h
        (λ p m e. let same : p.id ≡ j = (nat_beq_iff p.id j).0 e in rw same other)

  project_of_snapshot_stays :
      (o : Option ℕ)
      → has_id_if_any (λ (p : Project). p.id) t.projects o ≡ true
      → option_eq.beq o (some k) ≡ false
      → has_id_if_any (λ (p : Project). p.id) (without_project k t).projects o ≡ true
  project_of_snapshot_stays none h other = refl
  project_of_snapshot_stays (some j) h other = project_stays j h other

  service_stays :
      (o : Option ℕ)
      → has_id_if_any (λ (r : Service). r.id) t.services o ≡ true
      → is_in (ids_of_services k t) o ≡ false
      → has_id_if_any (λ (r : Service). r.id) (without_project k t).services o ≡ true
  service_stays = has_id_if_any_of_kept (λ r. r.id) (is_service_in k) t.services

  sbom_stays :
      (j : ℕ)
      → has_id (λ (s : Sbom). s.id) t.sboms j ≡ true
      → contains (ids_of_sboms k t) j ≡ false
      → has_id (λ (s : Sbom). s.id) (without_project k t).sboms j ≡ true
  sbom_stays = has_id_of_kept (λ s. s.id) (is_sbom_in k t) t.sboms

  without_project-AreLinked : AreLinked t → AreLinked (without_project k t)
  without_project-AreLinked l = record {
    services =
        All-kept _ _ (is_service_in k) t.services l.services
          (λ s h e. project_stays s.project_id h e);
    sboms =
        All-kept _ _ (is_sbom_in k t) t.sboms l.sboms
          (λ s h e. project_stays s.project_id h (or_false (s.project_id == k) _ e).0);
    services_of_sboms =
        All-kept _ _ (is_sbom_in k t) t.sboms l.services_of_sboms
          (λ s h e. service_stays s.service_id h (or_false (s.project_id == k) _ e).1);
    dependencies =
        All-kept _ _ (λ d. contains (ids_of_sboms k t) d.sbom_id) t.dependencies l.dependencies
          (λ d h e. sbom_stays d.sbom_id h e);
    findings =
        All-kept _ _ (λ f. contains (ids_of_sboms k t) f.sbom_id) t.findings l.findings
          (λ f h e. sbom_stays f.sbom_id h e);
    acceptances =
        All-kept _ _ (λ a. a.project_id == k || is_in (ids_of_services k t) a.service_id)
          t.acceptances l.acceptances
          (λ a h e. project_stays a.project_id h (or_false (a.project_id == k) _ e).0);
    services_of_acceptances =
        All-kept _ _ (λ a. a.project_id == k || is_in (ids_of_services k t) a.service_id)
          t.acceptances l.services_of_acceptances
          (λ a h e. service_stays a.service_id h (or_false (a.project_id == k) _ e).1);
    alert_rules =
        All-kept _ _ (is_rule_in k) t.alert_rules l.alert_rules
          (λ a h e. project_stays a.project_id h e);
    notifications =
        All-kept _ _ (λ n. contains (ids_of_rules k t) n.alert_rule_id) t.notifications
          l.notifications
          (λ n h e. has_id_of_kept (λ a. a.id) (is_rule_in k) t.alert_rules n.alert_rule_id h e);
    snapshots =
        All-kept _ _ (λ s. option_eq.beq s.project_id (some k)) t.snapshots l.snapshots
          (λ s h e. project_of_snapshot_stays s.project_id h e);
  }

  delete_project-AreLinked :
      (after : ProjectTables) → AreLinked t → delete_project k t ≡ ok after → AreLinked after
  unfolding delete_project
  delete_project-AreLinked after l e =
      let (p, found, same) =
        >>=-eq-ok (found_or (find (λ p. p.id == k) t.projects) 404) (λ p. ok (without_project k t))
          e in
      let same' : without_project k t ≡ after = cc in rw (← same') (without_project-AreLinked l)

  -- No SBOM of a table without SBOMs of the service refers to the service.
  none_of_service :
      (sboms : List Sbom) (s : Sbom)
      → ltb 0 (length (filter (λ s. option_eq.beq s.service_id (some k)) sboms)) ≡ false
      → Memᴰ s sboms
      → option_eq.beq s.service_id (some k) ≡ false
  none_of_service sboms s h m = elim (Bool-cases (option_eq.beq s.service_id (some k))) [
    | inr other ↦ other
    | inl hit ↦ absurd (has_none _ (mem-filter _ sboms m hit) h)
  ]
    where
      has_none : (l : List Sbom) → Memᴰ s l → ¬ (ltb 0 (length l) ≡ false)
      has_none (x ∷ l) m h = ground arith
      has_none [] m h = elim m [ ]

  other_service_stays :
      (o : Option ℕ)
      → has_id_if_any (λ (r : Service). r.id) t.services o ≡ true
      → option_eq.beq o (some k) ≡ false
      → has_id_if_any (λ (r : Service). r.id) (without_service k t).services o ≡ true
  other_service_stays none h other = refl
  other_service_stays (some j) h other =
      has_id-delete_where (λ r. r.id) (λ r. r.id == k) t.services j h
        (λ r m e. let same : r.id ≡ j = (nat_beq_iff r.id j).0 e in rw same other)

  without_service-AreLinked :
      ltb 0 (length (filter (λ s. option_eq.beq s.service_id (some k)) t.sboms)) ≡ false
      → AreLinked t
      → AreLinked (without_service k t)
  without_service-AreLinked unused l = record {
    services = All-kept _ _ (λ s. s.id == k) t.services l.services (λ s h e. h);
    sboms = l.sboms;
    services_of_sboms = All-of_mem _ t.sboms (λ s m.
        other_service_stays s.service_id (All-get _ t.sboms l.services_of_sboms m)
          (none_of_service t.sboms s unused m));
    dependencies = l.dependencies;
    findings = l.findings;
    acceptances =
        All-kept _ _ (λ a. option_eq.beq a.service_id (some k)) t.acceptances l.acceptances
          (λ a h e. h);
    services_of_acceptances =
        All-kept _ _ (λ a. option_eq.beq a.service_id (some k)) t.acceptances
          l.services_of_acceptances (λ a h e. other_service_stays a.service_id h e);
    alert_rules = l.alert_rules;
    notifications = l.notifications;
    snapshots = l.snapshots;
  }

  delete_service-AreLinked :
      (after : ProjectTables) → AreLinked t → delete_service k t ≡ ok after → AreLinked after
  unfolding delete_service
  delete_service-AreLinked after l e =
      let (service, found, e1) = >>=-eq-ok (found_or (find (λ s. s.id == k) t.services) 404) _ e in
      let (unused, e2) =
        refuse_if->>-eq-ok
          (ltb 0 (length (filter (λ s. option_eq.beq s.service_id (some k)) t.sboms))) 409 _ e1 in
      let same : without_service k t ≡ after = cc in
      rw (← same) (without_service-AreLinked unused l)

  -- If every foreign key of the tables refers to a row, then so it is after a project is deleted
  -- with what belongs to it, and after a service is deleted, which an SBOM may not refer to.
  pub delete_either-AreLinked :
      (after : ProjectTables)
      → AreLinked t
      → (delete_project k t ≡ ok after) ⊎ (delete_service k t ≡ ok after)
      → AreLinked after
  delete_either-AreLinked after l (inl e) = delete_project-AreLinked after l e
  delete_either-AreLinked after l (inr e) = delete_service-AreLinked after l e
