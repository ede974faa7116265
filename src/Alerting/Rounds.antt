-- ===== src/Alerting/Rounds.antt =====
-- The loops of `do_check_alerts`: an invariant of each visit is one of the round.
use argus_sbomguard.Common.{
  ℕ, some, false, List, [], ◌∷◌, ◌==◌, nat_eq, ltb, ◌≡◌, refl, ◌⊎◌, inl, inr, Memᴰ, Outcome, return,
  raise, >>=-eq-return, key_error, value_error, Bool, true, not, ◌&&◌, map, if◌then◌else◌,
  Bool-cases, Option-cases, nat_beq_iff, find-holds,
}
use argus_sbomguard.Models.{AlertRule, Vulnerability, threshold_value}
use argus_sbomguard.Notifications.{Network}
use argus_sbomguard.Alerting.{
  AlertSettings, AlertTables, Progress, OpenRow, severity_rank, severity_of, services_of_pair,
  vulnerability_of, visit, visit_or_raise, deliver_raises, project_name_of, service_name_of,
  delivery_action, is_quiet, existing_of, check_pair, check_pairs, check_each,
}

-- The alert's threshold does not exclude the vulnerability.
abbrev pub Reaches : AlertRule → Vulnerability → Type 0
Reaches alert v =
    ltb (severity_rank (some (threshold_value alert.severity_threshold)))
      (severity_rank (severity_of v))
    ≡ false

module _ (settings : AlertSettings) (network : Network) (tables : AlertTables)
    (rows : List OpenRow) where
  -- The pair is of the alert's project, and its vulnerability is severe enough.
  pub record Concerns (alert : AlertRule) (pair : ℕ × ℕ) (v : Vulnerability) : Type 0 where
    pub same_vulnerability : v.id ≡ pair.1
    pub same_project : pair.0 ≡ alert.project_id
    pub reaches : Reaches alert v

  abbrev pub step_of : AlertRule → ℕ × ℕ → Progress → Outcome Progress
  step_of = check_pair settings network tables rows

  abbrev pub visit_of : AlertRule → ℕ × ℕ → Vulnerability → Progress → Progress
  visit_of alert pair v =
      visit settings network tables alert v (services_of_pair pair.0 pair.1 rows)

  -- The decision for the pair is to do nothing.
  abbrev pub IsQuietAt : AlertRule → ℕ × ℕ → Vulnerability → Progress → Type 0
  IsQuietAt alert pair v q =
      is_quiet (
        delivery_action (existing_of v.id alert.id q.notifications)
          (services_of_pair pair.0 pair.1 rows))
      ≡ true

  -- The pair is visited, or its message raises.
  abbrev pub Visits : AlertRule → ℕ × ℕ → Vulnerability → Type 0
  Visits alert pair v =
      (q : Progress)
      → (step_of alert pair q ≡ return (visit_of alert pair v q))
        ⊎ ((step_of alert pair q ≡ raise value_error) × ¬ IsQuietAt alert pair v q)

  pub visit_or_raise-cases :
      (alert : AlertRule) (v : Vulnerability) (services : List ℕ) (q : Progress)
      → (visit_or_raise settings network tables alert v services q
          ≡ return (visit settings network tables alert v services q))
        ⊎ ((visit_or_raise settings network tables alert v services q ≡ raise value_error)
            × ¬ (
                is_quiet (delivery_action (existing_of v.id alert.id q.notifications) services)
                ≡ true))
  unfolding visit_or_raise
  visit_or_raise-cases alert v services q =
      from (is_quiet (delivery_action (existing_of v.id alert.id q.notifications) services)) (
        deliver_raises settings alert v (project_name_of tables.projects alert.project_id)
          (map (service_name_of tables.services) services))
    where
      from :
          (quiet raises : Bool)
          → ((if not quiet && raises
                then raise value_error
                else return (visit settings network tables alert v services q))
              ≡ return (visit settings network tables alert v services q))
            ⊎ ((◌≡◌ {A = Outcome Progress}
                  (if not quiet && raises
                    then raise value_error
                    else return (visit settings network tables alert v services q))
                  (raise value_error))
                × ¬ (quiet ≡ true))
      from true raises = inl refl
      from false false = inl refl
      from false true = inr (refl, λ h. cc)

  -- A pair is passed over, or ends the round by an exception, or is visited, whatever the progress.
  pub check_pair-cases :
      (alert : AlertRule) (pair : ℕ × ℕ)
      → ((q : Progress) → step_of alert pair q ≡ return q)
        ⊎ (((q : Progress) → step_of alert pair q ≡ raise key_error)
            ⊎ ((v : Vulnerability) × Concerns alert pair v × Visits alert pair v))
  unfolding check_pair
  check_pair-cases alert (project, vuln) = elim (Bool-cases (project == alert.project_id)) [
    | inr other ↦ inl (λ q. rw other)
    | inl same ↦ elim (Option-cases (vulnerability_of settings network tables vuln)) [
      | inl absent ↦ inr (inl (λ q. rw (same, absent)))
      | inr (v, found) ↦
          elim (Bool-cases (
            ltb (severity_rank (some (threshold_value alert.severity_threshold)))
              (severity_rank (severity_of v)))) [
                | inl minor ↦ inl (λ q. rw (same, found, minor))
                | inr severe ↦ inr (
                    inr (
                      v,
                      record {
                        same_vulnerability =
                            (nat_beq_iff v.id vuln).0
                              (find-holds (λ w. w.id == vuln) tables.vulnerabilities v found);
                        same_project = (nat_beq_iff project alert.project_id).0 same;
                        reaches = severe;
                      },
                      λ q.
                          rw (same, found, severe)
                            (visit_or_raise-cases alert v (services_of_pair project vuln rows) q),
                    ))
              ]
    ]
  ]

  module _ (P : Progress → Type 0) (all_alerts : List AlertRule) (all_pairs : List (ℕ × ℕ))
      (keep : (alert : AlertRule) (pair : ℕ × ℕ) (v : Vulnerability) (q : Progress)
        → Memᴰ alert all_alerts
        → Memᴰ pair all_pairs
        → Concerns alert pair v
        → P q
        → P (visit_of alert pair v q)) where
    check_pair-inv :
        (alert : AlertRule) (pair : ℕ × ℕ) (q r : Progress)
        → Memᴰ alert all_alerts
        → Memᴰ pair all_pairs
        → step_of alert pair q ≡ return r
        → P q
        → P r
    check_pair-inv alert pair q r ma mp e h = elim (check_pair-cases alert pair) [
      | inl passed ↦ rw (← same (passed q)) h
      | inr (inl raised) ↦ cc (raised q)
      | inr (inr (v, c, visited)) ↦ elim (visited q) [
        | inl made ↦ rw (← same made) (keep alert pair v q ma mp c h)
        | inr (raised, loud) ↦ cc raised
      ]
    ]
      where
        same : {s : Progress} → step_of alert pair q ≡ return s → s ≡ r
        same e' = cc

    pub check_pairs-inv :
        (alert : AlertRule) (pairs : List (ℕ × ℕ)) (q r : Progress)
        → Memᴰ alert all_alerts
        → ((pair : ℕ × ℕ) → Memᴰ pair pairs → Memᴰ pair all_pairs)
        → check_pairs settings network tables rows alert pairs q ≡ return r
        → P q
        → P r
    unfolding check_pairs
    check_pairs-inv alert [] q r ma mp e h = let e' : q ≡ r = cc in rw (← e') h
    check_pairs-inv alert (pair ∷ pairs) q r ma mp e h =
        let (s, first, rest) =
          >>=-eq-return (step_of alert pair q)
            (check_pairs settings network tables rows alert pairs) e in
        check_pairs-inv alert pairs s r ma (λ x m. mp x (Memᴰ.tail m)) rest
          (check_pair-inv alert pair q s ma (mp pair (Memᴰ.head refl)) first h)

    pub check_each-inv_from :
        (alerts : List AlertRule) (q r : Progress)
        → ((alert : AlertRule) → Memᴰ alert alerts → Memᴰ alert all_alerts)
        → check_each settings network tables rows all_pairs alerts q ≡ return r
        → P q
        → P r
    unfolding check_each
    check_each-inv_from [] q r ma e h = let e' : q ≡ r = cc in rw (← e') h
    check_each-inv_from (alert ∷ alerts) q r ma e h =
        let (s, first, rest) =
          >>=-eq-return (check_pairs settings network tables rows alert all_pairs q)
            (check_each settings network tables rows all_pairs alerts) e in
        check_each-inv_from alerts s r (λ x m. ma x (Memᴰ.tail m)) rest
          (check_pairs-inv alert all_pairs q s (ma alert (Memᴰ.head refl)) (λ x m. m) first h)

    pub check_each-inv :
        (q r : Progress)
        → check_each settings network tables rows all_pairs all_alerts q ≡ return r
        → P q
        → P r
    check_each-inv q r = check_each-inv_from all_alerts q r (λ x m. m)
