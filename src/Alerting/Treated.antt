-- ===== src/Alerting/Treated.antt =====
-- What the loops of a round do to the episode of one pair: at most one step.
use argus_sbomguard.Common.{
  ℕ, Bool, true, false, List, [], ◌∷◌, map, pair_eq, ◌==◌, nat_eq, ◌&&◌, ◌≡◌, ◌≢◌, ◌⊎◌, Memᴰ,
  IsUnique, sym, >>=-eq-return, contains_of_mem, contains-map_of_mem, same_of_key, refl, ap, ◌∙◌,
  arith, Bool-cases, return, inl, inr,
}
use argus_sbomguard.Models.{AlertRule, Vulnerability}
use argus_sbomguard.Notifications.{Network}
use argus_sbomguard.Alerting.{
  AlertSettings, AlertTables, Progress, OpenRow, existing_of, check_pairs, check_each,
  services_of_pair,
}
use argus_sbomguard.Alerting.Rounds.{visit_of, step_of, Concerns, check_pair-cases}
use argus_sbomguard.Alerting.Once.{existing_of-visit_other}
use argus_sbomguard.Alerting.Episode.{Episode, episode_of, advance, GoesOn}
use argus_sbomguard.Alerting.Advance.{visit-advance, arrives}

module _ (settings : AlertSettings) (network : Network) (tables : AlertTables) (rows : List OpenRow)
    (alerts : List AlertRule) (unique : IsUnique (map (λ a. a.id) alerts)) (alert : AlertRule)
    (listed : Memᴰ alert alerts) (w : ℕ) where
  abbrev pub episode : Progress → Episode
  episode p = episode_of (existing_of w alert.id p.notifications)

  same_rule : (other : AlertRule) → Memᴰ other alerts → alert.id ≡ other.id → other ≡ alert
  same_rule other m e = same_of_key (λ (a : AlertRule). a.id) alerts unique m listed (sym e)

  key_ids :
      (other : AlertRule) (v : Vulnerability)
      → (w == v.id && alert.id == other.id) ≡ true
      → (w ≡ v.id) × (alert.id ≡ other.id)
  key_ids other v h = ground arith

  -- A visit of another pair leaves the episode; one of the pair is for the project of the rule, and
  -- is a step for the services of the pair.
  visit-episode :
      (other : AlertRule) (pair : ℕ × ℕ) (v : Vulnerability) (p : Progress)
      → Memᴰ other alerts
      → Concerns settings network tables rows other pair v
      → (episode (visit_of settings network tables rows other pair v p) ≡ episode p)
        ⊎ ((pair ≡ (alert.project_id, w))
            × (other ≡ alert)
            × (success : Bool) × (episode (visit_of settings network tables rows other pair v p)
                ≡ advance (episode p) (services_of_pair alert.project_id w rows) success))
  visit-episode other pair v p m c = elim (Bool-cases (w == v.id && alert.id == other.id)) [
    | inr apart ↦ inl (
        ap episode_of (
          existing_of-visit_other settings network tables other v
            (services_of_pair pair.0 pair.1 rows) p w alert.id apart))
    | inl hit ↦
        let ids = key_ids other v hit in
        let rule = same_rule other m ids.1 in
        let project : pair.0 ≡ alert.project_id =
          c.same_project ∙ ap (λ (a : AlertRule). a.project_id) rule in
        let vuln : pair.1 ≡ w = sym c.same_vulnerability ∙ sym ids.0 in
        inr (
          λ i. (project i, vuln i),
          rule,
          arrives settings network tables other v (services_of_pair pair.0 pair.1 rows) p,
          (λ i. episode_of (
                existing_of (ids.0 i) (ids.1 i)
                  (visit_of settings network tables rows other pair v p).notifications))
              ∙ visit-advance settings network tables other v (services_of_pair pair.0 pair.1 rows)
                  p
              ∙ (λ i.
                  advance (episode_of (existing_of (sym ids.0 i) (sym ids.1 i) p.notifications))
                    (services_of_pair (project i) (vuln i) rows)
                    (arrives settings network tables other v (services_of_pair pair.0 pair.1 rows)
                      p)),
        )
  ]

  -- What one pair does to the episode.
  step-episode :
      (other : AlertRule) (pair : ℕ × ℕ) (p q : Progress)
      → Memᴰ other alerts
      → step_of settings network tables rows other pair p ≡ return q
      → (episode q ≡ episode p)
        ⊎ ((pair ≡ (alert.project_id, w))
            × (other ≡ alert)
            × (success : Bool) × (episode q
                ≡ advance (episode p) (services_of_pair alert.project_id w rows) success))
  step-episode other pair p q m e =
      elim (check_pair-cases settings network tables rows other pair) [
        | inl passed ↦ let same : p ≡ q = cc (passed p) in inl (ap episode (sym same))
        | inr (inl raised) ↦ cc (raised p)
        | inr (inr (v, c, visited)) ↦ elim (visited p) [
          | inr (raised, loud) ↦ cc raised
          | inl made ↦
              let same : visit_of settings network tables rows other pair v p ≡ q = cc made in
              rw (← same) (visit-episode other pair v p m c)
        ]
      ]

  -- The loop of a rule over pairs that do not hold the pair of this rule leaves the episode.
  pairs-leave :
      (other : AlertRule) (pairs : List (ℕ × ℕ)) (p q : Progress)
      → Memᴰ other alerts
      → ((other ≢ alert) ⊎ (¬ Memᴰ (alert.project_id, w) pairs))
      → check_pairs settings network tables rows other pairs p ≡ return q
      → episode q ≡ episode p
  unfolding check_pairs
  pairs-leave other [] p q m far e = let same : p ≡ q = cc in ap episode (sym same)
  pairs-leave other (pair ∷ pairs) p q m far e =
      let (r, first, rest) =
        >>=-eq-return (step_of settings network tables rows other pair p)
          (check_pairs settings network tables rows other pairs) e in
      pairs-leave other pairs r q m
        (elim far [ inl f ↦ inl f | inr n ↦ inr (λ k. n (Memᴰ.tail k)) ]) rest
      ∙ elim (step-episode other pair p r m first) [
        | inl same ↦ same
        | inr (hit, rule, success, moved) ↦ elim far [
          | inl f ↦ absurd (f rule)
          | inr n ↦ absurd (n (Memᴰ.head (sym hit)))
        ]
      ]

  -- The loop of a rule over the open pairs, each listed once, treats the pair at most once.
  pairs-GoesOn :
      (other : AlertRule) (pairs : List (ℕ × ℕ)) (p q : Progress)
      → Memᴰ other alerts
      → IsUnique pairs
      → check_pairs settings network tables rows other pairs p ≡ return q
      → GoesOn (services_of_pair alert.project_id w rows) (episode p) (episode q)
  unfolding check_pairs
  pairs-GoesOn other [] p q m u e = let same : p ≡ q = cc in inl (ap episode (sym same))
  pairs-GoesOn other (pair ∷ pairs) p q m u e =
      let (r, first, rest) =
        >>=-eq-return (step_of settings network tables rows other pair p)
          (check_pairs settings network tables rows other pairs) e in
      elim (step-episode other pair p r m first) [
        | inl same ↦ rw (← same) (pairs-GoesOn other pairs r q m u.1 rest)
        | inr (hit, rule, success, moved) ↦ inr (
          success,
          pairs-leave other pairs r q m (inr (λ k. cc (contains_of_mem pairs pair (rw hit k), u.0)))
                rest
              ∙ moved,
        )
      ]

  -- The rules behind the pair's own one do not touch the episode.
  pub each-leave :
      (pairs : List (ℕ × ℕ)) (some_alerts : List AlertRule) (p q : Progress)
      → ((a : AlertRule) → Memᴰ a some_alerts → Memᴰ a alerts)
      → ((¬ Memᴰ alert some_alerts) ⊎ (¬ Memᴰ (alert.project_id, w) pairs))
      → check_each settings network tables rows pairs some_alerts p ≡ return q
      → episode q ≡ episode p
  unfolding check_each
  each-leave pairs [] p q m far e = let same : p ≡ q = cc in ap episode (sym same)
  each-leave pairs (other ∷ others) p q m far e =
      let (r, first, rest) =
        >>=-eq-return (check_pairs settings network tables rows other pairs p)
          (check_each settings network tables rows pairs others) e in
      each-leave pairs others r q (λ a k. m a (Memᴰ.tail k))
        (elim far [ inl n ↦ inl (λ k. n (Memᴰ.tail k)) | inr n ↦ inr n ]) rest
      ∙ pairs-leave other pairs p r (m other (Memᴰ.head refl))
          (elim far [ inl n ↦ inl (λ same. n (Memᴰ.head (sym same))) | inr n ↦ inr n ]) first

  pub each-GoesOn :
      (pairs : List (ℕ × ℕ)) (some_alerts : List AlertRule) (p q : Progress)
      → ((a : AlertRule) → Memᴰ a some_alerts → Memᴰ a alerts)
      → IsUnique pairs
      → IsUnique (map (λ a. a.id) some_alerts)
      → check_each settings network tables rows pairs some_alerts p ≡ return q
      → GoesOn (services_of_pair alert.project_id w rows) (episode p) (episode q)
  unfolding check_each
  each-GoesOn pairs [] p q m u ids e = let same : p ≡ q = cc in inl (ap episode (sym same))
  each-GoesOn pairs (other ∷ others) p q m u ids e =
      let (r, first, rest) =
        >>=-eq-return (check_pairs settings network tables rows other pairs p)
          (check_each settings network tables rows pairs others) e in
      elim (Bool-cases (alert.id == other.id)) [
        | inr apart ↦
            let still =
              pairs-leave other pairs p r (m other (Memᴰ.head refl))
                (inl (λ same. not_itself other.id (ap (λ (a : AlertRule). a.id) same) apart))
                first in
            rw (← still) (each-GoesOn pairs others r q (λ a k. m a (Memᴰ.tail k)) u ids.1 rest)
        | inl own ↦
            let behind =
              each-leave pairs others r q (λ a k. m a (Memᴰ.tail k))
                (inl (λ k. cc (
                  contains-map_of_mem (λ (a : AlertRule). a.id) others k,
                  (nat_eq.beq_iff alert.id other.id).0 own,
                  ids.0,
                )))
                rest in
            rw behind (pairs-GoesOn other pairs p r (m other (Memᴰ.head refl)) u first)
      ]
    where
      not_itself : (k : ℕ) → k ≡ alert.id → ¬ ((alert.id == k) ≡ false)
      not_itself k e f = let t = (nat_eq.beq_iff alert.id k).1 (sym e) in cc
