-- ===== src/Alerting/Ended.antt =====
-- The closing of the episodes whose pair is not open any more.
use argus_sbomguard.Common.{
  ℕ, Option, some, none, Bool, true, false, not, List, [], ◌∷◌, contains, pair_eq, nat_eq, ◌≡◌,
  refl, ap, ◌∙◌, arith, Bool-cases, if◌then◌else◌, inl, inr,
}
use argus_sbomguard.Models.{Notification, AlertRule}
use argus_sbomguard.Alerting.{
  sent_rows, failed_rows, is_pair, existing_of, is_closed, alert_by_id, resolve_closed_episodes,
}
use argus_sbomguard.Alerting.Episode.{idle, episode_of}

abbrev pub closes_for : Option AlertRule → List (ℕ × ℕ) → ℕ → Bool
closes_for none pairs v = false
closes_for (some alert) pairs v = not (contains pairs (alert.project_id, v))

-- The pair is of an alert of the list, and not open.
abbrev pub closes : List AlertRule → List (ℕ × ℕ) → ℕ → ℕ → Bool
closes alerts pairs v a = closes_for (alert_by_id alerts a) pairs v

-- Nothing is closed for a rule that is not in the list.
pub closes_of_absent :
    (alerts : List AlertRule) (pairs : List (ℕ × ℕ)) (v a : ℕ)
    → alert_by_id alerts a ≡ none
    → closes alerts pairs v a ≡ false
closes_of_absent alerts pairs v a h = ap (λ alert. closes_for alert pairs v) h

is_closed-closes_for :
    (alert : Option AlertRule) (pairs : List (ℕ × ℕ)) (v : ℕ) (n : Notification)
    → n.vulnerability_id ≡ v
    → is_closed alert pairs n ≡ closes_for alert pairs v
is_closed-closes_for none pairs v n h = refl
is_closed-closes_for (some alert) pairs v n h =
    ap (λ k. not (contains pairs (alert.project_id, k))) h

module _ (alerts : List AlertRule) (pairs : List (ℕ × ℕ)) (v a : ℕ) where
  closed_row :
      (n : Notification)
      → is_pair v a n ≡ true
      → is_closed (alert_by_id alerts n.alert_rule_id) pairs n ≡ closes alerts pairs v a
  closed_row n h =
      let ids : (n.vulnerability_id ≡ v) × (n.alert_rule_id ≡ a) = ground arith in
      is_closed-closes_for (alert_by_id alerts n.alert_rule_id) pairs v n ids.0
      ∙ ap (closes alerts pairs v) ids.1

  sent_rows-resolved :
      closes alerts pairs v a ≡ true
      → (table : List Notification)
      → sent_rows (existing_of v a (resolve_closed_episodes table alerts pairs)) ≡ []
  unfolding resolve_closed_episodes
  sent_rows-resolved h [] = refl
  sent_rows-resolved h (n ∷ table) = ground (arith, closed_row n, sent_rows-resolved h table)

  failed_rows-resolved :
      closes alerts pairs v a ≡ true
      → (table : List Notification)
      → failed_rows (existing_of v a (resolve_closed_episodes table alerts pairs)) ≡ []
  unfolding resolve_closed_episodes
  failed_rows-resolved h [] = refl
  failed_rows-resolved h (n ∷ table) = ground (arith, closed_row n, failed_rows-resolved h table)

  pub existing_of-resolved :
      closes alerts pairs v a ≡ false
      → (table : List Notification)
      → existing_of v a (resolve_closed_episodes table alerts pairs) ≡ existing_of v a table
  unfolding resolve_closed_episodes
  existing_of-resolved h [] = refl
  existing_of-resolved h (n ∷ table) = ground (arith, closed_row n, existing_of-resolved h table)

  -- The episodes that are not open any more end, and the others go on.
  pub resolved-episode_of :
      (table : List Notification)
      → episode_of (existing_of v a (resolve_closed_episodes table alerts pairs))
        ≡ (if closes alerts pairs v a then idle else episode_of (existing_of v a table))
  unfolding episode_of
  resolved-episode_of table = elim (Bool-cases (closes alerts pairs v a)) [
    | inl t ↦ rw (t, sent_rows-resolved t table, failed_rows-resolved t table) refl
    | inr f ↦ rw (f, existing_of-resolved f table) refl
  ]
