-- ===== src/Alerting/Limits.antt =====
-- The budget of attempts over whole rounds.
use argus_sbomguard.Common.{
  ℕ, List, [], ◌∷◌, ◌≡◌, refl, All, All-update_where, return, if◌then◌else◌,
}
use argus_sbomguard.Models.{AlertRule, Vulnerability}
use argus_sbomguard.Notifications.{Network}
use argus_sbomguard.Alerting.{
  AlertSettings, AlertTables, Progress, Action, skip, give_up, resend, retry, deliver_first,
  delivery_action, existing_of, is_quiet, is_closed, alert_by_id, close_row, act, visit,
  resolve_closed_episodes, open_rows, open_pairs, enabled_alerts, round_of, do_check_alerts,
  OpenRow,
}
use argus_sbomguard.Alerting.Budget.{InBudget, record_delivery-InBudget}
use argus_sbomguard.Alerting.Rounds.{check_each-inv}

module _ (settings : AlertSettings) (network : Network) (tables : AlertTables) where
  visit-InBudget :
      (alert : AlertRule) (v : Vulnerability) (services : List ℕ) (p : Progress)
      → All InBudget p.notifications
      → All InBudget (visit settings network tables alert v services p).notifications
  unfolding visit act
  visit-InBudget alert v services p h =
      from (delivery_action (existing_of v.id alert.id p.notifications) services) refl
    where
      from :
          (action : Action)
          → delivery_action (existing_of v.id alert.id p.notifications) services ≡ action
          → All InBudget
              (if is_quiet action
                then p
                else act settings network tables alert v services action p).notifications
      from skip e = h
      from give_up e = h
      from resend e =
          record_delivery-InBudget v.id alert.id _ _ services p.notifications resend e (λ x. cc)
            (λ x. cc) h
      from retry e =
          record_delivery-InBudget v.id alert.id _ _ services p.notifications retry e (λ x. cc)
            (λ x. cc) h
      from deliver_first e =
          record_delivery-InBudget v.id alert.id _ _ services p.notifications deliver_first e
            (λ x. cc) (λ x. cc) h

  round-InBudget :
      (rows : List OpenRow) (alerts : List AlertRule) (p q : Progress)
      → round_of settings network tables rows alerts p ≡ return q
      → All InBudget p.notifications
      → All InBudget q.notifications
  round-InBudget rows [] p q e h = let e' : p ≡ q = cc in rw (← e') h
  round-InBudget rows (alert ∷ alerts) p q e h =
      check_each-inv settings network tables rows (λ s. All InBudget s.notifications)
        (alert ∷ alerts) (open_pairs rows) (λ a pair v s _ _ _ b. visit-InBudget a v _ s b) _ q e
        (unfold resolve_closed_episodes in
          All-update_where InBudget
            (λ n. is_closed (alert_by_id (alert ∷ alerts) n.alert_rule_id) (open_pairs rows) n)
            close_row (λ n b _. b) p.notifications h)

-- If no notification counts more than five attempts, none does after a round of `do_check_alerts`
-- that returns, whatever the mail server and the webhooks answer.
pub do_check_alerts-InBudget :
    (settings : AlertSettings) (network : Network) (tables : AlertTables) (p q : Progress)
    → do_check_alerts settings network tables p ≡ return q
    → All InBudget p.notifications
    → All InBudget q.notifications
unfolding do_check_alerts
do_check_alerts-InBudget settings network tables p q e h =
    round-InBudget settings network tables
      (open_rows tables.sboms tables.acceptances tables.findings)
      (enabled_alerts tables.alert_rules) p q e h
