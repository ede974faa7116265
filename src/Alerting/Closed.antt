-- ===== src/Alerting/Closed.antt =====
-- Notifications of closed episodes are resolved after a round.
use argus_sbomguard.Common.{
  ℕ, some, Bool, true, false, not, List, [], ◌∷◌, update_where, ◌==◌, nat_eq, pair_eq, ◌≡◌, refl,
  sym, ap, ◌∙◌, arith, All, All-append, All-update_where, Memᴰ, ==_refl, return, any_of_mem,
  if◌then◌else◌,
}
use argus_sbomguard.Models.{Notification, AlertRule, Vulnerability, Channel, resolved}
use argus_sbomguard.Notifications.{Network}
use argus_sbomguard.Alerting.{
  AlertSettings, AlertTables, Progress, OpenRow, Action, skip, give_up, resend, retry,
  deliver_first, delivery_action, is_quiet, existing_of, is_pair, is_closed, alert_by_id, close_row,
  is_active_row, is_failed_row, rewrite_row, attempt_from, record_resend, record_attempt,
  record_delivery, resolve_closed_episodes, act, visit, services_of_pair, open_rows, open_pairs,
  enabled_alerts, round_of, do_check_alerts, new_row, check_each,
}
use argus_sbomguard.Alerting.Rounds.{check_each-inv}
use argus_sbomguard.Alerting.Once.{IsReliable, AreIndexed}
use argus_sbomguard.Alerting.OnceRound.{check_each_again}

module _ (alerts : List AlertRule) (pairs : List (ℕ × ℕ)) where
  -- The vulnerability of the notification is not open in the project of its enabled alert.
  abbrev pub closed : Notification → Bool
  closed n = is_closed (alert_by_id alerts n.alert_rule_id) pairs n

  abbrev pub IsResolvedIfClosed : Notification → Type 0
  IsResolvedIfClosed n = closed n ≡ true → n.status ≡ resolved

  -- A notification of an open pair is not closed.
  not_closed :
      (alert : AlertRule) (v : ℕ) (n : Notification)
      → alert_by_id alerts alert.id ≡ some alert
      → Memᴰ (alert.project_id, v) pairs
      → is_pair v alert.id n ≡ true
      → closed n ≡ false
  not_closed alert v n found m h =
      let ids : (n.vulnerability_id ≡ v) × (n.alert_rule_id ≡ alert.id) = ground arith in
      rw (ids.1, found, ids.0)
        (ap not (
          any_of_mem (λ p. p == (alert.project_id, v)) pairs m
            (==_refl ⦃e = pair_eq⦄ (alert.project_id, v))))

  module _ (alert : AlertRule) (v : ℕ) (channel : Channel) (success : Bool) (services : List ℕ)
      (open_one : (n : Notification) → is_pair v alert.id n ≡ true → closed n ≡ false) where
    new_row-resolved :
        (attempts : ℕ) → IsResolvedIfClosed (new_row v alert.id services channel success attempts)
    new_row-resolved attempts h =
        let fits : is_pair v alert.id (new_row v alert.id services channel success attempts)
            ≡ true =
          rw (==_refl v, ==_refl alert.id) in
        cc (open_one (new_row v alert.id services channel success attempts) fits)

    rewrite-resolved :
        (attempts : ℕ) (n : Notification)
        → is_failed_row v alert.id n ≡ true
        → IsResolvedIfClosed (rewrite_row channel success attempts services n)
    rewrite-resolved attempts n h e =
        let fits : is_pair v alert.id (rewrite_row channel success attempts services n) ≡ true =
          ground arith in
        cc (open_one (rewrite_row channel success attempts services n) fits)

    attempt_from-resolved :
        (attempts : ℕ) (table : List Notification) (some_failed : Bool)
        → All IsResolvedIfClosed table
        → All IsResolvedIfClosed
            (attempt_from v alert.id channel success services attempts table some_failed)
    attempt_from-resolved attempts table true h =
        All-update_where IsResolvedIfClosed (is_failed_row v alert.id)
          (rewrite_row channel success attempts services) (λ n _ e. rewrite-resolved attempts n e)
          table h
    attempt_from-resolved attempts table false h =
        All-append IsResolvedIfClosed table _ h (new_row-resolved attempts, tt)

    record_resend-resolved :
        (table : List Notification)
        → All IsResolvedIfClosed table
        → All IsResolvedIfClosed (record_resend v alert.id channel success services table)
    unfolding record_resend
    record_resend-resolved table h =
        All-append IsResolvedIfClosed (update_where (is_active_row v alert.id) close_row table) _
          (All-update_where IsResolvedIfClosed (is_active_row v alert.id) close_row
            (λ n _ _ _. refl) table h)
          (new_row-resolved _, tt)

    record_delivery-resolved :
        (action : Action) (table : List Notification)
        → All IsResolvedIfClosed table
        → All IsResolvedIfClosed (record_delivery v alert.id action channel success services table)
    unfolding record_delivery record_attempt
    record_delivery-resolved resend table h = record_resend-resolved table h
    record_delivery-resolved _ table h = attempt_from-resolved _ table _ h

  visit-resolved :
      (settings : AlertSettings) (network : Network) (tables : AlertTables) (alert : AlertRule)
      (v : Vulnerability) (services : List ℕ) (p : Progress)
      → ((n : Notification) → is_pair v.id alert.id n ≡ true → closed n ≡ false)
      → All IsResolvedIfClosed p.notifications
      → All IsResolvedIfClosed (visit settings network tables alert v services p).notifications
  unfolding visit act
  visit-resolved settings network tables alert v services p open_one h =
      from (delivery_action (existing_of v.id alert.id p.notifications) services)
    where
      from :
          (action : Action)
          → All IsResolvedIfClosed
              (if is_quiet action
                then p
                else act settings network tables alert v services action p).notifications
      from skip = h
      from give_up = h
      from resend =
          record_delivery-resolved alert v.id _ _ services open_one resend p.notifications h
      from retry = record_delivery-resolved alert v.id _ _ services open_one retry p.notifications h
      from deliver_first =
          record_delivery-resolved alert v.id _ _ services open_one deliver_first p.notifications h

  pub resolve-resolved :
      (table : List Notification)
      → All IsResolvedIfClosed (resolve_closed_episodes table alerts pairs)
  unfolding resolve_closed_episodes
  resolve-resolved [] = tt
  resolve-resolved (n ∷ table) = (from (closed n) refl, resolve-resolved table)
    where
      from : (b : Bool) → closed n ≡ b → IsResolvedIfClosed (if b then close_row n else n)
      from true e h = refl
      from false e h = cc

  resolve_again :
      (table : List Notification)
      → All IsResolvedIfClosed table
      → resolve_closed_episodes table alerts pairs ≡ table
  unfolding resolve_closed_episodes
  resolve_again [] h = refl
  resolve_again (n ∷ table) h = λ i. from (closed n) refl i ∷ resolve_again table h.1 i
    where
      from : (b : Bool) → closed n ≡ b → (if b then close_row n else n) ≡ n
      from true e = λ i. record n { status = sym (h.0 e) i }
      from false e = refl

module _ (settings : AlertSettings) (network : Network) (tables : AlertTables) where
  -- After the loops every notification of a closed pair is still resolved.
  pub check_each-resolved :
      (rows : List OpenRow) (alerts : List AlertRule) (pairs : List (ℕ × ℕ)) (p q : Progress)
      → AreIndexed alerts
      → check_each settings network tables rows pairs alerts p ≡ return q
      → All (IsResolvedIfClosed alerts pairs) p.notifications
      → All (IsResolvedIfClosed alerts pairs) q.notifications
  check_each-resolved rows alerts pairs p q indexed e h =
      check_each-inv settings network tables rows
        (λ s. All (IsResolvedIfClosed alerts pairs) s.notifications) alerts pairs
        (λ alert pair v s ma mp c k.
          visit-resolved alerts pairs settings network tables alert v
            (services_of_pair pair.0 pair.1 rows) s
            (λ n fits.
              not_closed alerts pairs alert v.id n (indexed alert ma)
                (same_pair alert pair v pairs c.same_project c.same_vulnerability mp) fits)
            k)
        p q e h
    where
      same_pair :
          (alert : AlertRule) (pair : ℕ × ℕ) (v : Vulnerability) (l : List (ℕ × ℕ))
          → pair.0 ≡ alert.project_id
          → v.id ≡ pair.1
          → Memᴰ pair l
          → Memᴰ (alert.project_id, v.id) l
      same_pair alert pair v l a b m = rw (← a, b) m

  round_again :
      (rows : List OpenRow) (alerts : List AlertRule) (p q : Progress)
      → IsReliable settings network
      → AreIndexed alerts
      → round_of settings network tables rows alerts p ≡ return q
      → round_of settings network tables rows alerts q ≡ return q
  round_again rows [] p q reliable indexed e = refl
  round_again rows (alert ∷ alerts) p q reliable indexed e =
      let all_alerts = alert ∷ alerts in
      let after : All (IsResolvedIfClosed all_alerts (open_pairs rows)) q.notifications =
        check_each-resolved rows all_alerts (open_pairs rows) _ q indexed e
          (resolve-resolved all_alerts (open_pairs rows) p.notifications) in
      let same : record q {
        notifications = resolve_closed_episodes q.notifications all_alerts (open_pairs rows);
      }
          ≡ q =
        λ i. record q {
          notifications = resolve_again all_alerts (open_pairs rows) q.notifications after i;
        } in
      ap (check_each settings network tables rows (open_pairs rows) all_alerts) same
      ∙ check_each_again settings network tables rows all_alerts (open_pairs rows) reliable indexed
          _ q e

-- If every message arrives and the rules have distinct ids, a second round of `do_check_alerts` over
-- the same tables, right after one that returned, sends nothing and changes no notification.
pub do_check_alerts_again :
    (settings : AlertSettings) (network : Network) (tables : AlertTables) (p q : Progress)
    → IsReliable settings network
    → AreIndexed (enabled_alerts tables.alert_rules)
    → do_check_alerts settings network tables p ≡ return q
    → do_check_alerts settings network tables q ≡ return q
unfolding do_check_alerts
do_check_alerts_again settings network tables p q reliable indexed e =
    round_again settings network tables (open_rows tables.sboms tables.acceptances tables.findings)
      (enabled_alerts tables.alert_rules) p q reliable indexed e
