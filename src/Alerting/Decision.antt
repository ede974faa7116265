-- ===== src/Alerting/Decision.antt =====
-- `_delivery_action`: what to do for an alert and a vulnerability, from the notifications so far.
use argus_sbomguard.Common.{
  ℕ, nat_eq, Option, none, some, not, List, [], ◌∷◌, filter, last, same_set, leb, max,
  if◌then◌else◌,
}
use argus_sbomguard.Models.{Notification, is_sent, is_failed, is_resolved}

pub data Action : Type 0 where
  skip give_up resend retry deliver_first : Action

abbrev pub max_alert_delivery_attempts : ℕ
max_alert_delivery_attempts = 5

-- `notification.service_ids or []`
abbrev pub services_of : Notification → List ℕ
services_of n = elim n.service_ids [ none ↦ [] | some l ↦ l ]

-- `max((n.attempts for n in rows), default=0)`
unfoldable pub max_attempts : List Notification → ℕ
max_attempts [] = 0
max_attempts (n ∷ rows) = max n.attempts (max_attempts rows)

abbrev pub failed_rows : List Notification → List Notification
failed_rows = filter (λ n. is_failed n.status)

abbrev pub sent_rows : List Notification → List Notification
sent_rows existing =
    filter (λ n. is_sent n.status) (filter (λ n. not (is_resolved n.status)) existing)

-- The decision when nothing is delivered for the episode; the arguments are `failed[-1]` and the
-- largest count of attempts.
unfoldable pub after_failure : Option Notification → ℕ → List ℕ → Action
after_failure none attempts current = deliver_first
after_failure (some n) attempts current =
    if not (same_set (services_of n) current)
    then resend
    else if leb max_alert_delivery_attempts attempts
    then give_up
    else retry

-- The decision from `sent[-1]`; the last argument is the decision if there is none.
unfoldable pub after_success : Option Notification → List ℕ → Action → Action
after_success none current otherwise = otherwise
after_success (some n) current otherwise = if same_set (services_of n) current then skip else resend

unfoldable pub delivery_action : List Notification → List ℕ → Action
unfolding after_failure after_success
delivery_action existing current =
    after_success (last (sent_rows existing)) current
      (after_failure (last (failed_rows existing)) (max_attempts (failed_rows existing)) current)
