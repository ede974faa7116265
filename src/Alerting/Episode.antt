-- ===== src/Alerting/Episode.antt =====
-- What `_delivery_action` and `_record_delivery` keep for an alert and a vulnerability, without the
-- rows: an episode, and how it goes on.
use argus_sbomguard.Common.{
  ℕ, ◌+◌, Option, none, some, Bool, true, false, List, last, same_set, leb, nat_eq, if◌then◌else◌,
  ◌≡◌, ◌⊎◌,
}
use argus_sbomguard.Models.{Notification}
use argus_sbomguard.Alerting.Decision.{
  services_of, max_attempts, failed_rows, sent_rows, Action, skip, give_up, resend, retry,
  deliver_first, max_alert_delivery_attempts,
}

-- Nothing was tried; or the message for some services arrived; or it failed so many times.
pub data Episode : Type 0 where
  idle : Episode
  delivered : (services : List ℕ) → Episode
  failing : (services : List ℕ) (attempts : ℕ) → Episode

abbrev pub failing_of : Option Notification → ℕ → Episode
failing_of none attempts = idle
failing_of (some n) attempts = failing (services_of n) attempts

abbrev pub delivered_of : Option Notification → Episode → Episode
delivered_of none otherwise = otherwise
delivered_of (some n) otherwise = delivered (services_of n)

-- The episode that the rows of a pair stand for.
unfoldable pub episode_of : List Notification → Episode
episode_of existing =
    delivered_of (last (sent_rows existing))
      (failing_of (last (failed_rows existing)) (max_attempts (failed_rows existing)))

-- What to do next for the services of today.
unfoldable pub next_action : Episode → List ℕ → Action
next_action idle current = deliver_first
next_action (delivered services) current = if same_set services current then skip else resend
next_action (failing services attempts) current =
    if same_set services current
    then if leb max_alert_delivery_attempts attempts then give_up else retry
    else resend

abbrev pub attempts_of : Episode → ℕ
attempts_of idle = 0
attempts_of (delivered services) = 0
attempts_of (failing services attempts) = attempts

-- The episode after a message for the services: the earlier failures count only if it is the same
-- message again.
abbrev pub tried : Bool → List ℕ → ℕ → Episode
tried true current earlier = delivered current
tried false current earlier = failing current (earlier + 1)

abbrev pub after_action : Action → Episode → List ℕ → Bool → Episode
after_action skip e current success = e
after_action give_up e current success = e
after_action resend e current success = tried success current 0
after_action retry e current success = tried success current (attempts_of e)
after_action deliver_first e current success = tried success current 0

-- A round for an open pair.
unfoldable pub advance : Episode → List ℕ → Bool → Episode
unfolding next_action
advance e current success = after_action (next_action e current) e current success

-- Nothing was due for an open pair, or it was treated once, for these services.
abbrev pub GoesOn : List ℕ → Episode → Episode → Type 0
GoesOn services e f = (f ≡ e) ⊎ ((success : Bool) × (f ≡ advance e services success))
