-- ===== src/Examples/Delivery.antt =====
-- Deliveries for one pair, and the texts of the messages.
use argus_sbomguard.Common.{suc, some, true, false, [], ◌∷◌, min, ◌≡◌, refl, text, nat_eq, same_set}
use argus_sbomguard.Models.{Notification, slack}
use argus_sbomguard.Notifications.{send_slack}
use argus_sbomguard.Alerting.{
  visit, delivery_action, existing_of, deliver, new_row, resend, Details,
}
use argus_sbomguard.Alerting.Failing.{visits, IsUnreachable, failing_rounds}
use argus_sbomguard.Alerting.Episode.{episode_of, advance}
use argus_sbomguard.Alerting.Advance.{visit-advance, arrives}
use argus_sbomguard.Examples.Data.{rule, flaw, alert_tables, alert_settings, down, start}

unreachable : IsUnreachable alert_settings down alert_tables rule flaw (3 ∷ [])
unfolding deliver send_slack
unreachable project outbox = refl

failing_rounds_example :
    existing_of flaw.id rule.id
      (visits alert_settings down alert_tables rule flaw (3 ∷ []) (suc 6) start).notifications
    ≡ new_row flaw.id rule.id (3 ∷ []) rule.notification_type false (min (suc 6) 5) ∷ []
failing_rounds_example =
    failing_rounds alert_settings down alert_tables rule flaw (3 ∷ []) start unreachable refl 6

-- A sent row for one service.
abbrev sent_row : Notification
sent_row = new_row 7 1 (3 ∷ []) slack true 0

scope_changed : delivery_action (existing_of 7 1 (sent_row ∷ [])) (3 ∷ 4 ∷ []) ≡ resend
unfolding delivery_action same_set
scope_changed = refl

abbrev details : Details
details = record {
  cve_id = text "CVE-2026-1";
  severity = some (text "CRITICAL");
  project_name = text "shop";
  service_names = text "api" ∷ [];
  affected = text "left-pad" ∷ [];
  summary = text "overflow";
}

visit-advance_example :
    episode_of (
      existing_of flaw.id rule.id
        (visit alert_settings down alert_tables rule flaw (3 ∷ []) start).notifications)
    ≡ advance
        (episode_of (existing_of flaw.id rule.id start.notifications))
        (3 ∷ [])
        (arrives alert_settings down alert_tables rule flaw (3 ∷ []) start)
visit-advance_example = visit-advance alert_settings down alert_tables rule flaw (3 ∷ []) start
