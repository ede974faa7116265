-- ===== src/Examples/Alerting.antt =====
-- Rounds of the alerting at a small database.
use argus_sbomguard.Common.{add, pair_eq, true, ◌≡◌, refl, Memᴰ, Outcome, return, raise, nat_eq}
use argus_sbomguard.Common.{none, some, false, List, [], ◌∷◌}
use argus_sbomguard.Common.Reply.{ok}
use argus_sbomguard.Models.{AlertRule}
use argus_sbomguard.Alerting.{
  AlertTables, Progress, do_check_alerts, enabled_alerts, open_rows, open_pairs, severity_rank,
  services_of_pair, delivery_action, existing_of, is_quiet, is_actionable, deliver_raises,
  resolve_closed_episodes,
}
use argus_sbomguard.Acceptance.{covered_by_acceptance}
use argus_sbomguard.Alerting.Rounds.{Reaches}
use argus_sbomguard.Alerting.Once.{AreIndexed}
use argus_sbomguard.Alerting.Closed.{do_check_alerts_again}
use argus_sbomguard.Alerting.Delivered.{do_check_alerts-settles, rows_now}
use argus_sbomguard.Api.Alerts.{AlertRuleUpdate, RuleTables, update_alert}
use argus_sbomguard.Api.Alerts.Kept.{update_alert-silences}
use argus_sbomguard.Examples.Data.{
  rule, flaw, old_sbom, finding_in, alert_tables, alert_settings, up, start, up-IsReliable,
}

abbrev value_or : Progress → Outcome Progress → Progress
value_or p (return q) = q
value_or p (raise e) = p

after_round : Progress
after_round = value_or start (do_check_alerts alert_settings up alert_tables start)

-- The round returns.
round_returns : do_check_alerts alert_settings up alert_tables start ≡ return after_round
unfolding after_round do_check_alerts deliver_raises delivery_action resolve_closed_episodes
    enabled_alerts open_rows covered_by_acceptance open_pairs severity_rank add
round_returns = refl

indexed : AreIndexed (enabled_alerts alert_tables.alert_rules)
unfolding enabled_alerts
indexed alert (Memᴰ.head e) = rw e
indexed alert (Memᴰ.tail m) = elim m [ ]

do_check_alerts_again_example :
    do_check_alerts alert_settings up alert_tables after_round ≡ return after_round
do_check_alerts_again_example =
    do_check_alerts_again alert_settings up alert_tables start after_round up-IsReliable indexed
      round_returns

enabled : Memᴰ rule (enabled_alerts alert_tables.alert_rules)
unfolding enabled_alerts
enabled = Memᴰ.head refl

actionable :
    is_actionable alert_tables.sboms alert_tables.acceptances (finding_in 100) old_sbom ≡ true
unfolding is_actionable covered_by_acceptance
actionable = refl

reaches : Reaches rule flaw
unfolding severity_rank
reaches = refl

do_check_alerts-settles_example :
    is_quiet (
      delivery_action
        (existing_of flaw.id rule.id after_round.notifications)
        (services_of_pair rule.project_id flaw.id (rows_now alert_settings up alert_tables)))
    ≡ true
do_check_alerts-settles_example =
    do_check_alerts-settles alert_settings up alert_tables start after_round rule (finding_in 100)
      old_sbom flaw up-IsReliable indexed round_returns enabled (Memᴰ.head refl) refl actionable
      refl refl refl reaches

-- The rule, switched off.
abbrev off : AlertRuleUpdate
off = record {
  project_id = none;
  severity_threshold = none;
  notification_type = none;
  enabled = some false;
}

abbrev rules : List AlertRule → RuleTables
rules l = record { projects = []; alert_rules = l; notifications = [] }

abbrev rule_off : AlertRule
rule_off = record rule { enabled = false }

switched : update_alert 1 off (rules (rule ∷ [])) ≡ ok (rules (rule_off ∷ []))
unfolding update_alert
switched = refl

abbrev tables_off : AlertTables
tables_off = record alert_tables { alert_rules = rule_off ∷ [] }

round_off : do_check_alerts alert_settings up tables_off after_round ≡ return after_round
unfolding do_check_alerts enabled_alerts
round_off = refl

update_alert-silences_example :
    existing_of 7 1 after_round.notifications ≡ existing_of 7 1 after_round.notifications
update_alert-silences_example =
    update_alert-silences alert_settings up tables_off after_round after_round 7 1 off
      (rules (rule ∷ [])) (rules (rule_off ∷ [])) refl switched refl round_off
