-- ===== src/Alerting/Check.antt =====
-- `do_check_alerts`: one round over the enabled alerts and the open pairs.
use argus_sbomguard.Common.{
  ℕ, Option, none, some, Bool, true, false, List, [], ◌∷◌, map, find, ◌==◌, nat_eq, ltb, Text,
  if◌then◌else◌, Outcome, return, raise, ◌>>=◌, key_error, value_error, not, ◌&&◌,
}
use argus_sbomguard.Models.{
  AlertRule, Vulnerability, Notification, Finding, Sbom, RiskAcceptance, Project, Service,
  threshold_value,
}
use argus_sbomguard.Notifications.{Message, Network}
use argus_sbomguard.Alerting.Rank.{severity_rank}
use argus_sbomguard.Alerting.Decision.{Action, skip, give_up, delivery_action}
use argus_sbomguard.Alerting.Record.{existing_of, resolve_closed_episodes, record_delivery}
use argus_sbomguard.Alerting.Query.{
  OpenRow, open_rows, open_pairs, services_of_pair, enabled_alerts,
}
use argus_sbomguard.Alerting.Deliver.{AlertSettings, severity_of, deliver, deliver_raises}

-- The tables that the check reads, and the one that it writes.
pub record AlertTables : Type 0 where
  pub findings : List Finding
  pub sboms : List Sbom
  pub acceptances : List RiskAcceptance
  pub vulnerabilities : List Vulnerability
  pub alert_rules : List AlertRule
  pub projects : List Project
  pub services : List Service

-- What a round changes: the notifications, and what was sent.
pub record Progress : Type 0 where
  pub notifications : List Notification
  pub outbox : List Message

-- Whether the decision ends the treatment of the pair.
abbrev pub is_quiet : Action → Bool
is_quiet skip = true
is_quiet give_up = true
is_quiet _ = false

-- `project_names.get(id, "")`
unfoldable pub project_name_of : List Project → ℕ → Text
project_name_of projects k = elim (find (λ p. p.id == k) projects) [ none ↦ [] | some p ↦ p.name ]

-- `service_names.get(id, "")`
unfoldable pub service_name_of : List Service → ℕ → Text
service_name_of services k = elim (find (λ s. s.id == k) services) [ none ↦ [] | some s ↦ s.name ]

module _ (settings : AlertSettings) (network : Network) (tables : AlertTables) where
  -- The delivery of a pair and its record.
  unfoldable pub act : AlertRule → Vulnerability → List ℕ → Action → Progress → Progress
  act alert v services action p =
      let (channel, success, outbox) =
        deliver settings network alert v (project_name_of tables.projects alert.project_id)
          (map (service_name_of tables.services) services) p.outbox in
      record {
        notifications =
            record_delivery v.id alert.id action channel success services p.notifications;
        outbox = outbox;
      }

  -- The body of the inner loop behind the guards, where the delivery does not raise.
  unfoldable pub visit : AlertRule → Vulnerability → List ℕ → Progress → Progress
  unfolding act
  visit alert v services p =
      let action = delivery_action (existing_of v.id alert.id p.notifications) services in
      if is_quiet action then p else act alert v services action p

  -- An exception of the delivery ends the round.
  unfoldable pub visit_or_raise : AlertRule → Vulnerability → List ℕ → Progress → Outcome Progress
  unfolding visit deliver_raises
  visit_or_raise alert v services p =
      if not (is_quiet (delivery_action (existing_of v.id alert.id p.notifications) services))
        && deliver_raises settings alert v (project_name_of tables.projects alert.project_id)
            (map (service_name_of tables.services) services)
      then raise value_error
      else return (visit alert v services p)

  abbrev visit_if_severe : AlertRule → Option Vulnerability → List ℕ → Progress → Outcome Progress
  visit_if_severe alert none services p = raise key_error
  visit_if_severe alert (some v) services p =
      if ltb (severity_rank (some (threshold_value alert.severity_threshold)))
        (severity_rank (severity_of v))
      then return p
      else visit_or_raise alert v services p

  -- `vulns[vuln_id]`
  abbrev pub vulnerability_of : ℕ → Option Vulnerability
  vulnerability_of k = find (λ v. v.id == k) tables.vulnerabilities

  unfoldable pub check_pair : List OpenRow → AlertRule → ℕ × ℕ → Progress → Outcome Progress
  unfolding visit_or_raise
  check_pair rows alert (project, vuln) p =
      if project == alert.project_id
      then visit_if_severe alert (vulnerability_of vuln) (services_of_pair project vuln rows) p
      else return p

  unfoldable pub check_pairs : List OpenRow → AlertRule → List (ℕ × ℕ) → Progress → Outcome Progress
  unfolding check_pair
  check_pairs rows alert [] p = return p
  check_pairs rows alert (pair ∷ pairs) p =
      check_pair rows alert pair p >>= check_pairs rows alert pairs

  unfoldable pub check_each :
      List OpenRow → List (ℕ × ℕ) → List AlertRule → Progress → Outcome Progress
  unfolding check_pairs
  check_each rows pairs [] p = return p
  check_each rows pairs (alert ∷ alerts) p =
      check_pairs rows alert pairs p >>= check_each rows pairs alerts

  abbrev pub round_of : List OpenRow → List AlertRule → Progress → Outcome Progress
  round_of rows [] p = return p
  round_of rows (alert ∷ alerts) p = check_each rows (open_pairs rows) (alert ∷ alerts) (record p {
    notifications = resolve_closed_episodes p.notifications (alert ∷ alerts) (open_pairs rows);
  })

  -- An exception leaves the transaction uncommitted: the tables stay as they were.
  unfoldable pub do_check_alerts : Progress → Outcome Progress
  unfolding check_each
  do_check_alerts p =
      round_of (open_rows tables.sboms tables.acceptances tables.findings)
        (enabled_alerts tables.alert_rules) p
