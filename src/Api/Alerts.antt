-- ===== src/Api/Alerts.antt =====
-- api/v1/alerts.py: the rules of alerts. A rule keeps the field `to` of its configuration, which is
-- what alerting reads; the notifications of a rule are deleted with it.
pub mod Kept
use argus_sbomguard.Common.{
  ℕ, Option, none, some, Bool, List, [], ◌∷◌, ◌++◌, find, update_where, delete_where, ◌==◌, nat_eq,
  Text,
}
use argus_sbomguard.Common.Reply.{Reply, ok, refuse, ◌>>=◌, found_or}
use argus_sbomguard.Models.{Project, AlertRule, Notification, Threshold, Channel}

pub record AlertRuleCreate : Type 0 where
  pub project_id : ℕ
  pub severity_threshold : Threshold
  pub notification_type : Channel
  pub config_to : Text
  pub enabled : Bool

pub record AlertRuleUpdate : Type 0 where
  pub project_id : Option ℕ
  pub severity_threshold : Option Threshold
  pub notification_type : Option Channel
  pub enabled : Option Bool

-- The tables of the rules.
pub record RuleTables : Type 0 where
  pub projects : List Project
  pub alert_rules : List AlertRule
  pub notifications : List Notification

abbrev pub project_or_404 : ℕ → List Project → Reply Project
project_or_404 k projects = found_or (find (λ p. p.id == k) projects) 404

abbrev pub rule_or_404 : ℕ → List AlertRule → Reply AlertRule
rule_or_404 k rules = found_or (find (λ a. a.id == k) rules) 404

abbrev pub new_rule : ℕ → ℕ → AlertRuleCreate → AlertRule
new_rule id now request = record {
  id = id;
  project_id = request.project_id;
  severity_threshold = request.severity_threshold;
  notification_type = request.notification_type;
  config_to = request.config_to;
  enabled = request.enabled;
  created_at = now;
}

unfoldable pub create_alert : ℕ → ℕ → AlertRuleCreate → RuleTables → Reply (AlertRule × RuleTables)
create_alert id now request t = do
  project ← project_or_404 request.project_id t.projects
  ok (
    new_rule id now request,
    record t { alert_rules = t.alert_rules ++ new_rule id now request ∷ [] },
  )

unfoldable pub delete_alert : ℕ → RuleTables → Reply RuleTables
delete_alert k t = do
  rule ← rule_or_404 k t.alert_rules
  ok (record t {
    alert_rules = delete_where (λ a. a.id == k) t.alert_rules;
    notifications = delete_where (λ n. n.alert_rule_id == k) t.notifications;
  })

-- The project of an update, if it names one, exists.
abbrev pub new_project_exists : Option ℕ → List Project → Reply (Unit {0})
new_project_exists none projects = ok tt
new_project_exists (some k) projects = do project ← project_or_404 k projects; ok tt

abbrev pub new_or_old {ℓ} : {A : Type ℓ} → Option A → A → A
new_or_old none old = old
new_or_old (some new) old = new

abbrev pub updated_rule : AlertRuleUpdate → AlertRule → AlertRule
updated_rule request rule = record rule {
  project_id = new_or_old request.project_id rule.project_id;
  severity_threshold = new_or_old request.severity_threshold rule.severity_threshold;
  notification_type = new_or_old request.notification_type rule.notification_type;
  enabled = new_or_old request.enabled rule.enabled;
}

unfoldable pub update_alert : ℕ → AlertRuleUpdate → RuleTables → Reply RuleTables
update_alert k request t = do
  rule ← rule_or_404 k t.alert_rules
  u ← new_project_exists request.project_id t.projects
  ok (record t { alert_rules = update_where (λ a. a.id == k) (updated_rule request) t.alert_rules })
