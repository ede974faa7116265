-- ===== src/Models/Alerts.antt =====
-- models/alert.py: alert rules and the notifications sent for them.
use argus_sbomguard.Common.{ℕ, Option, List, Text, text, Bool, true, false}

pub data Threshold : Type 0 where
  critical high medium low : Threshold

-- The value of a member of `SeverityThreshold`.
abbrev pub threshold_value : Threshold → Text
threshold_value Threshold.critical = text "critical"
threshold_value Threshold.high = text "high"
threshold_value Threshold.medium = text "medium"
threshold_value Threshold.low = text "low"

pub data Channel : Type 0 where
  email slack discord : Channel

pub data Delivery : Type 0 where
  sent failed resolved : Delivery

abbrev pub is_sent : Delivery → Bool
is_sent sent = true
is_sent _ = false

abbrev pub is_failed : Delivery → Bool
is_failed failed = true
is_failed _ = false

abbrev pub is_resolved : Delivery → Bool
is_resolved resolved = true
is_resolved _ = false

pub record AlertRule : Type 0 where
  pub id : ℕ
  pub project_id : ℕ
  pub severity_threshold : Threshold
  pub notification_type : Channel
  pub config_to : Text
  pub enabled : Bool
  pub created_at : ℕ

pub record Notification : Type 0 where
  pub alert_rule_id : ℕ
  pub vulnerability_id : ℕ
  pub service_ids : Option (List ℕ)
  pub channel : Option Channel
  pub status : Delivery
  pub attempts : ℕ
