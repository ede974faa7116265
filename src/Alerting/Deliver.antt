-- ===== src/Alerting/Deliver.antt =====
-- `_deliver`: the channel of an alert, and the message for it.
use argus_sbomguard.Common.{Option, none, some, Bool, false, List, [], ◌∷◌, ◌++◌, Text, text, join}
use argus_sbomguard.Models.{
  AlertRule, Vulnerability, severity_value, Channel, email, slack, discord,
}
use argus_sbomguard.Alerting.Card.{
  Details, package_names, slack_attachment, discord_embed, email_body,
}
use argus_sbomguard.Notifications.{
  Message, Network, Sent, unless_empty, send_email_raises, send_built_email, send_slack,
  send_discord,
}

-- The settings that alerting reads, and which values `EmailMessage` takes.
pub record AlertSettings : Type 0 where
  pub slack_webhook_url : Text
  pub discord_webhook_url : Text
  pub alert_email_recipients : List Text
  pub smtp_host : Text
  pub takes_mail : (to subject body : Text) → Bool
  pub notification_base_url : Text

-- `vuln.severity` as text.
abbrev pub severity_of : Vulnerability → Option Text
severity_of v = elim v.severity [ none ↦ none | some s ↦ some (severity_value s) ]

-- The summary as it is tested for truth: NULL and "" are the same.
abbrev text_or_empty : Option Text → Text
text_or_empty none = []
text_or_empty (some s) = s

abbrev pub details_of : Vulnerability → Text → List Text → Details
details_of v project_name service_names = record {
  cve_id = v.cve_id;
  severity = severity_of v;
  project_name = project_name;
  service_names = service_names;
  affected = package_names v.affected_packages;
  summary = text_or_empty v.summary;
}

-- `alert.config.get("to") or ", ".join(settings.alert_email_recipients)`
abbrev pub recipients_of : Text → List Text → Text
recipients_of [] defaults = join (text ", ") defaults
recipients_of (c ∷ s) defaults = c ∷ s

-- The answer for `recipients`: none are an undelivered mail.
abbrev pub deliver_mail : Network → Text → Text → Text → Text → List Message → Sent
deliver_mail network smtp_host [] subject body outbox = (false, outbox)
deliver_mail network smtp_host (c ∷ to) subject body outbox =
    send_built_email network smtp_host (c ∷ to) subject body outbox

-- Whether the message raises before it is sent.
abbrev pub mail_raises : AlertSettings → Text → Text → Text → Bool
mail_raises settings [] subject body = false
mail_raises settings (c ∷ to) subject body =
    send_email_raises settings.takes_mail settings.smtp_host (c ∷ to) subject body

abbrev pub raises_by : AlertSettings → Channel → Text → Details → Bool
raises_by settings slack to d = false
raises_by settings discord to d = false
raises_by settings email to d =
    mail_raises settings (recipients_of to settings.alert_email_recipients)
      (text "Critical: " ++ d.cve_id) (email_body settings.notification_base_url d)

unfoldable pub deliver_raises : AlertSettings → AlertRule → Vulnerability → Text → List Text → Bool
deliver_raises settings alert v project_name service_names =
    raises_by settings alert.notification_type alert.config_to
      (details_of v project_name service_names)

module _ (settings : AlertSettings) (network : Network) where
  abbrev pub deliver_by : Channel → Text → Details → List Message → Sent
  deliver_by slack to d outbox =
      unless_empty settings.slack_webhook_url
        (send_slack network settings.slack_webhook_url
          (slack_attachment settings.notification_base_url d) outbox)
        outbox
  deliver_by discord to d outbox =
      unless_empty settings.discord_webhook_url
        (send_discord network settings.discord_webhook_url
          (discord_embed settings.notification_base_url d) outbox)
        outbox
  deliver_by email to d outbox =
      deliver_mail network settings.smtp_host (recipients_of to settings.alert_email_recipients)
        (text "Critical: " ++ d.cve_id) (email_body settings.notification_base_url d) outbox

  -- The channel that is returned is always the alert's own; a card channel with no webhook is an
  -- undelivered message.
  -- This is `_deliver` where it does not raise.
  unfoldable pub deliver :
      AlertRule → Vulnerability → Text → List Text → List Message → Channel × Bool × List Message
  deliver alert v project_name service_names outbox =
      let sending =
        deliver_by alert.notification_type alert.config_to (details_of v project_name service_names)
          outbox in
      (alert.notification_type, sending.0, sending.1)
