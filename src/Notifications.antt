-- ===== src/Notifications.antt =====
-- services/notifications.py: the three ways to send. What the mail server and the webhooks answer
-- is a parameter; an answer that is not a success, and an exception while it is asked, are `false`.
-- A mail is built before that, and `EmailMessage` raises on a value that it does not take.
use argus_sbomguard.Common.{Bool, false, not, List, [], ◌∷◌, ◌++◌, Text}
use argus_sbomguard.Alerting.Card.{Attachment, Embed}

pub data Message : Type 0 where
  mail : (to subject body : Text) → Message
  slack_card : (webhook_url : Text) → Attachment → Message
  discord_card : (webhook_url : Text) → Embed → Message

-- The answer to a message, after the messages that were sent before it.
abbrev pub Network : Type 0
Network = List Message → Message → Bool

-- Whether the call returned True, and what is sent so far.
abbrev pub Sent : Type 0
Sent = Bool × List Message

abbrev post : Network → Message → List Message → Sent
post network m outbox = (network outbox m, outbox ++ m ∷ [])

abbrev pub unless_empty : Text → Sent → List Message → Sent
unless_empty [] sending outbox = (false, outbox)
unless_empty (c ∷ s) sending outbox = sending

-- `send_email` raises where a mail server is set and `EmailMessage` does not take the recipient, the
-- subject or the body.
abbrev pub send_email_raises : (Text → Text → Text → Bool) → Text → Text → Text → Text → Bool
send_email_raises takes_mail [] to subject body = false
send_email_raises takes_mail (c ∷ host) to subject body = not (takes_mail to subject body)

-- `send_email` where it does not raise: without a mail server nothing is sent.
unfoldable pub send_built_email : Network → Text → Text → Text → Text → List Message → Sent
send_built_email network smtp_host to subject body outbox =
    unless_empty smtp_host (post network (mail to subject body) outbox) outbox

unfoldable pub send_slack : Network → Text → Attachment → List Message → Sent
send_slack network webhook_url card outbox =
    unless_empty webhook_url (post network (slack_card webhook_url card) outbox) outbox

unfoldable pub send_discord : Network → Text → Embed → List Message → Sent
send_discord network webhook_url card outbox =
    unless_empty webhook_url (post network (discord_card webhook_url card) outbox) outbox
