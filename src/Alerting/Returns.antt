-- ===== src/Alerting/Returns.antt =====
-- When a round of `do_check_alerts` returns.
use argus_sbomguard.Common.{ℕ, some, false, Text, Memᴰ, List, nat_eq, pair_eq, ◌≡◌}
use argus_sbomguard.Models.{AlertRule, Vulnerability}
use argus_sbomguard.Notifications.{Network}
use argus_sbomguard.Alerting.{AlertSettings, AlertTables, vulnerability_of, deliver_raises}

module _ (settings : AlertSettings) (network : Network) (tables : AlertTables) where
  -- The vulnerability has a row: the foreign key of the findings.
  abbrev pub HasRow : ℕ → Type 0
  HasRow k = (v : Vulnerability) × (vulnerability_of settings network tables k ≡ some v)

  -- `EmailMessage` takes whatever the rule would mail for a vulnerability; a rule with a webhook mails
  -- nothing.
  abbrev pub IsSendable : AlertRule → Type 0
  IsSendable alert =
      (v : Vulnerability)
      → Memᴰ v tables.vulnerabilities
      → (project_name : Text) (service_names : List Text)
      → deliver_raises settings alert v project_name service_names ≡ false
