-- ===== src/Examples/Data.antt =====
-- Two SBOMs of a service, a critical vulnerability that is open in them, and a rule for it.
use argus_sbomguard.Common.{join, ℕ, none, some, true, false, [], ◌∷◌, Text, text, ◌≡◌, refl}
use argus_sbomguard.Common.Json.{null, str, obj, end, field}
use argus_sbomguard.Models.{
  Severity, Vulnerability, Finding, open_status, fixed_status, Sbom, cyclonedx, Threshold,
  AlertRule, slack, Channel,
}
use argus_sbomguard.Notifications.{Network, send_built_email, send_slack, send_discord}
use argus_sbomguard.Alerting.{AlertSettings, AlertTables, Progress, deliver, deliver_by, details_of}
use argus_sbomguard.Alerting.Once.{IsReliable}
use argus_sbomguard.Models.{email, discord}

abbrev pub rule : AlertRule
rule = record {
  id = 1;
  project_id = 10;
  severity_threshold = Threshold.high;
  notification_type = slack;
  config_to = [];
  enabled = true;
  created_at = 0;
}

abbrev pub flaw : Vulnerability
flaw = record {
  id = 7;
  cve_id = text "CVE-2026-1";
  source = text "grype";
  severity = some Severity.critical;
  cvss_score = some 9800000;
  epss_score = none;
  epss_percentile = none;
  summary = some (text "overflow");
  affected_packages = text "pkg:npm/left-pad@1.3.0" ∷ [];
  published_at = none;
  extra_data = null;
}

abbrev pub sbom_at : ℕ → ℕ → Sbom
sbom_at id uploaded = record {
  id = id;
  project_id = 10;
  version = text "1.0";
  format = some cyclonedx;
  raw_sbom = obj (field (text "bomFormat") (str (text "CycloneDX")) end);
  sha256 = text "00";
  dependency_count = 1;
  uploaded_at = uploaded;
  service_id = some 3;
  created_at = uploaded;
}

abbrev pub old_sbom : Sbom
old_sbom = sbom_at 100 1000

abbrev pub new_sbom : Sbom
new_sbom = sbom_at 101 2000

abbrev pub finding_in : ℕ → Finding
finding_in sbom = record {
  sbom_id = sbom;
  dependency_purl = text "pkg:npm/left-pad@1.3.0";
  vulnerability_id = 7;
  status = open_status;
  fixed_at = none;
  detected_at = 1000;
}

abbrev pub closed_finding : Finding
closed_finding = record {
  sbom_id = 101;
  dependency_purl = text "pkg:npm/old@1";
  vulnerability_id = 8;
  status = fixed_status;
  fixed_at = some 1500;
  detected_at = 1000;
}

abbrev pub alert_tables : AlertTables
alert_tables = record {
  findings = finding_in 100 ∷ [];
  sboms = old_sbom ∷ new_sbom ∷ [];
  acceptances = [];
  vulnerabilities = flaw ∷ [];
  alert_rules = rule ∷ [];
  projects = [];
  services = [];
}

abbrev pub alert_settings : AlertSettings
alert_settings = record {
  slack_webhook_url = text "https://hooks.example/slack";
  discord_webhook_url = text "https://hooks.example/discord";
  alert_email_recipients = text "security@example.org" ∷ [];
  smtp_host = text "mail";
  takes_mail = λ to subject body. true;
  notification_base_url = text "https://localhost";
}

abbrev pub up : Network
up outbox message = true

abbrev pub down : Network
down outbox message = false

abbrev pub start : Progress
start = record { notifications = []; outbox = [] }

-- With every setting given, and every server up, every message is delivered.
pub up-IsReliable : IsReliable alert_settings up
unfolding deliver send_built_email send_slack send_discord join
up-IsReliable alert v project_name service_names outbox = by alert.notification_type alert.config_to
  where
    by :
        (channel : Channel) (to : Text)
        → (deliver_by alert_settings up channel to
            (details_of v project_name service_names)
            outbox).0
          ≡ true
    by slack to = refl
    by discord to = refl
    by email [] = refl
    by email (c ∷ to) = refl
