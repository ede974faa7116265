-- ===== src/Lib.antt =====
-- Argus SBOM Guard keeps the software bills of materials (SBOMs) of services, scans them with
-- grype, and tells people about the vulnerabilities that are open. This development models the
-- services of the backend, app/services, with the routes of app/api and the middleware that call
-- them, over the rows of app/models.
--
-- A database table is the list of its rows in the order of creation, and an operation takes the
-- tables it reads and returns those it writes. Code that may raise returns an `Outcome`; where it
-- raises, the transaction of the caller is not committed. A UUID is a number, an instant counts
-- microseconds, a date counts days, a text is the list of its code points. No function runs on
-- fuel: each loop goes through a list.
--
-- The parts:
-- - Common: Boolean tests, tables as lists, keys, texts, outcomes, and the values of `json.loads`.
-- - Models: app/models, the rows and their enumerations.
-- - Acceptance: app/services/acceptance.py, the risk acceptances that silence a finding.
-- - Scanner: app/services/vulnerability_scanner.py. Scanner.Match reads a match of grype,
--   Scanner.Store writes it to the tables, Scanner.Process loops over the matches and raises for
--   a value that does not fit its column, Scanner.Close closes findings that are gone. Grype itself,
--   `datetime.fromisoformat`, the clock, new ids and the rows that other scans commit in between are
--   the record `ScanWorld`.
-- - Scanning: app/services/scanning.py, the scan of one SBOM, and the latest SBOM of each scope.
-- - Alerting: app/services/alerting.py. Alerting.Query finds what is open, Alerting.Decision what to
--   send, Alerting.Card and Alerting.Deliver the message, Alerting.Record what is written down, and
--   Alerting.Check is the round of `do_check_alerts` over the findings that Scanner wrote.
-- - Notifications: app/services/notifications.py. The answers of the mail server and of the webhooks
--   are the parameter `Network`, a function of the messages sent before. Which mails `EmailMessage`
--   takes is a parameter of the settings; for one that it does not take the round raises.
-- - Retention: app/services/retention.py, what is pruned, with the latest SBOMs of Scanning.
-- - Pagination: app/services/pagination.py, the pages of a list.
-- - Auth: app/services/auth.py, login codes and API keys over the tables of Models.Accounts. The keyed
--   hash and the random characters are parameters.
-- - Parser and Uploads: app/services/sbom_parser.py, the document and `store_sbom`. The digest of a
--   document is a parameter.
-- - Api: the routes of app/api/v1 that write. Api.Upload, Api.Diff and Api.Deletion are
--   app/api/v1/sboms.py, Api.Acceptances is app/api/v1/vulnerabilities.py, Api.Projects is
--   app/api/v1/projects.py and app/api/v1/services.py, Api.Alerts is app/api/v1/alerts.py. A route
--   answers with a `Reply`, a result or the status of an error.
-- - Access: who gets in. Access.Session is app/middleware/auth.py, Access.Bearer
--   app/middleware/api_key.py, Access.Mcp app/middleware/mcp_auth.py with the gate of
--   app/api/mcp_server.py, Access.Headers app/middleware/security_headers.py, Access.Login
--   app/api/auth.py, over the operations of Auth. The serializer of the session cookie is a
--   parameter, which is given the time.
-- - Grpc: app/services/grpc_server.py, the interceptor for API keys over Auth, and the upload over
--   Uploads. Grpc.Same sets them beside Access.Bearer and Api.Upload.
-- - Snapshots: app/services/snapshots.py, the counts of a day.
-- - Mcp: app/services/mcp_server.py, the tools for agents. Mcp.Paging is how a list tool cuts a page
--   from its rows, Mcp.Hosts which hosts are served, Mcp.Listing, Mcp.Rules and Mcp.Detail are the
--   tools, and Mcp.Posture is the summary, beside that of app/api/v1/vulnerabilities.py. ILIKE and the
--   order of texts in the database are parameters.
-- - Settings: app/config.py, the validators of the settings and the fields that are computed.
-- - Queries: app/services/vulnerability_queries.py, what a list of vulnerabilities shows and in which
--   order, with `active_vulnerabilities` of app/api/v1/vulnerabilities.py. Mcp.Vulnerabilities is the
--   tool over the same query.
-- - Site: app/api/pages. Site.Dashboard is app/api/pages/dashboard.py, Site.Projects the list of
--   app/api/pages/projects.py, over the rows of Queries, and Site.Labels the texts of its lines.
--   Site.Vulnerabilities is app/api/pages/vulnerabilities.py.
-- - Examples: small databases, at which the theorems with hypotheses are applied.
--
-- The alerting gives up after 5 attempts, as `MAX_ALERT_DELIVERY_ATTEMPTS` does. Case mapping and
-- blanks in texts are those of ASCII. A JSON number stands for so many millionths.
--
-- Not modelled: most of the pages, the schemas of the API, Celery and logging, which pass on what the
-- services return, the start of the servers, and the parts of SQLAlchemy and pydantic that they use.
pub mod Common
pub mod Mcp
pub mod Models
pub mod Acceptance
pub mod Notifications
pub mod Alerting
pub mod Scanner
pub mod Scanning
pub mod Retention
pub mod Auth
pub mod Parser
pub mod Queries
pub mod Site
pub mod Grpc
pub mod Uploads
pub mod Snapshots
pub mod Settings
pub mod Api
pub mod Access
pub mod Pagination
mod Examples
