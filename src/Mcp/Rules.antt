-- ===== src/Mcp/Rules.antt =====
-- services/mcp_server.py: `list_alerts`. Of the configuration of a rule an item shows the field `to`.
use argus_sbomguard.Common.{
  Option, none, some, List, [], ◌∷◌, ◌++◌, find, ◌==◌, nat_eq, Text, Outcome,
}
use argus_sbomguard.Models.{AlertRule, Project}
use argus_sbomguard.Mcp.Paging.{ℤ, McpPage, list_page, order_by, is_newer}

pub record AlertItem : Type 0 where
  pub alert : AlertRule
  pub project_name : Text

abbrev alert_row : AlertRule → Option Project → List AlertItem
alert_row alert none = []
alert_row alert (some p) = (record { alert = alert; project_name = p.name }) ∷ []

-- The join with the projects.
abbrev pub alert_rows : List Project → List AlertRule → List AlertItem
alert_rows projects [] = []
alert_rows projects (alert ∷ alerts) =
    alert_row alert (find (λ p. p.id == alert.project_id) projects) ++ alert_rows projects alerts

unfoldable pub list_alerts : List Project → List AlertRule → ℤ → ℤ → Outcome (McpPage AlertItem)
unfolding order_by list_page
list_alerts projects alerts offset limit =
    list_page (λ item. item)
      (order_by (λ a b. is_newer (a.alert.created_at, a.alert.id) (b.alert.created_at, b.alert.id))
        (alert_rows projects alerts))
      offset limit
