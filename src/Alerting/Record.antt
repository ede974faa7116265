-- ===== src/Alerting/Record.antt =====
-- The table of notifications: `_resolve_closed_episodes`, `_index_by_pair`, `_record_delivery`.
-- The rows that the index hands out are the rows of the table, so a write goes to the table. A
-- table is in the order of creation.
use argus_sbomguard.Common.{
  ℕ, ◌+◌, Option, none, some, Bool, not, true, false, ◌&&◌, List, [], ◌∷◌, ◌++◌, filter, find,
  update_where, contains, ◌==◌, nat_eq, pair_eq, if◌then◌else◌,
}
use argus_sbomguard.Models.{
  Notification, AlertRule, Channel, Delivery, sent, failed, resolved, is_failed, is_resolved,
}
use argus_sbomguard.Alerting.Decision.{Action, resend, failed_rows, max_attempts}

abbrev pub is_pair : ℕ → ℕ → Notification → Bool
is_pair vuln alert n = n.vulnerability_id == vuln && n.alert_rule_id == alert

-- `by_pair.get((vuln_id, alert.id), [])`, read off the table.
abbrev pub existing_of : ℕ → ℕ → List Notification → List Notification
existing_of vuln alert = filter (is_pair vuln alert)

abbrev pub Index : Type 0
Index = List ((ℕ × ℕ) × List Notification)

-- `by_pair.setdefault(key, []).append(n)`
unfoldable pub append_at : ℕ × ℕ → Notification → Index → Index
append_at k n [] = (k, n ∷ []) ∷ []
append_at k n ((j, rows) ∷ m) =
    if j == k then (j, rows ++ n ∷ []) ∷ m else (j, rows) ∷ append_at k n m

abbrev pub index_from : Index → List Notification → Index
index_from m [] = m
index_from m (n ∷ rows) = index_from (append_at (n.vulnerability_id, n.alert_rule_id) n m) rows

unfoldable pub index_by_pair : List Notification → Index
unfolding append_at
index_by_pair = index_from []

-- `by_pair.get(key, [])`
unfoldable pub rows_at : ℕ × ℕ → Index → List Notification
rows_at k [] = []
rows_at k ((j, rows) ∷ m) = let rest = rows_at k m in if j == k then rows else rest

-- `alert is not None and (alert.project_id, vulnerability_id) not in open_pairs`
abbrev pub is_closed : Option AlertRule → List (ℕ × ℕ) → Notification → Bool
is_closed none open_pairs n = false
is_closed (some alert) open_pairs n =
    not (contains open_pairs (alert.project_id, n.vulnerability_id))

-- `alert_by_id.get(id)`
abbrev pub alert_by_id : List AlertRule → ℕ → Option AlertRule
alert_by_id alerts k = find (λ a. a.id == k) alerts

unfoldable pub resolve_closed_episodes :
    List Notification → List AlertRule → List (ℕ × ℕ) → List Notification
resolve_closed_episodes notifications alerts open_pairs =
    update_where (λ n. is_closed (alert_by_id alerts n.alert_rule_id) open_pairs n)
      (λ n. record n { status = resolved }) notifications

abbrev pub outcome : Bool → Delivery
outcome true = sent
outcome false = failed

abbrev pub new_row : ℕ → ℕ → List ℕ → Channel → Bool → ℕ → Notification
new_row vuln alert services channel success attempts = record {
  alert_rule_id = alert;
  vulnerability_id = vuln;
  service_ids = some services;
  channel = some channel;
  status = outcome success;
  attempts = attempts;
}

-- The attempts that a retry or a first delivery writes.
abbrev pub next_attempts : Bool → List Notification → ℕ
next_attempts true rows = 0
next_attempts false rows = max_attempts rows + 1

abbrev pub has_rows : List Notification → Bool
has_rows [] = false
has_rows (n ∷ rows) = true

-- RESEND closes the earlier rows.
abbrev pub close_row : Notification → Notification
close_row n = record n { status = resolved }

abbrev pub is_active_row : ℕ → ℕ → Notification → Bool
is_active_row vuln alert n = is_pair vuln alert n && not (is_resolved n.status)

-- It adds a row with a new budget.
unfoldable pub record_resend :
    ℕ → ℕ → Channel → Bool → List ℕ → List Notification → List Notification
record_resend vuln alert channel success services table =
    update_where (is_active_row vuln alert) close_row table
    ++ new_row vuln alert services channel success (if success then 0 else 1) ∷ []

-- RETRY rewrites the failed rows.
abbrev pub is_failed_row : ℕ → ℕ → Notification → Bool
is_failed_row vuln alert n = is_pair vuln alert n && is_failed n.status

abbrev pub rewrite_row : Channel → Bool → ℕ → List ℕ → Notification → Notification
rewrite_row channel success attempts services n = record n {
  status = outcome success;
  channel = some channel;
  attempts = attempts;
  service_ids = some services;
}

-- DELIVER, with no failed row, adds one.
abbrev pub attempt_from :
    ℕ → ℕ → Channel → Bool → List ℕ → ℕ → List Notification → Bool → List Notification
attempt_from vuln alert channel success services attempts table true =
    update_where (is_failed_row vuln alert) (rewrite_row channel success attempts services) table
attempt_from vuln alert channel success services attempts table false =
    table ++ new_row vuln alert services channel success attempts ∷ []

unfoldable pub record_attempt :
    ℕ → ℕ → Channel → Bool → List ℕ → List Notification → List Notification
record_attempt vuln alert channel success services table =
    let rows = failed_rows (existing_of vuln alert table) in
    attempt_from vuln alert channel success services (next_attempts success rows) table
      (has_rows rows)

unfoldable pub record_delivery :
    ℕ → ℕ → Action → Channel → Bool → List ℕ → List Notification → List Notification
record_delivery vuln alert resend channel success services table =
    record_resend vuln alert channel success services table
record_delivery vuln alert _ channel success services table =
    record_attempt vuln alert channel success services table
