-- ===== src/Alerting/Budget.antt =====
-- The budget of attempts: no notification counts more than five, and a delivery that always fails
-- stops after five.
use argus_sbomguard.Common.{
  ℕ, ◌+◌, ◌≤◌, Bool, true, false, List, [], nat_eq, ◌≡◌, refl, arith, All, All-append,
  All-update_where, inl, inr, ◌⊎◌, ◌≢◌, update_where,
}
use argus_sbomguard.Models.{Notification, Channel}
use argus_sbomguard.Alerting.Decision.{
  failed_rows, max_attempts, max_alert_delivery_attempts, Action, skip, give_up, resend, retry,
  deliver_first, after_failure, after_success, delivery_action,
}
use argus_sbomguard.Alerting.Record.{
  existing_of, has_rows, next_attempts, is_active_row, close_row, is_failed_row, rewrite_row,
  attempt_from, record_resend, record_attempt, record_delivery,
}
use argus_sbomguard.Alerting.Rows.{nil_of_last-eq-none}

abbrev pub InBudget : Notification → Type 0
InBudget n = n.attempts ≤ max_alert_delivery_attempts

module _ (v a : ℕ) (channel : Channel) (success : Bool) (services : List ℕ) where
  resend-InBudget :
      (table : List Notification)
      → All InBudget table
      → All InBudget (record_resend v a channel success services table)
  unfolding record_resend
  resend-InBudget table h =
      All-append InBudget (update_where (is_active_row v a) close_row table) _
        (All-update_where InBudget (is_active_row v a) close_row (λ n b e. b) table h)
        (ground arith, tt)

  attempt-InBudget :
      (table : List Notification)
      → max_attempts (failed_rows (existing_of v a table)) + 1 ≤ max_alert_delivery_attempts
      → All InBudget table
      → All InBudget (record_attempt v a channel success services table)
  unfolding record_attempt
  attempt-InBudget table room h =
      from (next_attempts success (failed_rows (existing_of v a table))) (ground arith)
        (has_rows (failed_rows (existing_of v a table)))
    where
      from :
          (attempts : ℕ)
          → attempts ≤ max_alert_delivery_attempts
          → (rows : Bool)
          → All InBudget (attempt_from v a channel success services attempts table rows)
      from attempts le true =
          All-update_where InBudget (is_failed_row v a)
            (rewrite_row channel success attempts services) (λ n b e. le) table h
      from attempts le false = All-append InBudget table _ h (le, tt)

  -- A decision to retry leaves room, and one to deliver first finds no failed row.
  room_of :
      (existing : List Notification)
      → (delivery_action existing services ≡ retry)
        ⊎ (delivery_action existing services ≡ deliver_first)
      → max_attempts (failed_rows existing) + 1 ≤ max_alert_delivery_attempts
  unfolding delivery_action after_success after_failure max_attempts
  room_of existing (inl e) = ground arith
  room_of existing (inr e) =
      let empty : failed_rows existing ≡ [] =
        nil_of_last-eq-none (failed_rows existing) (ground arith) in
      rw empty (omega arith)

  -- A recorded delivery keeps every count of attempts within the budget.
  pub record_delivery-InBudget :
      (table : List Notification) (action : Action)
      → delivery_action (existing_of v a table) services ≡ action
      → action ≢ skip
      → action ≢ give_up
      → All InBudget table
      → All InBudget (record_delivery v a action channel success services table)
  unfolding record_delivery
  record_delivery-InBudget table skip e ns ng h = absurd (ns refl)
  record_delivery-InBudget table give_up e ns ng h = absurd (ng refl)
  record_delivery-InBudget table resend e ns ng h = resend-InBudget table h
  record_delivery-InBudget table retry e ns ng h =
      attempt-InBudget table (room_of (existing_of v a table) (inl e)) h
  record_delivery-InBudget table deliver_first e ns ng h =
      attempt-InBudget table (room_of (existing_of v a table) (inr e)) h
