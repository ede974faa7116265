-- ===== src/Alerting/Recorded.antt =====
-- The rows that a decision reads and a recorded delivery writes for a pair, against the episode that
-- they stand for.
use argus_sbomguard.Common.{
  ℕ, ◌+◌, none, some, Bool, true, false, List, [], ◌∷◌, ◌++◌, last, update_where, nat_eq, ◌≡◌, refl,
  sym, ap, ◌∙◌, arith, ==_refl, Option-cases, inl, inr, ◌≢◌, if◌then◌else◌, All, filter-append,
}
use argus_sbomguard.Models.{Notification, Channel, is_failed}
use argus_sbomguard.Alerting.Decision.{
  services_of, failed_rows, sent_rows, max_attempts, Action, skip, give_up, resend, retry,
  deliver_first, after_success, after_failure, delivery_action,
}
use argus_sbomguard.Alerting.Record.{
  is_pair, existing_of, has_rows, new_row, is_active_row, close_row, rewrite_row, record_resend,
  record_attempt, record_delivery,
}
use argus_sbomguard.Alerting.Check.{is_quiet}
use argus_sbomguard.Alerting.Rows.{
  nil_of_last-eq-none, sent_rows-append, existing_of-snoc, existing_of-rewrite,
}
use argus_sbomguard.Alerting.Settled.{none_sent_of}
use argus_sbomguard.Alerting.Episode.{
  Episode, delivered, failing, failing_of, delivered_of, episode_of, next_action, tried,
  attempts_of, after_action,
}

-- The decision depends on the rows only by their episode.
pub delivery_action-episode_of :
    (existing : List Notification) (current : List ℕ)
    → delivery_action existing current ≡ next_action (episode_of existing) current
unfolding delivery_action after_success after_failure next_action episode_of
delivery_action-episode_of existing current = elim (Option-cases (last (sent_rows existing))) [
  | inr (n, sent) ↦ rw sent refl
  | inl none_sent ↦ elim (Option-cases (last (failed_rows existing))) [
    | inl none_failed ↦ rw (none_sent, none_failed) refl
    | inr (n, failed) ↦ rw (none_sent, failed) (ground arith)
  ]
]

module _ (services : List ℕ) (k : ℕ) where
  -- The row is about the services, and counts k attempts.
  abbrev IsLike : Notification → Type 0
  IsLike n = (services_of n ≡ services) × (n.attempts ≡ k)

  max_attempts-alike :
      (rows : List Notification) → All IsLike rows → has_rows rows ≡ true → max_attempts rows ≡ k
  unfolding max_attempts
  max_attempts-alike [] h some_row = cc
  max_attempts-alike (n ∷ []) h some_row = omega (arith, h.0.1)
  max_attempts-alike (n ∷ m ∷ rows) h some_row =
      omega (arith, h.0.1, max_attempts-alike (m ∷ rows) h.1 refl)

  failing_of-alike :
      (rows : List Notification) (attempts : ℕ)
      → All IsLike rows
      → has_rows rows ≡ true
      → failing_of (last rows) attempts ≡ failing services attempts
  failing_of-alike [] attempts h some_row = cc
  failing_of-alike (n ∷ []) attempts h some_row = rw h.0.0 refl
  failing_of-alike (n ∷ m ∷ rows) attempts h some_row =
      failing_of-alike (m ∷ rows) attempts h.1 refl

  delivered_of-alike :
      (rows : List Notification) (otherwise : Episode)
      → All IsLike rows
      → has_rows rows ≡ true
      → delivered_of (last rows) otherwise ≡ delivered services
  delivered_of-alike [] otherwise h some_row = cc
  delivered_of-alike (n ∷ []) otherwise h some_row = rw h.0.0 refl
  delivered_of-alike (n ∷ m ∷ rows) otherwise h some_row =
      delivered_of-alike (m ∷ rows) otherwise h.1 refl

  module _ (channel : Channel) where
    abbrev rewritten : Bool → List Notification → List Notification
    rewritten success =
        update_where (λ n. is_failed n.status) (rewrite_row channel success k services)

    sent-alike :
        (rows : List Notification)
        → sent_rows rows ≡ []
        → All IsLike (sent_rows (rewritten true rows))
    sent-alike [] h = tt
    sent-alike (n ∷ rows) h = ground (arith, sent-alike rows)

    has_rows-sent :
        (rows : List Notification)
        → has_rows (failed_rows rows) ≡ true
        → has_rows (sent_rows (rewritten true rows)) ≡ true
    has_rows-sent [] h = cc
    has_rows-sent (n ∷ rows) h = ground (arith, has_rows-sent rows)

    none_sent :
        (rows : List Notification) → sent_rows rows ≡ [] → sent_rows (rewritten false rows) ≡ []
    none_sent [] h = refl
    none_sent (n ∷ rows) h = ground (arith, none_sent rows)

    failed-alike : (rows : List Notification) → All IsLike (failed_rows (rewritten false rows))
    failed-alike [] = tt
    failed-alike (n ∷ rows) = ground (arith, failed-alike rows)

    has_rows-failed :
        (rows : List Notification)
        → has_rows (failed_rows rows) ≡ true
        → has_rows (failed_rows (rewritten false rows)) ≡ true
    has_rows-failed [] h = cc
    has_rows-failed (n ∷ rows) h = ground (arith, has_rows-failed rows)

    -- Rewritten failed rows are the episode of the message that was tried.
    episode_of-delivered :
        (rows : List Notification)
        → sent_rows rows ≡ []
        → has_rows (failed_rows rows) ≡ true
        → episode_of (rewritten true rows) ≡ delivered services
    unfolding episode_of
    episode_of-delivered rows unsent some_failed =
        delivered_of-alike (sent_rows (rewritten true rows)) _ (sent-alike rows unsent)
          (has_rows-sent rows some_failed)

    episode_of-failing :
        (rows : List Notification)
        → sent_rows rows ≡ []
        → has_rows (failed_rows rows) ≡ true
        → episode_of (rewritten false rows) ≡ failing services k
    unfolding episode_of
    episode_of-failing rows unsent some_failed =
        let after = failed_rows (rewritten false rows) in
        let some_after = has_rows-failed rows some_failed in
        rw (none_sent rows unsent) (
          failing_of-alike after (max_attempts after) (failed-alike rows) some_after
          ∙ ap (failing services) (max_attempts-alike after (failed-alike rows) some_after))

module _ (v a : ℕ) (channel : Channel) (services : List ℕ) where
  -- A new row after rows of which none is sent or failed.
  episode_of-new_row :
      (success : Bool) (rows : List Notification)
      → sent_rows rows ≡ []
      → failed_rows rows ≡ []
      → episode_of (rows ++ new_row v a services channel success (if success then 0 else 1) ∷ [])
        ≡ tried success services 0
  unfolding episode_of max_attempts
  episode_of-new_row true rows s f =
      rw (sent_rows-append rows (new_row v a services channel true 0 ∷ []), s) refl
  episode_of-new_row false rows s f =
      rw
        (
          sent_rows-append rows (new_row v a services channel false 1 ∷ []),
          filter-append (λ n. is_failed n.status) rows (new_row v a services channel false 1 ∷ []),
          s,
          f,
        )
        refl

  is_pair-new_row :
      (success : Bool) (k : ℕ) → is_pair v a (new_row v a services channel success k) ≡ true
  is_pair-new_row success k = rw (==_refl v, ==_refl a)

  sent_rows-closed :
      (table : List Notification)
      → sent_rows (existing_of v a (update_where (is_active_row v a) close_row table)) ≡ []
  sent_rows-closed [] = refl
  sent_rows-closed (n ∷ table) = ground (arith, sent_rows-closed table)

  failed_rows-closed :
      (table : List Notification)
      → failed_rows (existing_of v a (update_where (is_active_row v a) close_row table)) ≡ []
  failed_rows-closed [] = refl
  failed_rows-closed (n ∷ table) = ground (arith, failed_rows-closed table)

  episode_of-resend :
      (success : Bool) (table : List Notification)
      → episode_of (existing_of v a (record_resend v a channel success services table))
        ≡ tried success services 0
  unfolding record_resend
  episode_of-resend success table =
      let closed = update_where (is_active_row v a) close_row table in
      let k : ℕ = if success then 0 else 1 in
      ap episode_of (
        existing_of-snoc v a closed (new_row v a services channel success k)
          (is_pair-new_row success k))
      ∙ episode_of-new_row success (existing_of v a closed) (sent_rows-closed table)
          (failed_rows-closed table)

  episode_of-rewritten :
      (success : Bool) (table : List Notification)
      → sent_rows (existing_of v a table) ≡ []
      → has_rows (failed_rows (existing_of v a table)) ≡ true
      → episode_of (existing_of v a (record_attempt v a channel success services table))
        ≡ tried success services (max_attempts (failed_rows (existing_of v a table)))
  unfolding record_attempt
  episode_of-rewritten true table s f = rw f (
      ap episode_of (existing_of-rewrite v a channel true 0 services table)
      ∙ episode_of-delivered services 0 channel (existing_of v a table) s f)
  episode_of-rewritten false table s f =
      let k = max_attempts (failed_rows (existing_of v a table)) + 1 in
      rw f (
        ap episode_of (existing_of-rewrite v a channel false k services table)
        ∙ episode_of-failing services k channel (existing_of v a table) s f)

  episode_of-first :
      (success : Bool) (table : List Notification)
      → sent_rows (existing_of v a table) ≡ []
      → failed_rows (existing_of v a table) ≡ []
      → episode_of (existing_of v a (record_attempt v a channel success services table))
        ≡ tried success services 0
  unfolding record_attempt max_attempts
  episode_of-first true table s f = rw f (
      ap episode_of
        (existing_of-snoc v a table (new_row v a services channel true 0) (is_pair-new_row true 0))
      ∙ episode_of-new_row true (existing_of v a table) s f)
  episode_of-first false table s f = rw f (
      ap episode_of (
        existing_of-snoc v a table (new_row v a services channel false 1) (is_pair-new_row false 1))
      ∙ episode_of-new_row false (existing_of v a table) s f)

  -- What the failed rows are when the decision is to retry, and to deliver first.
  retry_fails :
      (existing : List Notification)
      → delivery_action existing services ≡ retry
      → last (failed_rows existing) ≢ none
  unfolding delivery_action after_success after_failure
  retry_fails existing e none_failed = ground arith

  has_rows_of-last :
      (rows : List Notification) (n : Notification) → last rows ≡ some n → has_rows rows ≡ true
  has_rows_of-last [] n e = cc
  has_rows_of-last (m ∷ rows) n e = refl

  retry-rows :
      (existing : List Notification)
      → delivery_action existing services ≡ retry
      → (has_rows (failed_rows existing) ≡ true)
        × (attempts_of (episode_of existing) ≡ max_attempts (failed_rows existing))
  unfolding episode_of
  retry-rows existing e = elim (Option-cases (last (failed_rows existing))) [
    | inl none_failed ↦ absurd (retry_fails existing e none_failed)
    | inr (n, failed) ↦ (
      has_rows_of-last (failed_rows existing) n failed,
      rw (none_sent_of v a channel services existing (inl e), failed) refl,
    )
  ]

  first-rows :
      (existing : List Notification)
      → delivery_action existing services ≡ deliver_first
      → failed_rows existing ≡ []
  unfolding delivery_action after_success after_failure
  first-rows existing e = nil_of_last-eq-none (failed_rows existing) (ground arith)

  -- A recorded delivery moves the episode of the pair on.
  pub record_delivery-episode_of :
      (table : List Notification) (action : Action) (success : Bool)
      → delivery_action (existing_of v a table) services ≡ action
      → is_quiet action ≡ false
      → episode_of (existing_of v a (record_delivery v a action channel success services table))
        ≡ after_action action (episode_of (existing_of v a table)) services success
  unfolding record_delivery
  record_delivery-episode_of table skip success e loud = cc
  record_delivery-episode_of table give_up success e loud = cc
  record_delivery-episode_of table resend success e loud = episode_of-resend success table
  record_delivery-episode_of table retry success e loud =
      let (some_failed, attempts) = retry-rows (existing_of v a table) e in
      episode_of-rewritten success table
        (none_sent_of v a channel services (existing_of v a table) (inl e)) some_failed
      ∙ ap (tried success services) (sym attempts)
  record_delivery-episode_of table deliver_first success e loud =
      episode_of-first success table
        (none_sent_of v a channel services (existing_of v a table) (inr e))
        (first-rows (existing_of v a table) e)
