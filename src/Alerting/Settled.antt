-- ===== src/Alerting/Settled.antt =====
-- What a delivery leaves behind for its own pair.
use argus_sbomguard.Common.{
  ℕ, Option, none, some, true, List, [], ◌∷◌, ◌++◌, last, update_where, nat_eq, ◌≡◌, refl, ap, ◌∙◌,
  arith, last-snoc, same_set_refl, ==_refl, Bool-cases, ◌⊎◌, inl, inr, ◌≢◌,
}
use argus_sbomguard.Models.{Notification, Channel}
use argus_sbomguard.Alerting.Decision.{
  services_of, failed_rows, sent_rows, Action, skip, give_up, resend, retry, deliver_first,
  after_success, delivery_action,
}
use argus_sbomguard.Alerting.Record.{
  is_pair, existing_of, has_rows, new_row, is_active_row, close_row, is_failed_row, rewrite_row,
  record_resend, record_attempt, record_delivery,
}
use argus_sbomguard.Alerting.Rows.{nil_of_last-eq-none, sent_rows-append, existing_of-snoc}

-- With the last sent row for the current services there is nothing to do.
pub skip_of_last_sent :
    (existing : List Notification) (services : List ℕ) (n : Notification)
    → last (sent_rows existing) ≡ some n
    → services_of n ≡ services
    → delivery_action existing services ≡ skip
unfolding delivery_action
skip_of_last_sent existing services n h e = rw (h, after_success) (rw (e, same_set_refl services))

module _ (v a : ℕ) (channel : Channel) (services : List ℕ) where
  abbrev fresh : Notification
  fresh = new_row v a services channel true 0

  is_pair-fresh : is_pair v a fresh ≡ true
  is_pair-fresh = rw (==_refl v, ==_refl a)

  -- A new sent row settles the pair.
  snoc-skip :
      (table : List Notification)
      → delivery_action (existing_of v a (table ++ fresh ∷ [])) services ≡ skip
  snoc-skip table =
      skip_of_last_sent (existing_of v a (table ++ fresh ∷ [])) services fresh
        (ap (λ l. last (sent_rows l)) (existing_of-snoc v a table fresh is_pair-fresh)
          ∙ ap last (sent_rows-append (existing_of v a table) (fresh ∷ []))
          ∙ last-snoc (sent_rows (existing_of v a table)) fresh)
        refl

  abbrev rewritten : List Notification → List Notification
  rewritten = update_where (is_failed_row v a) (rewrite_row channel true 0 services)

  abbrev Serves : Option Notification → Type 0
  Serves none = ⊥
  Serves (some n) = services_of n ≡ services

  abbrev AllServe : List Notification → Type 0
  AllServe [] = Unit
  AllServe (n ∷ l) = (services_of n ≡ services) × AllServe l

  rewritten-AllServe :
      (table : List Notification)
      → sent_rows (existing_of v a table) ≡ []
      → AllServe (sent_rows (existing_of v a (rewritten table)))
  rewritten-AllServe [] h = tt
  rewritten-AllServe (n ∷ table) h = ground (arith, rewritten-AllServe table)

  rewritten-has_rows :
      (table : List Notification)
      → has_rows (failed_rows (existing_of v a table)) ≡ true
      → has_rows (sent_rows (existing_of v a (rewritten table))) ≡ true
  rewritten-has_rows [] h = cc
  rewritten-has_rows (n ∷ table) h = ground (arith, rewritten-has_rows table)

  last-Serves :
      (l : List Notification)
      → AllServe l
      → has_rows l ≡ true
      → (n : Notification) × (last l ≡ some n) × (services_of n ≡ services)
  last-Serves [] s h = cc
  last-Serves (n ∷ []) s h = (n, refl, s.0)
  last-Serves (n ∷ m ∷ l) s h = last-Serves (m ∷ l) s.1 refl

  -- Rewritten failed rows settle the pair.
  rewritten-skip :
      (table : List Notification)
      → sent_rows (existing_of v a table) ≡ []
      → has_rows (failed_rows (existing_of v a table)) ≡ true
      → delivery_action (existing_of v a (rewritten table)) services ≡ skip
  rewritten-skip table none_sent some_failed =
      let (n, e, s) =
        last-Serves (sent_rows (existing_of v a (rewritten table)))
          (rewritten-AllServe table none_sent) (rewritten-has_rows table some_failed) in
      skip_of_last_sent (existing_of v a (rewritten table)) services n e s

  -- A decision to retry or to deliver first is made only with no sent row.
  pub none_sent_of :
      (existing : List Notification)
      → (delivery_action existing services ≡ retry)
        ⊎ (delivery_action existing services ≡ deliver_first)
      → sent_rows existing ≡ []
  unfolding delivery_action after_success
  none_sent_of existing h = nil_of_last-eq-none (sent_rows existing) (ground arith)

  record_attempt-skip :
      (table : List Notification)
      → sent_rows (existing_of v a table) ≡ []
      → delivery_action (existing_of v a (record_attempt v a channel true services table)) services
        ≡ skip
  unfolding record_attempt
  record_attempt-skip table h = elim (Bool-cases (has_rows (failed_rows (existing_of v a table)))) [
    | inl t ↦ rw t (rewritten-skip table h t)
    | inr f ↦ rw f (snoc-skip table)
  ]

-- After a successful delivery the pair is settled: the next decision for the same services is SKIP.
pub record_delivery-skip :
    (v a : ℕ) (channel : Channel) (services : List ℕ) (table : List Notification) (action : Action)
    → delivery_action (existing_of v a table) services ≡ action
    → action ≢ skip
    → action ≢ give_up
    → delivery_action
        (existing_of v a (record_delivery v a action channel true services table))
        services
      ≡ skip
unfolding record_delivery record_resend
record_delivery-skip v a channel services table skip e ns ng = absurd (ns refl)
record_delivery-skip v a channel services table give_up e ns ng = absurd (ng refl)
record_delivery-skip v a channel services table resend e ns ng =
    snoc-skip v a channel services (update_where (is_active_row v a) close_row table)
record_delivery-skip v a channel services table retry e ns ng =
    record_attempt-skip v a channel services table
      (none_sent_of v a channel services (existing_of v a table) (inl e))
record_delivery-skip v a channel services table deliver_first e ns ng =
    record_attempt-skip v a channel services table
      (none_sent_of v a channel services (existing_of v a table) (inr e))
