-- ===== src/Alerting/Failing.antt =====
-- A delivery that fails at every attempt: the attempts are counted up to five, and then nothing is
-- sent or written any more.
use argus_sbomguard.Common.{
  ℕ, zero, suc, ◌+◌, ◌<◌, min, true, false, List, [], ◌∷◌, ◌++◌, update_where, ◌≡◌, refl, ap, ◌∙◌,
  arith, same_set_refl, max, ==_refl, nat_eq, map, ◌⊎◌, inl, inr, ◌≤◌,
}
use argus_sbomguard.Models.{Notification, AlertRule, Vulnerability, is_failed, Channel}
use argus_sbomguard.Notifications.{Network, Message}
use argus_sbomguard.Alerting.{
  AlertSettings, AlertTables, Progress, give_up, retry, deliver_first, max_attempts, after_failure,
  after_success, delivery_action, existing_of, deliver, act, visit, is_pair, rewrite_row, new_row,
  record_attempt, record_delivery, project_name_of, service_name_of,
}
use argus_sbomguard.Alerting.Rows.{existing_of-snoc, existing_of-rewrite}

module _ (v a : ℕ) (channel : Channel) (services : List ℕ) where
  abbrev pub failed_row : ℕ → Notification
  failed_row k = new_row v a services channel false k

  action_first : delivery_action [] services ≡ deliver_first
  unfolding delivery_action after_success after_failure
  action_first = refl

  action_retry : (k : ℕ) → k < 5 → delivery_action (failed_row k ∷ []) services ≡ retry
  unfolding delivery_action after_success after_failure max_attempts
  action_retry k h = rw (same_set_refl services) (ground arith)

  action_give_up : delivery_action (failed_row 5 ∷ []) services ≡ give_up
  unfolding delivery_action after_success after_failure max_attempts
  action_give_up = rw (same_set_refl services)

  is_pair-failed_row : (k : ℕ) → is_pair v a (failed_row k) ≡ true
  is_pair-failed_row k = rw (==_refl v, ==_refl a)

  recorded_first :
      (table : List Notification)
      → existing_of v a table ≡ []
      → existing_of v a (record_attempt v a channel false services table) ≡ failed_row 1 ∷ []
  unfolding record_attempt max_attempts
  recorded_first table e = rw e (
      existing_of-snoc v a table (failed_row 1) (is_pair-failed_row 1)
      ∙ ap (λ l. l ++ failed_row 1 ∷ []) e)

  recorded_retry :
      (k : ℕ) (table : List Notification)
      → existing_of v a table ≡ failed_row k ∷ []
      → existing_of v a (record_attempt v a channel false services table) ≡ failed_row (k + 1) ∷ []
  unfolding record_attempt max_attempts
  recorded_retry k table e = rw e (
      existing_of-rewrite v a channel false (max k 0 + 1) services table
      ∙ ap
          (update_where (λ n. is_failed n.status)
            (rewrite_row channel false (max k 0 + 1) services))
          e
      ∙ ap (λ j. failed_row (j + 1) ∷ []) (omega arith))

compare_five : (n : ℕ) → (suc n < 5) ⊎ (5 ≤ suc n)
compare_five n = omega arith

module _ (settings : AlertSettings) (network : Network) (tables : AlertTables) (alert : AlertRule)
    (v : Vulnerability) (services : List ℕ) where
  -- So many rounds for one pair.
  abbrev pub visits : ℕ → Progress → Progress
  visits zero p = p
  visits (suc n) p = visit settings network tables alert v services (visits n p)

  abbrev pub rows_of : Progress → List Notification
  rows_of p = existing_of v.id alert.id p.notifications

  -- No message about the pair is delivered.
  abbrev pub IsUnreachable : Type 0
  IsUnreachable =
      (project : ℕ) (outbox : List Message)
      → (deliver settings network alert v (project_name_of tables.projects project)
          (map (service_name_of tables.services) services) outbox).1
        ≡ false

  module _ (failing : IsUnreachable) where
    abbrev row : ℕ → Notification
    row = failed_row v.id alert.id alert.notification_type services

    visit_first :
        (p : Progress)
        → rows_of p ≡ []
        → rows_of (visit settings network tables alert v services p) ≡ row 1 ∷ []
    unfolding visit act record_delivery
    visit_first p e =
        rw
          (
            e,
            action_first v.id alert.id alert.notification_type services,
            failing alert.project_id p.outbox,
          )
          (unfold deliver in
            recorded_first v.id alert.id alert.notification_type services p.notifications e)

    visit_retry :
        (k : ℕ) (p : Progress)
        → k < 5
        → rows_of p ≡ row k ∷ []
        → rows_of (visit settings network tables alert v services p) ≡ row (k + 1) ∷ []
    unfolding visit act record_delivery
    visit_retry k p h e =
        rw
          (
            e,
            action_retry v.id alert.id alert.notification_type services k h,
            failing alert.project_id p.outbox,
          )
          (unfold deliver in
            recorded_retry v.id alert.id alert.notification_type services k p.notifications e)

    visit_over :
        (p : Progress)
        → rows_of p ≡ row 5 ∷ []
        → visit settings network tables alert v services p ≡ p
    unfolding visit
    visit_over p e = rw (e, action_give_up v.id alert.id alert.notification_type services)

    rows_of-visits :
        (p : Progress)
        → rows_of p ≡ []
        → (n : ℕ) → rows_of (visits (suc n) p) ≡ row (min (suc n) 5) ∷ []
    rows_of-visits p e zero = visit_first p e
    rows_of-visits p e (suc n) = from (compare_five n) (rows_of-visits p e n)
      where
        from :
            (suc n < 5) ⊎ (5 ≤ suc n)
            → rows_of (visits (suc n) p) ≡ row (min (suc n) 5) ∷ []
            → rows_of (visits (suc (suc n)) p) ≡ row (min (suc (suc n)) 5) ∷ []
        from (inl h) r =
            visit_retry (min (suc n) 5) (visits (suc n) p) (omega arith) r
            ∙ ap (λ k. row k ∷ []) (omega arith)
        from (inr h) r =
            let five : min (suc n) 5 ≡ 5 = omega arith in
            ap rows_of (visit_over (visits (suc n) p) (r ∙ ap (λ k. row k ∷ []) five))
            ∙ r
            ∙ ap (λ k. row k ∷ []) (omega arith)

-- A pair with no notification whose delivery fails in every round has, after n + 1 rounds with the
-- same services, the one failed notification with min (n + 1) 5 attempts.
pub failing_rounds :
    (settings : AlertSettings) (network : Network) (tables : AlertTables) (alert : AlertRule)
    (v : Vulnerability) (services : List ℕ) (p : Progress)
    → IsUnreachable settings network tables alert v services
    → existing_of v.id alert.id p.notifications ≡ []
    → (n : ℕ)
    → existing_of v.id alert.id
        (visits settings network tables alert v services (suc n) p).notifications
      ≡ new_row v.id alert.id services alert.notification_type false (min (suc n) 5) ∷ []
failing_rounds settings network tables alert v services p failing e n =
    rows_of-visits settings network tables alert v services failing p e n

-- From the fifth failed round on, a round neither sends a message nor writes a notification.
pub failing_rounds_end :
    (settings : AlertSettings) (network : Network) (tables : AlertTables) (alert : AlertRule)
    (v : Vulnerability) (services : List ℕ) (p : Progress)
    → IsUnreachable settings network tables alert v services
    → existing_of v.id alert.id p.notifications ≡ []
    → (n : ℕ)
    → visits settings network tables alert v services (n + 5) p
      ≡ visits settings network tables alert v services 5 p
failing_rounds_end settings network tables alert v services p failing e zero = refl
failing_rounds_end settings network tables alert v services p failing e (suc n) =
    let at : ℕ → Progress = λ k. visits settings network tables alert v services k p in
    let next : suc n + 5 ≡ suc (n + 5) = omega arith in
    ap at next
    ∙ ap (visit settings network tables alert v services)
        (failing_rounds_end settings network tables alert v services p failing e n)
    ∙ visit_over settings network tables alert v services failing (at 5)
        (rows_of-visits settings network tables alert v services failing p e 4)
