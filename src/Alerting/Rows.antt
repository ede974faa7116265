-- ===== src/Alerting/Rows.antt =====
-- How the writes of a delivery change the rows of a pair, and of the other pairs.
use argus_sbomguard.Common.{
  ℕ, none, Bool, true, false, ◌&&◌, List, [], ◌∷◌, ◌++◌, filter, last, update_where, ◌==◌, nat_eq,
  ◌≡◌, refl, ◌∙◌, arith, filter-append, if◌then◌else◌,
}
use argus_sbomguard.Models.{Notification, Channel, is_failed}
use argus_sbomguard.Alerting.Decision.{sent_rows, Action, resend}
use argus_sbomguard.Alerting.Record.{
  is_pair, existing_of, new_row, is_active_row, close_row, is_failed_row, rewrite_row, attempt_from,
  record_resend, record_attempt, record_delivery,
}

module _ {ℓ} {A : Type ℓ} where
  pub nil_of_last-eq-none : (l : List A) → last l ≡ none → l ≡ []
  nil_of_last-eq-none [] h = refl
  nil_of_last-eq-none (x ∷ []) h = cc
  nil_of_last-eq-none (x ∷ y ∷ l) h = cc (nil_of_last-eq-none (y ∷ l) h)

pub sent_rows-append :
    (xs ys : List Notification) → sent_rows (xs ++ ys) ≡ sent_rows xs ++ sent_rows ys
sent_rows-append xs ys = simp filter-append

-- A row that fits the pair, at the end of the table, is the last of its rows.
pub existing_of-snoc :
    (v a : ℕ) (table : List Notification) (n : Notification)
    → is_pair v a n ≡ true
    → existing_of v a (table ++ n ∷ []) ≡ existing_of v a table ++ n ∷ []
existing_of-snoc v a table n h = rw (filter-append (is_pair v a) table (n ∷ []), h)

-- A write to rows of another pair leaves the rows of this one as they are.
pub filter-update_where_other {ℓ} :
    {A : Type ℓ} (p q : A → Bool) (f : A → A)
    → ((x : A) → q x ≡ true → (p x ≡ false) × (p (f x) ≡ false))
    → (l : List A) → filter p (update_where q f l) ≡ filter p l
filter-update_where_other p q f h [] = refl
filter-update_where_other p q f h (x ∷ l) = ground (arith, h x, filter-update_where_other p q f h l)

module _ (v a w b : ℕ) (other : (w == v && b == a) ≡ false) where
  pair_exclusive : (n : Notification) → is_pair v a n ≡ true → is_pair w b n ≡ false
  pair_exclusive n h = ground arith

  module _ (channel : Channel) (success : Bool) (services : List ℕ)
      (table : List Notification) where
    existing_of-snoc_other :
        (l : List Notification) (attempts : ℕ)
        → existing_of w b (l ++ new_row v a services channel success attempts ∷ [])
          ≡ existing_of w b l
    existing_of-snoc_other [] attempts = ground arith
    existing_of-snoc_other (x ∷ l) attempts = ground (arith, existing_of-snoc_other l attempts)

    record_resend_other :
        existing_of w b (record_resend v a channel success services table) ≡ existing_of w b table
    unfolding record_resend
    record_resend_other =
        existing_of-snoc_other (update_where (is_active_row v a) close_row table)
          (if success then 0 else 1)
        ∙ filter-update_where_other (is_pair w b) (is_active_row v a) close_row
            (λ n h. ground (arith, pair_exclusive n)) table

    attempt_from_other :
        (attempts : ℕ) (rows : Bool)
        → existing_of w b (attempt_from v a channel success services attempts table rows)
          ≡ existing_of w b table
    attempt_from_other attempts true =
        filter-update_where_other (is_pair w b) (is_failed_row v a)
          (rewrite_row channel success attempts services) (λ n h. ground (arith, pair_exclusive n))
          table
    attempt_from_other attempts false = existing_of-snoc_other table attempts

    record_attempt_other :
        existing_of w b (record_attempt v a channel success services table) ≡ existing_of w b table
    unfolding record_attempt
    record_attempt_other = attempt_from_other _ _

    -- A delivery for one pair leaves the notifications of every other pair as they are.
    pub existing_of-record_delivery_other :
        (action : Action)
        → existing_of w b (record_delivery v a action channel success services table)
          ≡ existing_of w b table
    unfolding record_delivery
    existing_of-record_delivery_other resend = record_resend_other
    existing_of-record_delivery_other _ = record_attempt_other

-- A write to the failed rows of a pair is a write to the failed ones of its rows.
pub existing_of-rewrite :
    (v a : ℕ) (channel : Channel) (success : Bool) (attempts : ℕ) (services : List ℕ)
    (table : List Notification)
    → existing_of v a
        (update_where (is_failed_row v a) (rewrite_row channel success attempts services) table)
      ≡ update_where
          (λ n. is_failed n.status)
          (rewrite_row channel success attempts services)
          (existing_of v a table)
existing_of-rewrite v a channel success attempts services [] = refl
existing_of-rewrite v a channel success attempts services (n ∷ table) =
    ground (arith, existing_of-rewrite v a channel success attempts services table)
