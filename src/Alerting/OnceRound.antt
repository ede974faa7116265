-- ===== src/Alerting/OnceRound.antt =====
-- A second round of `do_check_alerts` right after a first one does nothing.
use argus_sbomguard.Common.{
  ℕ, true, List, [], ◌∷◌, ◌==◌, nat_eq, pair_eq, ◌&&◌, ◌≡◌, refl, sym, ap, ◌∙◌, arith, All, Memᴰ,
  Bool-cases, Outcome, return, >>=-eq-return, inl, inr,
}
use argus_sbomguard.Models.{AlertRule, Vulnerability}
use argus_sbomguard.Notifications.{Network}
use argus_sbomguard.Alerting.{
  AlertSettings, AlertTables, Progress, OpenRow, delivery_action, is_quiet, existing_of,
  alert_by_id, check_pairs, check_each, services_of_pair,
}
use argus_sbomguard.Alerting.Rounds.{
  Concerns, Visits, IsQuietAt, step_of, visit_of, check_pair-cases, check_each-inv_from,
  check_pairs-inv,
}
use argus_sbomguard.Alerting.Once.{
  IsReliable, AreIndexed, IsQuiet, visit_of_quiet, visit-IsQuiet, existing_of-visit_other,
}

module _ (settings : AlertSettings) (network : Network) (tables : AlertTables) (rows : List OpenRow)
    (alerts : List AlertRule) (pairs : List (ℕ × ℕ)) (reliable : IsReliable settings network)
    (indexed : AreIndexed alerts) where
  abbrev step : AlertRule → ℕ × ℕ → Progress → Outcome Progress
  step = step_of settings network tables rows

  -- A round does nothing for the pair.
  abbrev IsDone : AlertRule → ℕ × ℕ → Progress → Type 0
  IsDone alert pair q = step alert pair q ≡ return q

  same_alert : (a b : AlertRule) → Memᴰ a alerts → Memᴰ b alerts → a.id ≡ b.id → a ≡ b
  same_alert a b ma mb e = cc (indexed a ma, indexed b mb, ap (alert_by_id alerts) e)

  pub IsQuiet-of_done :
      (alert : AlertRule) (pair : ℕ × ℕ) (v : Vulnerability) (q : Progress)
      → visit_of settings network tables rows alert pair v q ≡ q
      → IsQuiet settings network tables v.id alert.id
          (services_of_pair pair.0 pair.1 rows)
          q.notifications
  IsQuiet-of_done alert pair v q e =
      ap
        (λ (s : Progress). is_quiet (
          delivery_action (existing_of v.id alert.id s.notifications)
            (services_of_pair pair.0 pair.1 rows)))
        (sym e)
      ∙ visit-IsQuiet settings network tables reliable alert v (services_of_pair pair.0 pair.1 rows)
          q

  IsDone-of_quiet :
      (alert : AlertRule) (pair : ℕ × ℕ) (v : Vulnerability) (q : Progress)
      → Visits settings network tables rows alert pair v
      → IsQuietAt settings network tables rows alert pair v q
      → IsDone alert pair q
  IsDone-of_quiet alert pair v q visited quiet = elim (visited q) [
    | inr (raised, loud) ↦ absurd (loud quiet)
    | inl made ↦
        made
        ∙ ap return (
            visit_of_quiet settings network tables alert v (services_of_pair pair.0 pair.1 rows) q
              quiet)
  ]

  still_of_done :
      (alert : AlertRule) (pair : ℕ × ℕ) (v : Vulnerability) (q r : Progress)
      → Visits settings network tables rows alert pair v
      → step alert pair q ≡ return r
      → visit_of settings network tables rows alert pair v q ≡ r
  still_of_done alert pair v q r visited done = elim (visited q) [
    | inr (raised, loud) ↦ cc (raised, done)
    | inl made ↦ cc (made, done)
  ]

  made-IsDone :
      (alert : AlertRule) (pair : ℕ × ℕ) (q r : Progress)
      → step alert pair q ≡ return r
      → IsDone alert pair r
  made-IsDone alert pair q r e = elim (check_pair-cases settings network tables rows alert pair) [
    | inl passed ↦ passed r
    | inr (inl raised) ↦ cc (raised q)
    | inr (inr (v, c, visited)) ↦ IsDone-of_quiet alert pair v r visited (
        ap
          (λ (s : Progress). is_quiet (
            delivery_action (existing_of v.id alert.id s.notifications)
              (services_of_pair pair.0 pair.1 rows)))
          (sym (still_of_done alert pair v q r visited e))
        ∙ visit-IsQuiet settings network tables reliable alert v
            (services_of_pair pair.0 pair.1 rows) q)
  ]

  -- The same notification rows are those of one pair, with the same services.
  IsQuiet-of_same :
      (alert : AlertRule) (pair : ℕ × ℕ) (v : Vulnerability) (other : AlertRule)
      (other_pair : ℕ × ℕ) (w : Vulnerability) (q : Progress)
      → Concerns settings network tables rows alert pair v
      → Concerns settings network tables rows other other_pair w
      → v.id ≡ w.id
      → alert ≡ other
      → IsQuiet settings network tables v.id alert.id
          (services_of_pair pair.0 pair.1 rows)
          q.notifications
      → IsQuiet settings network tables w.id other.id
          (services_of_pair other_pair.0 other_pair.1 rows)
          q.notifications
  IsQuiet-of_same alert pair v other other_pair w q c d e f quiet =
      let ids : alert.id ≡ other.id = ap (λ (a : AlertRule). a.id) f in
      let projects : pair.0 ≡ other_pair.0 =
        cc (c.same_project, d.same_project, ap (λ (a : AlertRule). a.project_id) f) in
      let vulns : pair.1 ≡ other_pair.1 = cc (c.same_vulnerability, d.same_vulnerability) in
      let move : is_quiet (
            delivery_action (existing_of w.id other.id q.notifications)
              (services_of_pair other_pair.0 other_pair.1 rows))
          ≡ is_quiet (
              delivery_action (existing_of v.id alert.id q.notifications)
                (services_of_pair pair.0 pair.1 rows)) =
        λ i. is_quiet (
          delivery_action (existing_of (sym e i) (sym ids i) q.notifications)
            (services_of_pair (sym projects i) (sym vulns i) rows)) in
      move ∙ quiet

  same_key :
      (v w : Vulnerability) (alert other : AlertRule)
      → (v.id == w.id && alert.id == other.id) ≡ true
      → (v.id ≡ w.id) × (alert.id ≡ other.id)
  same_key v w alert other h = ground arith

  -- Another visit leaves a done pair done.
  kept-IsDone :
      (alert : AlertRule) (pair : ℕ × ℕ) (other : AlertRule) (other_pair : ℕ × ℕ)
      (w : Vulnerability) (q : Progress)
      → Memᴰ alert alerts
      → Memᴰ other alerts
      → Concerns settings network tables rows other other_pair w
      → IsDone alert pair q
      → IsDone alert pair (visit_of settings network tables rows other other_pair w q)
  kept-IsDone alert pair other other_pair w q ma mo co done =
      elim (check_pair-cases settings network tables rows alert pair) [
        | inl passed ↦ passed _
        | inr (inl raised) ↦ cc (raised q)
        | inr (inr (v, c, visited)) ↦
            let quiet =
              IsQuiet-of_done alert pair v q (still_of_done alert pair v q q visited done) in
            IsDone-of_quiet alert pair v _ visited
              (elim (Bool-cases (v.id == w.id && alert.id == other.id)) [
                | inr different ↦
                    ap (λ l. is_quiet (delivery_action l (services_of_pair pair.0 pair.1 rows)))
                      (existing_of-visit_other settings network tables other w
                        (services_of_pair other_pair.0 other_pair.1 rows) q v.id alert.id different)
                    ∙ quiet
                | inl same ↦
                    rw
                      (visit_of_quiet settings network tables other w
                        (services_of_pair other_pair.0 other_pair.1 rows) q
                        (IsQuiet-of_same alert pair v other other_pair w q c co
                          (same_key v w alert other same).0
                          (same_alert alert other ma mo (same_key v w alert other same).1) quiet))
                      quiet
              ])
      ]

  abbrev AllDone : AlertRule → List (ℕ × ℕ) → Progress → Type 0
  AllDone alert some_pairs q = All (λ pair. IsDone alert pair q) some_pairs

  pairs_done :
      (alert : AlertRule) (some_pairs : List (ℕ × ℕ)) (q r : Progress)
      → Memᴰ alert alerts
      → check_pairs settings network tables rows alert some_pairs q ≡ return r
      → AllDone alert some_pairs r
  unfolding check_pairs
  pairs_done alert [] q r ma e = tt
  pairs_done alert (pair ∷ rest) q r ma e =
      let (s, first, others) =
        >>=-eq-return (step alert pair q) (check_pairs settings network tables rows alert rest) e in
      (
        check_pairs-inv settings network tables rows (IsDone alert pair) alerts rest
            (λ b p w t mb _ c d. kept-IsDone alert pair b p w t ma mb c d) alert rest s r ma
            (λ x m. m) others (made-IsDone alert pair q s first),
        pairs_done alert rest s r ma others,
      )

  AllDone-keeps :
      (alert : AlertRule) (some_pairs : List (ℕ × ℕ)) (other : AlertRule) (other_pair : ℕ × ℕ)
      (w : Vulnerability) (q : Progress)
      → Memᴰ alert alerts
      → Memᴰ other alerts
      → Concerns settings network tables rows other other_pair w
      → AllDone alert some_pairs q
      → AllDone alert some_pairs (visit_of settings network tables rows other other_pair w q)
  AllDone-keeps alert [] other other_pair w q ma mo c h = tt
  AllDone-keeps alert (pair ∷ rest) other other_pair w q ma mo c h = (
    kept-IsDone alert pair other other_pair w q ma mo c h.0,
    AllDone-keeps alert rest other other_pair w q ma mo c h.1,
  )

  -- All pairs are done for the first alerts of a list.
  pub alerts_done :
      (some_alerts : List AlertRule) (q r : Progress)
      → ((a : AlertRule) → Memᴰ a some_alerts → Memᴰ a alerts)
      → check_each settings network tables rows pairs some_alerts q ≡ return r
      → All (λ alert. AllDone alert pairs r) some_alerts
  unfolding check_each
  alerts_done [] q r ma e = tt
  alerts_done (alert ∷ rest) q r ma e =
      let (s, first, others) =
        >>=-eq-return (check_pairs settings network tables rows alert pairs q)
          (check_each settings network tables rows pairs rest) e in
      (
        check_each-inv_from settings network tables rows (AllDone alert pairs) alerts pairs
            (λ b p w t mb _ c d.
              AllDone-keeps alert pairs b p w t (ma alert (Memᴰ.head refl)) mb c d)
            rest s r (λ x m. ma x (Memᴰ.tail m)) others
            (pairs_done alert pairs q s (ma alert (Memᴰ.head refl)) first),
        alerts_done rest s r (λ x m. ma x (Memᴰ.tail m)) others,
      )

  check_pairs_done :
      (alert : AlertRule) (some_pairs : List (ℕ × ℕ)) (q : Progress)
      → AllDone alert some_pairs q
      → check_pairs settings network tables rows alert some_pairs q ≡ return q
  unfolding check_pairs
  check_pairs_done alert [] q h = refl
  check_pairs_done alert (pair ∷ rest) q h = rw h.0 (check_pairs_done alert rest q h.1)

  check_each_done :
      (some_alerts : List AlertRule) (q : Progress)
      → All (λ alert. AllDone alert pairs q) some_alerts
      → check_each settings network tables rows pairs some_alerts q ≡ return q
  unfolding check_each
  check_each_done [] q h = refl
  check_each_done (alert ∷ rest) q h =
      rw (check_pairs_done alert pairs q h.0) (check_each_done rest q h.1)

  -- The loops over a state that they have left do nothing.
  pub check_each_again :
      (q r : Progress)
      → check_each settings network tables rows pairs alerts q ≡ return r
      → check_each settings network tables rows pairs alerts r ≡ return r
  check_each_again q r e = check_each_done alerts r (alerts_done alerts q r (λ x m. m) e)
