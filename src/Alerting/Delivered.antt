-- ===== src/Alerting/Delivered.antt =====
-- Which pairs a round treats: every actionable finding in the project of an enabled alert.
use argus_sbomguard.Common.{
  ℕ, Option, some, true, List, [], ◌∷◌, nat_eq, pair_eq, ◌≡◌, refl, All, All-get, Memᴰ, return,
  mem-append_left, mem-append_right, mem-add_self, mem-add, ==_refl, inl, inr,
}
use argus_sbomguard.Models.{Finding, Sbom, RiskAcceptance, AlertRule, Vulnerability, Notification}
use argus_sbomguard.Notifications.{Network}
use argus_sbomguard.Alerting.{
  AlertSettings, AlertTables, Progress, OpenRow, is_quiet, delivery_action, existing_of, sbom_of,
  is_actionable, open_rows, open_pairs, services_of_pair, enabled_alerts, vulnerability_of,
  round_of, visit, visit_or_raise, check_pair, do_check_alerts,
}
use argus_sbomguard.Alerting.Rounds.{Reaches, step_of, visit_or_raise-cases}
use argus_sbomguard.Alerting.Once.{IsReliable, AreIndexed}
use argus_sbomguard.Alerting.OnceRound.{alerts_done, IsQuiet-of_done}
use argus_sbomguard.Alerting.Closed.{IsResolvedIfClosed, check_each-resolved, resolve-resolved}

module _ (sboms : List Sbom) (acceptances : List RiskAcceptance) where
  mem-open_rows :
      (links : List Finding) (link : Finding) (sbom : Sbom)
      → Memᴰ link links
      → sbom_of sboms acceptances link ≡ some sbom
      → is_actionable sboms acceptances link sbom ≡ true
      → Memᴰ
          (link.vulnerability_id, sbom.project_id, sbom.service_id)
          (open_rows sboms acceptances links)
  unfolding open_rows
  mem-open_rows [] link sbom m found act = elim m [ ]
  mem-open_rows (x ∷ links) link sbom (Memᴰ.head e) found act =
      mem-append_left _ (open_rows sboms acceptances links)
        (rw (← e, found) (rw act (Memᴰ.head refl)))
  mem-open_rows (x ∷ links) link sbom (Memᴰ.tail m) found act =
      mem-append_right _ (open_rows sboms acceptances links)
        (mem-open_rows links link sbom m found act)

mem-open_pairs :
    (rows : List OpenRow) (vuln project : ℕ) (service : Option ℕ)
    → Memᴰ (vuln, project, service) rows
    → Memᴰ (project, vuln) (open_pairs rows)
unfolding open_pairs
mem-open_pairs [] vuln project service m = elim m [ ]
mem-open_pairs ((v, p, s) ∷ rows) vuln project service (Memᴰ.head e) =
    let same : ◌≡◌ {A = ℕ × ℕ} (project, vuln) (p, v) = λ i. ((e i).1, (e i).0) in
    rw same (mem-add_self (p, v) (open_pairs rows))
mem-open_pairs ((v, p, s) ∷ rows) vuln project service (Memᴰ.tail m) =
    mem-add (p, v) (open_pairs rows) (mem-open_pairs rows vuln project service m)

module _ (settings : AlertSettings) (network : Network) (tables : AlertTables) where
  abbrev pub rows_now : List OpenRow
  rows_now = open_rows tables.sboms tables.acceptances tables.findings

  visit_of_return :
      (alert : AlertRule) (v : Vulnerability) (services : List ℕ) (q r : Progress)
      → visit_or_raise settings network tables alert v services q ≡ return r
      → visit settings network tables alert v services q ≡ r
  visit_of_return alert v services q r e =
      elim (visit_or_raise-cases settings network tables rows_now alert v services q) [
        | inl made ↦ cc (made, e)
        | inr (raised, loud) ↦ cc (raised, e)
      ]

  quiet_of_step :
      (alerts : List AlertRule) (alert : AlertRule) (v : Vulnerability) (q : Progress)
      → IsReliable settings network
      → AreIndexed alerts
      → vulnerability_of settings network tables v.id ≡ some v
      → Reaches alert v
      → step_of settings network tables rows_now alert (alert.project_id, v.id) q ≡ return q
      → is_quiet (
          delivery_action
            (existing_of v.id alert.id q.notifications)
            (services_of_pair alert.project_id v.id rows_now))
        ≡ true
  unfolding check_pair
  quiet_of_step alerts alert v q reliable indexed found reaches done =
      IsQuiet-of_done settings network tables rows_now alerts (open_pairs rows_now) reliable indexed
        alert (alert.project_id, v.id) v q
        (visit_of_return alert v (services_of_pair alert.project_id v.id rows_now) q q
          (rw (==_refl alert.project_id, found, reaches) at done))

  round-settles :
      (alerts : List AlertRule) (p q : Progress) (alert : AlertRule) (link : Finding) (sbom : Sbom)
      (v : Vulnerability)
      → IsReliable settings network
      → AreIndexed alerts
      → round_of settings network tables rows_now alerts p ≡ return q
      → Memᴰ alert alerts
      → Memᴰ link tables.findings
      → sbom_of tables.sboms tables.acceptances link ≡ some sbom
      → is_actionable tables.sboms tables.acceptances link sbom ≡ true
      → sbom.project_id ≡ alert.project_id
      → link.vulnerability_id ≡ v.id
      → vulnerability_of settings network tables v.id ≡ some v
      → Reaches alert v
      → is_quiet (
          delivery_action
            (existing_of v.id alert.id q.notifications)
            (services_of_pair alert.project_id v.id rows_now))
        ≡ true
  round-settles [] p q alert link sbom v reliable indexed e ma ml found act project vuln known
        reaches =
      elim ma [ ]
  round-settles (a ∷ alerts) p q alert link sbom v reliable indexed e ma ml found act project vuln
        known reaches =
      let paired : Memᴰ (alert.project_id, v.id) (open_pairs rows_now) =
        rw (← project, ← vuln)
          (mem-open_pairs rows_now link.vulnerability_id sbom.project_id sbom.service_id (
            mem-open_rows tables.sboms tables.acceptances tables.findings link sbom ml found
              act)) in
      quiet_of_step (a ∷ alerts) alert v q reliable indexed known reaches (
        All-get (λ pair. step_of settings network tables rows_now alert pair q ≡ return q)
          (open_pairs rows_now)
          (All-get
            (λ b.
              All (λ pair. step_of settings network tables rows_now b pair q ≡ return q)
                (open_pairs rows_now))
            (a ∷ alerts)
            (alerts_done settings network tables rows_now (a ∷ alerts) (open_pairs rows_now)
              reliable indexed (a ∷ alerts) _ q (λ x m. m) e)
            ma)
          paired)

  round-closes :
      (alerts : List AlertRule) (p q : Progress)
      → AreIndexed alerts
      → round_of settings network tables rows_now alerts p ≡ return q
      → All (IsResolvedIfClosed alerts (open_pairs rows_now)) q.notifications
  round-closes [] p q indexed e = none_closed q.notifications
    where
      none_closed : (l : List Notification) → All (IsResolvedIfClosed [] (open_pairs rows_now)) l
      none_closed [] = tt
      none_closed (n ∷ l) = (λ h. cc, none_closed l)
  round-closes (alert ∷ alerts) p q indexed e =
      check_each-resolved settings network tables rows_now (alert ∷ alerts) (open_pairs rows_now) _
        q indexed e (resolve-resolved (alert ∷ alerts) (open_pairs rows_now) p.notifications)

-- If every message arrives and the rules have distinct ids, then after a round of `do_check_alerts`
-- that returned, each open finding that no acceptance covers, in the project of an enabled alert
-- whose threshold its vulnerability reaches, calls for no delivery any more.
pub do_check_alerts-settles :
    (settings : AlertSettings) (network : Network) (tables : AlertTables) (p q : Progress)
    (alert : AlertRule) (link : Finding) (sbom : Sbom) (v : Vulnerability)
    → IsReliable settings network
    → AreIndexed (enabled_alerts tables.alert_rules)
    → do_check_alerts settings network tables p ≡ return q
    → Memᴰ alert (enabled_alerts tables.alert_rules)
    → Memᴰ link tables.findings
    → sbom_of tables.sboms tables.acceptances link ≡ some sbom
    → is_actionable tables.sboms tables.acceptances link sbom ≡ true
    → sbom.project_id ≡ alert.project_id
    → link.vulnerability_id ≡ v.id
    → vulnerability_of settings network tables v.id ≡ some v
    → Reaches alert v
    → is_quiet (
        delivery_action
          (existing_of v.id alert.id q.notifications)
          (services_of_pair alert.project_id v.id (rows_now settings network tables)))
      ≡ true
unfolding do_check_alerts
do_check_alerts-settles settings network tables p q alert link sbom v reliable indexed e =
    round-settles settings network tables (enabled_alerts tables.alert_rules) p q alert link sbom v
      reliable indexed e

-- If the rules have distinct ids, then after a round that returned, every notification of an enabled
-- alert whose vulnerability has no actionable finding in the alert's project is resolved.
pub do_check_alerts-closes :
    (settings : AlertSettings) (network : Network) (tables : AlertTables) (p q : Progress)
    → AreIndexed (enabled_alerts tables.alert_rules)
    → do_check_alerts settings network tables p ≡ return q
    → All
        (IsResolvedIfClosed
          (enabled_alerts tables.alert_rules)
          (open_pairs (rows_now settings network tables)))
        q.notifications
unfolding do_check_alerts
do_check_alerts-closes settings network tables p q indexed e =
    round-closes settings network tables (enabled_alerts tables.alert_rules) p q indexed e
