-- ===== src/Api/Alerts/Kept.antt =====
-- A rule that is switched off sends nothing, and the notifications keep their rules.
use argus_sbomguard.Common.{
  ℕ, none, some, true, false, List, [], ◌∷◌, find-holds, mem_of_find, mem_of_mem-filter,
  update_where, ◌==◌, nat_eq, ◌&&◌, ◌≡◌, ◌≢◌, refl, sym, ap, ◌∙◌, arith, All, All-get, Memᴰ,
  Bool-cases, Option-cases, inl, inr, return,
}
use mathlib.Core.Path.{subst}
use argus_sbomguard.Common.Reply.{ok, >>=-eq-ok}
use argus_sbomguard.Models.{AlertRule, Vulnerability}
use argus_sbomguard.Notifications.{Network}
use argus_sbomguard.Alerting.{
  AlertSettings, AlertTables, Progress, OpenRow, alert_by_id, existing_of, enabled_alerts,
  open_rows, open_pairs, services_of_pair, round_of, do_check_alerts,
}
use argus_sbomguard.Alerting.Rounds.{check_each-inv}
use argus_sbomguard.Alerting.Once.{existing_of-visit_other}
use argus_sbomguard.Alerting.Ended.{existing_of-resolved, closes_of_absent}
use argus_sbomguard.Api.Alerts.{
  AlertRuleUpdate, RuleTables, rule_or_404, new_project_exists, updated_rule, update_alert,
}

-- No rule of the id is enabled.
abbrev pub IsOff : ℕ → AlertRule → Type 0
IsOff a rule = rule.id ≡ a → rule.enabled ≡ false

module _ (a : ℕ) (rules : List AlertRule) (off : All (IsOff a) rules) where
  not_enabled : (rule : AlertRule) → Memᴰ rule (enabled_alerts rules) → rule.id ≢ a
  unfolding enabled_alerts
  not_enabled rule m same =
      let (listed, on) = mem_of_mem-filter (λ (r : AlertRule). r.enabled) rules m in
      cc (All-get (IsOff a) rules off listed same, on)

  absent : alert_by_id (enabled_alerts rules) a ≡ none
  absent = elim (Option-cases (alert_by_id (enabled_alerts rules) a)) [
    | inl e ↦ e
    | inr (rule, e) ↦ absurd (
        not_enabled rule (mem_of_find (λ r. r.id == a) (enabled_alerts rules) rule e) (
          (nat_eq.beq_iff rule.id a).0 (find-holds (λ r. r.id == a) (enabled_alerts rules) rule e)))
  ]

-- A round of the alerting leaves the notifications of a rule that is not enabled as they are.
pub do_check_alerts-keeps_off :
    (settings : AlertSettings) (network : Network) (tables : AlertTables) (p q : Progress) (v a : ℕ)
    → All (IsOff a) tables.alert_rules
    → do_check_alerts settings network tables p ≡ return q
    → existing_of v a q.notifications ≡ existing_of v a p.notifications
unfolding do_check_alerts
do_check_alerts-keeps_off settings network tables p q v a off e =
    from (enabled_alerts tables.alert_rules) (not_enabled a tables.alert_rules off)
      (absent a tables.alert_rules off) e
  where
    rows : List OpenRow
    rows = open_rows tables.sboms tables.acceptances tables.findings

    from :
        (alerts : List AlertRule)
        → ((rule : AlertRule) → Memᴰ rule alerts → rule.id ≢ a)
        → alert_by_id alerts a ≡ none
        → round_of settings network tables rows alerts p ≡ return q
        → existing_of v a q.notifications ≡ existing_of v a p.notifications
    from [] apart gone e = let same : p ≡ q = cc in rw (← same) refl
    from (alert ∷ alerts) apart gone e =
        check_each-inv settings network tables rows
          (λ (r : Progress). existing_of v a r.notifications ≡ existing_of v a p.notifications)
          (alert ∷ alerts) (open_pairs rows)
          (λ rule pair w r m _ _ h.
            existing_of-visit_other settings network tables rule w
              (services_of_pair pair.0 pair.1 rows) r v a (other rule w (apart rule m))
            ∙ h)
          _ q e
          (existing_of-resolved (alert ∷ alerts) (open_pairs rows) v a
            (closes_of_absent (alert ∷ alerts) (open_pairs rows) v a gone) p.notifications)
      where
        other :
            (rule : AlertRule) (w : Vulnerability)
            → rule.id ≢ a
            → (v == w.id && a == rule.id) ≡ false
        other rule w h = elim (Bool-cases (a == rule.id)) [
          | inr f ↦ ground arith
          | inl t ↦ absurd (h (sym ((nat_eq.beq_iff a rule.id).0 t)))
        ]

updated-IsOff :
    (k : ℕ) (request : AlertRuleUpdate) (rules : List AlertRule)
    → request.enabled ≡ some false
    → All (IsOff k) (update_where (λ rule. rule.id == k) (updated_rule request) rules)
updated-IsOff k request [] h = tt
updated-IsOff k request (rule ∷ rules) h = (
  elim (Bool-cases (rule.id == k)) [
    | inl hit ↦ rw hit (λ same. rw h refl)
    | inr miss ↦
        rw miss (λ same. let hit : (rule.id == k) ≡ true = (nat_eq.beq_iff rule.id k).1 same in cc)
  ],
  updated-IsOff k request rules h,
)

-- After an update that switches a rule off, a round of the alerting over the new rules leaves the
-- notifications of the rule as they are: nothing is recorded, closed or tried again for it.
pub update_alert-silences :
    (settings : AlertSettings) (network : Network) (tables : AlertTables) (p q : Progress) (v k : ℕ)
    (request : AlertRuleUpdate) (t u : RuleTables)
    → request.enabled ≡ some false
    → update_alert k request t ≡ ok u
    → tables.alert_rules ≡ u.alert_rules
    → do_check_alerts settings network tables p ≡ return q
    → existing_of v k q.notifications ≡ existing_of v k p.notifications
unfolding update_alert
update_alert-silences settings network tables p q v k request t u off updated rules e =
    let (rule, _, e1) = >>=-eq-ok (rule_or_404 k t.alert_rules) _ updated in
    let (done, _, e2) = >>=-eq-ok (new_project_exists request.project_id t.projects) _ e1 in
    let whole : with_rules t (update_where (λ a. a.id == k) (updated_rule request) t.alert_rules)
        ≡ u =
      cc in
    let made : update_where (λ a. a.id == k) (updated_rule request) t.alert_rules ≡ u.alert_rules =
      ap rules_of whole in
    do_check_alerts-keeps_off settings network tables p q v k
      (subst (All (IsOff k)) (made ∙ sym rules) (updated-IsOff k request t.alert_rules off)) e
  where
    rules_of : RuleTables → List AlertRule
    rules_of t = t.alert_rules

    with_rules : RuleTables → List AlertRule → RuleTables
    with_rules t rules = record t { alert_rules = rules }
