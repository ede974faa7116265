-- ===== src/Alerting/Once.antt =====
-- A second round right after one whose messages all arrived does nothing.
use argus_sbomguard.Common.{
  ℕ, some, true, false, List, ◌==◌, nat_eq, pair_eq, ◌&&◌, ◌≡◌, ◌≢◌, refl, ap, Memᴰ, if◌then◌else◌,
  Text, map,
}
use argus_sbomguard.Models.{Notification, AlertRule, Vulnerability}
use argus_sbomguard.Notifications.{Network, Message}
use argus_sbomguard.Alerting.{
  AlertSettings, AlertTables, Progress, Action, skip, give_up, resend, retry, deliver_first,
  delivery_action, is_quiet, existing_of, alert_by_id, deliver, act, visit, project_name_of,
  service_name_of,
}
use argus_sbomguard.Alerting.Rows.{existing_of-record_delivery_other}
use argus_sbomguard.Alerting.Settled.{record_delivery-skip}

-- Every message is delivered.
abbrev pub IsReliable : AlertSettings → Network → Type 0
IsReliable settings network =
    (alert : AlertRule) (v : Vulnerability) (project_name : Text) (service_names : List Text)
    (outbox : List Message)
    → (deliver settings network alert v project_name service_names outbox).1 ≡ true

-- The ids of the rules are distinct: each rule is the one that its id finds.
abbrev pub AreIndexed : List AlertRule → Type 0
AreIndexed alerts =
    (alert : AlertRule) → Memᴰ alert alerts → alert_by_id alerts alert.id ≡ some alert

module _ (settings : AlertSettings) (network : Network) (tables : AlertTables) where
  -- Nothing is left to do for the pair.
  abbrev pub IsQuiet : ℕ → ℕ → List ℕ → List Notification → Type 0
  IsQuiet v a services table = is_quiet (delivery_action (existing_of v a table) services) ≡ true

  pub visit_of_quiet :
      (alert : AlertRule) (v : Vulnerability) (services : List ℕ) (p : Progress)
      → IsQuiet v.id alert.id services p.notifications
      → visit settings network tables alert v services p ≡ p
  unfolding visit
  visit_of_quiet alert v services p h = rw h

  module _ (reliable : IsReliable settings network) where
    -- A visit settles its pair.
    pub visit-IsQuiet :
        (alert : AlertRule) (v : Vulnerability) (services : List ℕ) (p : Progress)
        → IsQuiet v.id alert.id services
            (visit settings network tables alert v services p).notifications
    unfolding visit act
    visit-IsQuiet alert v services p =
        from (delivery_action (existing_of v.id alert.id p.notifications) services) refl
      where
        settled :
            (action : Action)
            → delivery_action (existing_of v.id alert.id p.notifications) services ≡ action
            → action ≢ skip
            → action ≢ give_up
            → IsQuiet v.id alert.id services
                (act settings network tables alert v services action p).notifications
        settled action e ns ng =
            rw
              (reliable alert v (project_name_of tables.projects alert.project_id)
                (map (service_name_of tables.services) services) p.outbox)
              (ap is_quiet
                (record_delivery-skip v.id alert.id _ services p.notifications action e ns ng))

        from :
            (action : Action)
            → delivery_action (existing_of v.id alert.id p.notifications) services ≡ action
            → IsQuiet v.id alert.id services
                (if is_quiet action
                  then p
                  else act settings network tables alert v services action p).notifications
        from skip e = ap is_quiet e
        from give_up e = ap is_quiet e
        from resend e = settled resend e (λ x. cc) (λ x. cc)
        from retry e = settled retry e (λ x. cc) (λ x. cc)
        from deliver_first e = settled deliver_first e (λ x. cc) (λ x. cc)

  -- A visit leaves the rows of the other pairs as they are.
  pub existing_of-visit_other :
      (alert : AlertRule) (v : Vulnerability) (services : List ℕ) (p : Progress) (w b : ℕ)
      → (w == v.id && b == alert.id) ≡ false
      → existing_of w b (visit settings network tables alert v services p).notifications
        ≡ existing_of w b p.notifications
  unfolding visit act
  existing_of-visit_other alert v services p w b other =
      from (delivery_action (existing_of v.id alert.id p.notifications) services)
    where
      from :
          (action : Action)
          → existing_of w b
              (if is_quiet action
                then p
                else act settings network tables alert v services action p).notifications
            ≡ existing_of w b p.notifications
      from skip = refl
      from give_up = refl
      from resend =
          existing_of-record_delivery_other v.id alert.id w b other _ _ services p.notifications
            resend
      from retry =
          existing_of-record_delivery_other v.id alert.id w b other _ _ services p.notifications
            retry
      from deliver_first =
          existing_of-record_delivery_other v.id alert.id w b other _ _ services p.notifications
            deliver_first
