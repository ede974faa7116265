-- ===== src/Alerting/Advance.antt =====
-- A visit of a pair, against the episode that its rows stand for.
use argus_sbomguard.Common.{ℕ, Bool, List, map, pair_eq, nat_eq, ◌≡◌, refl, ap, ◌∙◌, if◌then◌else◌}
use argus_sbomguard.Models.{Notification, AlertRule, Vulnerability}
use argus_sbomguard.Notifications.{Network}
use argus_sbomguard.Alerting.{
  AlertSettings, AlertTables, Progress, Action, delivery_action, existing_of, deliver, act, visit,
  is_quiet, project_name_of, service_name_of, skip, give_up, resend, retry, deliver_first,
}
use argus_sbomguard.Alerting.Episode.{episode_of, after_action, advance}
use argus_sbomguard.Alerting.Recorded.{delivery_action-episode_of, record_delivery-episode_of}

module _ (settings : AlertSettings) (network : Network) (tables : AlertTables) where
  abbrev rows_of : AlertRule → Vulnerability → Progress → List Notification
  rows_of alert v p = existing_of v.id alert.id p.notifications

  -- Whether the message about the pair would arrive.
  abbrev pub arrives : AlertRule → Vulnerability → List ℕ → Progress → Bool
  arrives alert v services p =
      (deliver settings network alert v (project_name_of tables.projects alert.project_id)
        (map (service_name_of tables.services) services) p.outbox).1

  acted-episode_of :
      (alert : AlertRule) (v : Vulnerability) (services : List ℕ) (p : Progress) (action : Action)
      → delivery_action (rows_of alert v p) services ≡ action
      → episode_of (
          rows_of alert v
            (if is_quiet action then p else act settings network tables alert v services action p))
        ≡ after_action action (episode_of (rows_of alert v p)) services (arrives alert v services p)
  unfolding act
  acted-episode_of alert v services p skip e = refl
  acted-episode_of alert v services p give_up e = refl
  acted-episode_of alert v services p resend e =
      record_delivery-episode_of v.id alert.id _ services p.notifications resend _ e refl
  acted-episode_of alert v services p retry e =
      record_delivery-episode_of v.id alert.id _ services p.notifications retry _ e refl
  acted-episode_of alert v services p deliver_first e =
      record_delivery-episode_of v.id alert.id _ services p.notifications deliver_first _ e refl

  -- A round for an open pair reads and writes the rows of the pair as the step of its episode says,
  -- whatever was sent before and whether or not the message arrives.
  pub visit-advance :
      (alert : AlertRule) (v : Vulnerability) (services : List ℕ) (p : Progress)
      → episode_of (rows_of alert v (visit settings network tables alert v services p))
        ≡ advance (episode_of (rows_of alert v p)) services (arrives alert v services p)
  unfolding visit advance
  visit-advance alert v services p =
      acted-episode_of alert v services p _ refl
      ∙ ap
          (λ action.
            after_action action (episode_of (rows_of alert v p)) services
              (arrives alert v services p))
          (delivery_action-episode_of (rows_of alert v p) services)
