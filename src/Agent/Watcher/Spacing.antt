-- ===== src/Agent/Watcher/Spacing.antt =====
-- The crash reports of agent/app/services/docker_event_watcher.py keep their distance.
use orchestrator_thesis.Prelude.{
  ◌+◌, ◌≤◌, String, ◌≡◌, refl, sym, ap, ◌∙◌, subst, inl, inr, false, some, or_else, List, [], ◌∷◌,
  All, All-map, arith, eq_iff, eq_refl, ◌==◌, Bool-cases, if_cases, option_cases,
}
use orchestrator_thesis.Table.{Table, get, put, empty}
use orchestrator_thesis.Models.{Time, seconds, AgentCrashReport}
use orchestrator_thesis.Agent.Watcher.{
  DockerEvent, WatcherEnv, Watcher, Arrival, crashed_service, is_cooling, report_crash,
  handle_event, watch_events, is_crash_action,
}

-- The reports of a list, the latest first, of which two of one service are a time apart.
abbrev pub Spaced : Time → List AgentCrashReport → Type 0
Spaced gap [] = Unit
Spaced gap (r ∷ rs) =
    All
      (λ (earlier : AgentCrashReport).
        earlier.service_id ≡ r.service_id → earlier.occurred_at + gap ≤ r.occurred_at)
      rs
    × Spaced gap rs

-- The time kept for a service is no earlier than its reports.
abbrev pub Noted : Table Time → AgentCrashReport → Type 0
Noted cooldown r = (last : Time) × (get cooldown r.service_id ≡ some last) × (r.occurred_at ≤ last)

pub record IsSpaced (gap : Time) (w : Watcher) : Type 0 where
  pub spaced : Spaced gap w.sent
  pub noted : All (Noted w.cooldown) w.sent

module _ (env : WatcherEnv) where
  gap : Time
  gap = seconds env.settings.crash_report_cooldown_seconds

  later_than :
      (cooldown : Table Time) (service_id : String) (now last : Time)
      → is_cooling env.settings now (get cooldown service_id) ≡ false
      → get cooldown service_id ≡ some last
      → last + gap ≤ now
  unfolding is_cooling gap
  later_than cooldown service_id now last cold known =
      let cold' : is_cooling env.settings now (some last) ≡ false =
        ap (λ o. is_cooling env.settings now o) (sym known) ∙ cold in
      ground (arith, cold')

  Noted-put :
      (cooldown : Table Time) (service_id : String) (now : Time) (r : AgentCrashReport)
      → is_cooling env.settings now (get cooldown service_id) ≡ false
      → Noted cooldown r
      → Noted (put cooldown service_id now) r
  unfolding is_cooling
  Noted-put cooldown service_id now r cold (last, known, le) =
      elim (Bool-cases (service_id == r.service_id)) [
        | inl e ↦
            let same : service_id ≡ r.service_id = (eq_iff service_id r.service_id).0 e in
            (
              now,
              rw e refl,
              omega (
                arith,
                le,
                later_than cooldown service_id now last cold
                    (subst (λ j. get cooldown j ≡ some last) (sym same) known),
              ),
            )
        | inr e ↦ (last, rw e known, le)
      ]

  apart :
      (cooldown : Table Time) (service_id : String) (now : Time) (r : AgentCrashReport)
      → is_cooling env.settings now (get cooldown service_id) ≡ false
      → Noted cooldown r
      → r.service_id ≡ service_id
      → r.occurred_at + gap ≤ now
  unfolding is_cooling gap
  apart cooldown service_id now r cold (last, known, le) same = omega (
    arith,
    le,
    later_than cooldown service_id now last cold
        (subst (λ j. get cooldown j ≡ some last) same known),
  )

  report_crash-IsSpaced :
      (event : DockerEvent) (now : Time) (service_id : String) (w : Watcher)
      → IsSpaced gap w
      → IsSpaced gap (report_crash env event now service_id w)
  unfolding report_crash
  report_crash-IsSpaced event now service_id w h =
      if_cases (IsSpaced gap) (is_cooling env.settings now (get w.cooldown service_id)) w _ (λ _. h)
        (λ cold.
          let kept = All-map (λ r. Noted-put w.cooldown service_id now r cold) w.sent h.noted in
          record {
            spaced =
                if_cases (Spaced gap) env.has_event_loop _ _
                  (λ _. (
                    All-map (λ r. apart w.cooldown service_id now r cold) w.sent h.noted,
                    h.spaced,
                  ))
                  (λ _. h.spaced);
            noted =
                if_cases (All (Noted (put w.cooldown service_id now))) env.has_event_loop _ _
                  (λ _. ((now, rw (eq_refl service_id) refl, omega arith), kept)) (λ _. kept);
          })

  handle_event-IsSpaced :
      (event : DockerEvent) (now : Time) (w : Watcher)
      → IsSpaced gap w
      → IsSpaced gap (handle_event env event now w)
  unfolding handle_event
  handle_event-IsSpaced event now w h =
      option_cases (IsSpaced gap) (crashed_service env.settings event) w _ (λ _. h)
        (λ service_id _. report_crash-IsSpaced event now service_id w h)

  watch_events-IsSpaced :
      (arrivals : List Arrival) (w : Watcher)
      → IsSpaced gap w
      → IsSpaced gap (watch_events env arrivals w)
  unfolding watch_events
  watch_events-IsSpaced [] w h = h
  watch_events-IsSpaced (a ∷ arrivals) w h =
      if_cases (IsSpaced gap) a.stopping w _ (λ _. h)
        (λ _.
          if_cases (IsSpaced gap) (is_crash_action (or_else a.event.action "")) _ _
            (λ _. watch_events-IsSpaced arrivals _ (handle_event-IsSpaced a.event a.now w h))
            (λ _. watch_events-IsSpaced arrivals w h))

  -- Of the crash reports of a stream of docker's events, two of the same service are at least the
  -- cooldown apart, whatever the clock does.
  pub watch_events-Spaced :
      (arrivals : List Arrival)
      → Spaced
          (seconds env.settings.crash_report_cooldown_seconds)
          (watch_events env arrivals (record { cooldown = empty; sent = [] })).sent
  unfolding gap
  watch_events-Spaced arrivals =
      (watch_events-IsSpaced arrivals _ (record { spaced = tt; noted = tt })).spaced
