-- ===== src/Coherence/Reports.antt =====
-- The report handlers of `SelfHealingManager` and the reconciler keep the invariant.
use orchestrator_thesis.Prelude.{ℕ, ◌≤◌, max, String, ◌≡◌, refl, Bool, true, false, Option}
use orchestrator_thesis.Models.{
  Time, ServiceDesiredState, ServiceObservedState, NodeState, Placement, AgentHealthReport,
  AgentCrashReport,
}
use orchestrator_thesis.Table.{pop}
use orchestrator_thesis.World.{Env, Action, None, modify, pure, finally}
use orchestrator_thesis.SelfHealing.Recovery.{
  is_in_cooldown, try_acquire_recovery, release_recovery,
}
use orchestrator_thesis.SelfHealing.{
  with_current, restart_or_reschedule, recover_from_crash, crash_body, handle_crash_report,
  report_healthy, node_missing, recover_from_failures, report_unhealthy, health_body,
  handle_health_report,
}
use orchestrator_thesis.Coherence.{At, Ensures, Safe}
use orchestrator_thesis.Coherence.Logic.{
  Keeps, Keeps-modify, Keeps-gets, Keeps-bind, Keeps-reads, Ensures-finally, Ensures-if,
  Ensures-pure, Ensures-read_desired, Ensures-read_placement, Ensures-read_observed,
  Ensures-on_none, Ensures-on_some, Ensures-first, forget, le-max_right,
}
use orchestrator_thesis.Coherence.Healing.{healing_rules, restart_same_node-Ensures}
use orchestrator_thesis.Coherence.Moving.{reschedule_after_exhausted_restart-Ensures}

module _ (k : String) (n : ℕ) (b : Bool) where
  is_in_cooldown-Keeps : (i : String) (at : Time) → Keeps k n b (is_in_cooldown i at)
  unfolding is_in_cooldown
  is_in_cooldown-Keeps i at = Keeps-gets k n b _

  try_acquire_recovery-Keeps : (i : String) (g : ℕ) → Keeps k n b (try_acquire_recovery i g)
  unfolding try_acquire_recovery
  try_acquire_recovery-Keeps i g = Keeps-bind k n b _ _ (Keeps-gets k n b _) λ current.
      Ensures-if _ _ _ (Ensures-pure false (λ s h. h)) (
        Keeps-bind k n b _ _ (Keeps-modify k n b _ (λ w. refl)) (λ _. Ensures-pure true (λ s h. h)))

  forget_cooldown-Keeps :
      (i : String)
      → Keeps k n b (modify (λ w. record w { cooldown_until = pop w.cooldown_until i }))
  forget_cooldown-Keeps i = Keeps-modify k n b _ (λ w. refl)

  finally_release-Ensures :
      (m : Action None) (i : String)
      → Ensures (At k n b) m (Safe k)
      → Ensures (At k n b) (finally m (release_recovery i)) (Safe k)
  unfolding release_recovery
  finally_release-Ensures m i p = Ensures-finally m (release_recovery i) (λ w. refl) p

ruleset report_rules = (
  is_in_cooldown-Keeps, try_acquire_recovery-Keeps, finally_release-Ensures, healing_rules,
  restart_same_node-Ensures, reschedule_after_exhausted_restart-Ensures,
)

module _ (env : Env) (k : String) (n : ℕ) where
  restart_or_reschedule-Ensures :
      (node_id : String) (at : Time) (count : ℕ) (node? : Option NodeState)
      → Ensures (At k n true) (restart_or_reschedule env k node_id at count node?) (Safe k)
  unfolding restart_or_reschedule
  restart_or_reschedule-Ensures node_id at count node? = search report_rules depth 40

-- A report about the service `k`.
module _ (env : Env) (report : AgentCrashReport) (n : ℕ) (o : ServiceObservedState) where
  recover_from_crash-Ensures :
      (p : Placement)
      → o.service_id ≡ report.service_id
      → o.service_generation ≤ n
      → Ensures
          (At report.service_id n true)
          (recover_from_crash env report o p)
          (Safe report.service_id)
  unfolding recover_from_crash
  recover_from_crash-Ensures p named bound =
      search (report_rules, restart_or_reschedule-Ensures) depth 40 fits 5000

  crash_body-Ensures :
      (d : ServiceDesiredState) (p : Placement) (g : ℕ)
      → o.service_id ≡ report.service_id
      → o.service_generation ≤ n
      → Ensures
          (At report.service_id n true)
          (crash_body env report o d p g)
          (Safe report.service_id)
  unfolding crash_body
  crash_body-Ensures d p g named bound =
      search (report_rules, recover_from_crash-Ensures) depth 40 fits 5000

module _ (env : Env) (report : AgentHealthReport) (n : ℕ) (o : ServiceObservedState) where
  report_healthy-Ensures :
      (d : ServiceDesiredState)
      → o.service_id ≡ report.service_id
      → o.service_generation ≤ n
      → Ensures
          (At report.service_id n true)
          (report_healthy env report o d)
          (Safe report.service_id)
  unfolding report_healthy
  report_healthy-Ensures d named bound =
      search (report_rules, forget_cooldown-Keeps) depth 40 fits 5000

  node_missing-Ensures :
      o.service_id ≡ report.service_id
      → o.service_generation ≤ n
      → Ensures (At report.service_id n true) (node_missing env report o) (Safe report.service_id)
  unfolding node_missing
  node_missing-Ensures named bound = search report_rules depth 40 fits 5000

  recover_from_failures-Ensures :
      (p : Placement)
      → o.service_id ≡ report.service_id
      → o.service_generation ≤ n
      → Ensures
          (At report.service_id n true)
          (recover_from_failures env report o p)
          (Safe report.service_id)
  unfolding recover_from_failures
  recover_from_failures-Ensures p named bound =
      search (report_rules, node_missing-Ensures, restart_or_reschedule-Ensures) depth 40 fits 5000

  report_unhealthy-Ensures :
      (p : Placement) (g : ℕ)
      → o.service_id ≡ report.service_id
      → o.service_generation ≤ n
      → Ensures
          (At report.service_id n true)
          (report_unhealthy env report o p g)
          (Safe report.service_id)
  unfolding report_unhealthy
  report_unhealthy-Ensures p g named bound =
      search (report_rules, recover_from_failures-Ensures) depth 40 fits 5000

  health_body-Ensures :
      (d : ServiceDesiredState) (p : Placement) (g : ℕ)
      → o.service_id ≡ report.service_id
      → o.service_generation ≤ n
      → Ensures
          (At report.service_id n true)
          (health_body env report o d p g)
          (Safe report.service_id)
  unfolding health_body
  health_body-Ensures d p g named bound =
      search (report_rules, report_healthy-Ensures, report_unhealthy-Ensures) depth 40 fits 5000

-- The guards that the handlers share lead to the body with what they have read.
with_current-Ensures :
    (k node_id : String) (generation : Option ℕ)
    (body : ServiceObservedState → ServiceDesiredState → Placement → ℕ → Action None)
    → ((n : ℕ) (o : ServiceObservedState) (d : ServiceDesiredState) (p : Placement) (g : ℕ)
        → o.service_id ≡ k
        → o.service_generation ≤ n
        → Ensures (At k n true) (body o d p g) (Safe k))
    → Ensures (Safe k) (with_current k node_id generation body) (Safe k)
unfolding with_current
with_current-Ensures k node_id generation body f =
    let stop : (n : ℕ) (b : Bool) → Ensures (At k n b) (pure tt) (Safe k) =
      λ n b. Ensures-pure tt (forget k n b) in
    Ensures-read_observed k 0 false _ (Ensures-on_none _ _ (stop 0 false)) λ o named.
      Ensures-on_some o _ _ (
        let n = max 0 o.service_generation in
        Ensures-read_desired k n false _
          (Ensures-read_placement k n false _ (Ensures-on_none _ _ (stop n false))
            λ p e. Ensures-on_none _ _ (stop n true))
          λ d e.
            Ensures-read_placement k n false _
              (Ensures-on_some d _ _
                (Ensures-if _ _ _ (stop n false) (Ensures-on_none _ _ (stop n false))))
              λ p e'. Ensures-on_some d _ _ (
                Ensures-if _ _ _ (stop n true) (
                  Ensures-on_some p _ _ (
                    Ensures-if _ _ _ (stop n true) (
                      Ensures-first k n true _ _ (Keeps-reads k n true _) λ g.
                        Ensures-if _ _ _ (stop n true) (f n o d p g named (le-max_right 0 _)))))))

pub handle_crash_report-Ensures :
    (env : Env) (report : AgentCrashReport)
    → Ensures (Safe report.service_id) (handle_crash_report env report) (Safe report.service_id)
unfolding handle_crash_report
handle_crash_report-Ensures env report =
    with_current-Ensures report.service_id report.node_id report.service_generation _
      λ n o. crash_body-Ensures env report n o

pub handle_health_report-Ensures :
    (env : Env) (report : AgentHealthReport)
    → Ensures (Safe report.service_id) (handle_health_report env report) (Safe report.service_id)
unfolding handle_health_report
handle_health_report-Ensures env report =
    with_current-Ensures report.service_id report.node_id report.service_generation _
      λ n o. health_body-Ensures env report n o
