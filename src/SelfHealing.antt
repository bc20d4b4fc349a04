-- ===== src/SelfHealing.antt =====
-- controller/self_healing.py: the report handlers of `SelfHealingManager`, each under the lock of
-- its service. The recovery actions that they take stand in the modules below.
pub mod Recovery
pub mod Reschedule
pub mod Target
pub mod Unreachable
pub mod Guards
use orchestrator_thesis.Prelude.{
  ℕ, String, Bool, true, false, not, ◌||◌, ◌&&◌, Option, none, some, List, [], ◌∷◌, ◌==◌, ltb, leb,
  eqb, if◌then◌else◌,
}
use orchestrator_thesis.Table.{pop}
use orchestrator_thesis.Models.{
  Time, ServiceDesiredState, ServiceObservedState, ServiceHealth, DeploymentStatus, EventType,
  NodeState, Placement, text, AgentHealthReport, AgentCrashReport, is_stopped, find_node,
}
use orchestrator_thesis.Store
use orchestrator_thesis.World.{
  on_option, on_reply, Env, World, Action, None, pure, reads, writes, updates, modify, finally,
  ◌>>=◌, ◌>>◌, append_event,
}
use orchestrator_thesis.Ingress.{sync_ingress}
use Recovery.{
  set_cooldown, is_in_cooldown, is_in_startup_grace, try_acquire_recovery, release_recovery, park,
  restart_same_node,
}
use Reschedule.{reschedule_after_exhausted_restart}

-- A report that names a generation must name the current one.
abbrev pub is_stale : Option ℕ → ℕ → Bool
is_stale none current_gen = false
is_stale (some generation) current_gen = not (eqb generation current_gen)

-- What both handlers read before they decide, and the early returns that they share: the service
-- is observed, desired, not stopped, placed on the node that reports, and of the generation that
-- the report names.
unfoldable pub with_current :
    String
    → String
    → Option ℕ
    → (ServiceObservedState → ServiceDesiredState → Placement → ℕ → Action None)
    → Action None
with_current service_id node_id generation body = do
  observed? ← reads (Store.get_service_observed service_id)
  on_option observed? (pure tt) λ observed. do
    desired? ← reads (Store.get_service_desired service_id)
    placement? ← reads (Store.get_placement service_id)
    on_option desired? (pure tt) λ desired.
        if is_stopped desired.status
        then pure tt
        else on_option placement? (pure tt) λ placement.
          if not (placement.node_id == node_id) then pure tt else do
            current_gen ← reads (Store.get_service_generation service_id)
            if is_stale generation current_gen
                then pure tt
                else body observed desired placement current_gen

-- The counter is below the limit and the node is known: restart there. Otherwise move.
unfoldable pub restart_or_reschedule :
    Env → String → String → Time → ℕ → Option NodeState → Action None
restart_or_reschedule env service_id node_id at restart_count node? =
    if not (leb restart_count env.settings.max_restart_attempts)
    then reschedule_after_exhausted_restart env service_id node_id at
    else on_option node? (reschedule_after_exhausted_restart env service_id node_id at)
        λ node. restart_same_node env service_id node at

-- The `try` of `handle_crash_report`.
unfoldable pub recover_from_crash :
    Env → AgentCrashReport → ServiceObservedState → Placement → Action None
unfolding restart_or_reschedule
recover_from_crash env report observed placement = do
  writes (
      Store.set_service_observed (record observed {
        health = ServiceHealth.unhealthy;
        last_reported_at = report.occurred_at;
      }))
  append_event env EventType.self_healing "Container crash detected via Docker event" (
      ("service_id", text report.service_id)
      ∷ ("node_id", text report.node_id)
      ∷ ("event_type", text report.event_type)
      ∷ ("exit_code", report.exit_code)
      ∷ [])
  restart_count ← updates (Store.increment_restart_counter report.service_id env.now)
  nodes ← reads Store.list_nodes
  restart_or_reschedule env report.service_id placement.node_id report.occurred_at restart_count
      (find_node nodes placement.node_id)

-- `handle_crash_report` past the generation guard.
unfoldable pub crash_body :
    Env
    → AgentCrashReport
    → ServiceObservedState
    → ServiceDesiredState
    → Placement
    → ℕ
    → Action None
unfolding recover_from_crash
crash_body env report observed desired placement current_gen =
    if is_in_startup_grace observed report.occurred_at then pure tt else do
      acquired ← try_acquire_recovery report.service_id current_gen
      if not acquired
          then pure tt
          else finally (recover_from_crash env report observed placement)
              (release_recovery report.service_id)

unfoldable pub handle_crash_report : Env → AgentCrashReport → Action None
unfolding with_current crash_body
handle_crash_report env report =
    with_current report.service_id report.node_id report.service_generation (crash_body env report)

-- A healthy report ends the pending state, the restart count and the cooldown.
unfoldable pub report_healthy :
    Env → AgentHealthReport → ServiceObservedState → ServiceDesiredState → Action None
report_healthy env report observed desired = do
  writes (Store.pop_pending_deployment report.service_id)
  writes (Store.reset_restart_counter report.service_id env.now)
  modify (λ w. record w { cooldown_until = pop w.cooldown_until report.service_id })
  writes (
      Store.set_service_observed (record observed {
        health = ServiceHealth.healthy;
        status = DeploymentStatus.running;
        last_reported_at = report.observed_at;
        startup_grace_until = none;
      }))
  writes (
      Store.set_service_desired
        (record desired { status = DeploymentStatus.running; updated_at = report.observed_at }))

-- The placed node is not in the store.
unfoldable pub node_missing : Env → AgentHealthReport → ServiceObservedState → Action None
node_missing env report observed = do
  park report.service_id "Current node missing during health reconciliation" report.observed_at
      (record observed {
        status = DeploymentStatus.pending;
        health = ServiceHealth.unhealthy;
        last_reported_at = report.observed_at;
      })
  modify (set_cooldown env report.service_id report.observed_at)
  sync_ingress env report.service_id "health_reconcile_node_missing"

-- The `try` of `handle_health_report`.
unfoldable pub recover_from_failures :
    Env → AgentHealthReport → ServiceObservedState → Placement → Action None
unfolding node_missing restart_or_reschedule
recover_from_failures env report observed placement = do
  nodes ← reads Store.list_nodes
  on_option (find_node nodes placement.node_id) (node_missing env report observed) λ current_node.
      do
        restart_count ← updates (Store.increment_restart_counter report.service_id env.now)
        restart_or_reschedule env report.service_id current_node.node_id report.observed_at
            restart_count (some current_node)

-- An unhealthy report past the startup grace.
unfoldable pub report_unhealthy :
    Env → AgentHealthReport → ServiceObservedState → Placement → ℕ → Action None
unfolding recover_from_failures
report_unhealthy env report observed placement current_gen = do
  writes (
      Store.set_service_observed (record observed {
        health = ServiceHealth.unhealthy;
        last_reported_at = report.observed_at;
      }))
  cooling ← is_in_cooldown report.service_id report.observed_at
  let few = ltb report.consecutive_failures env.settings.health_check_retries
  if few || cooling then pure tt else do
    acquired ← try_acquire_recovery report.service_id current_gen
    if not acquired
        then pure tt
        else finally (recover_from_failures env report observed placement)
            (release_recovery report.service_id)

-- `handle_health_report` past the generation guard.
unfoldable pub health_body :
    Env
    → AgentHealthReport
    → ServiceObservedState
    → ServiceDesiredState
    → Placement
    → ℕ
    → Action None
unfolding report_healthy report_unhealthy
health_body env report observed desired placement current_gen =
    if report.healthy
    then report_healthy env report observed desired
    else if is_in_startup_grace observed report.observed_at
    then pure tt
    else report_unhealthy env report observed placement current_gen

unfoldable pub handle_health_report : Env → AgentHealthReport → Action None
unfolding with_current health_body
handle_health_report env report =
    with_current report.service_id report.node_id report.service_generation (health_body env report)
