-- ===== src/SelfHealing/Recovery.antt =====
-- The recovery actions of `SelfHealingManager`: restart on the same node, and reschedule after the
-- restarts are used up. Each runs inside a handler that holds the service's lock.
use orchestrator_thesis.Prelude.{
  ℕ, ◌+◌, ◌*◌, max, String, Bool, true, false, Option, none, some, [], ◌∷◌, ltb, eqb, if◌then◌else◌,
}
use orchestrator_thesis.Table.{get, put, pop}
use orchestrator_thesis.Models.{
  Time, seconds, ServiceObservedState, ServiceHealth, DeploymentStatus, EventType, NodeState,
  RecoveryRecord, text, number,
}
use orchestrator_thesis.Store
use orchestrator_thesis.World.{
  on_option, on_reply, Env, World, Action, None, Call, pure, gets, reads, writes, updates, modify,
  request, ◌>>=◌, ◌>>◌, append_event,
}
use orchestrator_thesis.Ingress.{sync_ingress}

-- `_set_cooldown`
unfoldable pub set_cooldown : Env → String → Time → World → World
set_cooldown env service_id at w =
    let interval_count = max 1 env.settings.cooldown_intervals_after_recovery in
    let cooldown = seconds (env.settings.reconciliation_interval_seconds * interval_count) in
    record w { cooldown_until = put w.cooldown_until service_id (at + cooldown) }

-- `at < until`, if there is an end
abbrev pub is_before : Time → Option Time → Bool
is_before at none = false
is_before at (some until) = ltb at until

-- `_is_in_cooldown`
unfoldable pub is_in_cooldown : String → Time → Action Bool
is_in_cooldown service_id at = gets (λ w. is_before at (get w.cooldown_until service_id))

-- `_is_in_startup_grace`
unfoldable pub is_in_startup_grace : ServiceObservedState → Time → Bool
is_in_startup_grace observed at = is_before at observed.startup_grace_until

-- `current is not None and current == generation`
abbrev pub is_recovering : Option ℕ → ℕ → Bool
is_recovering none generation = false
is_recovering (some current) generation = eqb current generation

-- `_try_acquire_recovery`
unfoldable pub try_acquire_recovery : String → ℕ → Action Bool
try_acquire_recovery service_id generation = do
  current ← gets (λ w. get w.active_recovery service_id)
  if is_recovering current generation then pure false else do
    modify (λ w. record w { active_recovery = put w.active_recovery service_id generation })
    pure true

-- `_release_recovery`
unfoldable pub release_recovery : String → World → World
release_recovery service_id w = record w { active_recovery = pop w.active_recovery service_id }

-- `observed.model_copy(update={status, health, last_reported_at})`, or a new state if none is stored
unfoldable pub degraded_state :
    Option ServiceObservedState
    → String
    → Option String
    → DeploymentStatus
    → ServiceHealth
    → Time
    → ServiceObservedState
degraded_state none service_id node_id status health at = record {
  service_id = service_id;
  status = status;
  health = health;
  container_id = none;
  node_id = node_id;
  last_reported_at = at;
  service_generation = 0;
  startup_grace_until = none;
}
degraded_state (some observed) service_id node_id status health at = record observed {
  status = status;
  health = health;
  last_reported_at = at;
}

-- `set_pending_deployment` with the reason, and `set_service_observed`
unfoldable pub park : String → String → Time → ServiceObservedState → Action None
park service_id reason at state = do
  writes (
      Store.set_pending_deployment
        (record { service_id = service_id; reason = reason; created_at = at }))
  writes (Store.set_service_observed state)

abbrev pub recovery_record : String → String → String → String → String → Time → RecoveryRecord
recovery_record service_id action reason from_node_id to_node_id at = record {
  service_id = service_id;
  action = action;
  reason = reason;
  from_node_id = some from_node_id;
  to_node_id = some to_node_id;
  occurred_at = at;
}

-- `_restart_same_node`, the `except AgentClientError` branch
unfoldable pub restart_failed :
    Env → String → NodeState → Time → Option ServiceObservedState → Action None
restart_failed env service_id node at current_observed = do
  park service_id "Restart attempt failed on current node" at (
      degraded_state current_observed service_id (some node.node_id) DeploymentStatus.failed
        ServiceHealth.unhealthy at)
  append_event env EventType.self_healing "Service restart failed on current node"
      (("service_id", text service_id) ∷ ("node_id", text node.node_id) ∷ [])
  modify (set_cooldown env service_id at)
  sync_ingress env service_id "restart_failed"

-- The observed state after a restart: a new generation in its grace period.
abbrev pub restarted_observed : Env → ServiceObservedState → ℕ → Time → ServiceObservedState
restarted_observed env observed new_gen at = record observed {
  health = ServiceHealth.unknown;
  status = DeploymentStatus.running;
  last_reported_at = at;
  service_generation = new_gen;
  startup_grace_until = some (at + seconds env.settings.startup_grace_period_seconds);
}

-- `_restart_same_node`, after the agent has restarted the container
unfoldable pub restart_succeeded : Env → String → NodeState → Time → Action None
restart_succeeded env service_id node at = do
  new_gen ← updates (Store.increment_service_generation service_id)
  observed? ← reads (Store.get_service_observed service_id)
  on_option observed? (pure tt)
      λ observed. writes (Store.set_service_observed (restarted_observed env observed new_gen at))
  writes (
      Store.add_recovery_record
        (recovery_record service_id "restart" "health_check_failed" node.node_id node.node_id at))
  append_event env EventType.self_healing "Service restarted after consecutive health failures" (
      ("service_id", text service_id)
      ∷ ("node_id", text node.node_id)
      ∷ ("generation", number new_gen)
      ∷ [])
  modify (set_cooldown env service_id at)

unfoldable pub restart_same_node : Env → String → NodeState → Time → Action None
unfolding restart_failed restart_succeeded
restart_same_node env service_id node at = do
  current_observed ← reads (Store.get_service_observed service_id)
  reply ←
      request (λ calls. env.remote.restart calls node.agent_url service_id)
        (Call.restart node.agent_url service_id)
  on_reply reply (λ message. restart_failed env service_id node at current_observed)
      λ done. restart_succeeded env service_id node at
