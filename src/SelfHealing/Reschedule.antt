-- ===== src/SelfHealing/Reschedule.antt =====
-- `_reschedule_after_exhausted_restart` of `SelfHealingManager`.
use orchestrator_thesis.Prelude.{ℕ, ◌+◌, String, not, Option, some, List, [], ◌∷◌, ◌==◌, keep}
use orchestrator_thesis.Models.{
  Time, seconds, ServiceDesiredState, ServiceObservedState, ServiceHealth, DeploymentStatus,
  EventType, NodeState, text, number, find_node,
}
use orchestrator_thesis.Store
use orchestrator_thesis.World.{
  on_option, on_reply, Env, Action, None, Call, AgentDeployResponse, pure, reads, writes, updates,
  modify, request, ◌>>=◌, ◌>>◌, append_event, write_all,
}
use orchestrator_thesis.Ingress.{sync_ingress}
use orchestrator_thesis.ServiceManager.{stop_quietly, roll_back}
use orchestrator_thesis.SelfHealing.Recovery.{set_cooldown, degraded_state, park, recovery_record}

-- The candidates: every node but the current one.
abbrev pub other_nodes : String → List NodeState → List NodeState
other_nodes node_id = keep (λ n. not (n.node_id == node_id))

-- The observed state of a service that has just been placed again.
abbrev pub replaced_observed :
    Env → String → ℕ → NodeState → AgentDeployResponse → Time → ServiceObservedState
replaced_observed env service_id new_gen target deployed at = record {
  service_id = service_id;
  status = DeploymentStatus.running;
  health = ServiceHealth.unknown;
  container_id = some deployed.container_id;
  node_id = some target.node_id;
  last_reported_at = at;
  service_generation = new_gen;
  startup_grace_until = some (at + seconds env.settings.startup_grace_period_seconds);
}

-- No node to move to (`reason` and `sync_reason` say why): the service waits.
unfoldable pub exhausted_pending :
    Env
    → String
    → String
    → Time
    → Option ServiceObservedState
    → DeploymentStatus
    → String
    → String
    → Action None
exhausted_pending env service_id node_id at observed? status reason sync_reason = do
  park service_id reason at
      (degraded_state observed? service_id (some node_id) status ServiceHealth.unhealthy at)
  modify (set_cooldown env service_id at)
  sync_ingress env service_id sync_reason

-- The target's agent did not deploy the service.
unfoldable pub exhausted_deploy_failed :
    Env → String → String → NodeState → Time → Option ServiceObservedState → Action None
exhausted_deploy_failed env service_id node_id target at observed? = do
  park service_id "Restart exhausted and target node deploy failed" at (
      degraded_state observed? service_id (some node_id) DeploymentStatus.failed
        ServiceHealth.unhealthy at)
  append_event env EventType.self_healing "Service reschedule failed after restart limit reached" (
      ("service_id", text service_id)
      ∷ ("from_node_id", text node_id)
      ∷ ("candidate_node_id", text target.node_id)
      ∷ [])
  modify (set_cooldown env service_id at)
  sync_ingress env service_id "reschedule_deploy_failed"

-- The best-effort stop on the node that is left.
unfoldable pub stop_previous : Env → String → String → Option NodeState → Action None
stop_previous env service_id node_id old_node? = on_option old_node? (pure tt) λ old_node. do
  reply ←
      request (λ calls. env.remote.stop calls old_node.agent_url service_id)
        (Call.stop old_node.agent_url service_id)
  on_reply reply
      (λ message.
        append_event env EventType.self_healing "Best-effort stop on previous node failed"
          (("service_id", text service_id) ∷ ("node_id", text node_id) ∷ []))
      λ done. pure tt

-- The target runs the service: the old node is stopped and the placement moves.
unfoldable pub exhausted_moved :
    Env → String → String → Time → Option NodeState → NodeState → AgentDeployResponse → Action None
unfolding stop_previous stop_quietly
exhausted_moved env service_id node_id at old_node? target deployed = do
  stop_previous env service_id node_id old_node?
  new_gen ← updates (Store.increment_service_generation service_id)
  roll_back
      (write_all env.write_fault (
        Store.set_placement
          (record { service_id = service_id; node_id = target.node_id; placed_at = at })
        ∷ Store.reset_restart_counter service_id env.now
        ∷ Store.pop_pending_deployment service_id
        ∷ Store.set_service_observed (replaced_observed env service_id new_gen target deployed at)
        ∷ []))
      (stop_quietly env target.agent_url service_id)
  writes (
      Store.add_recovery_record
        (recovery_record service_id "reschedule" "restart_exhausted" node_id target.node_id at))
  append_event env EventType.self_healing "Service rescheduled after repeated health failures" (
      ("service_id", text service_id)
      ∷ ("from_node_id", text node_id)
      ∷ ("to_node_id", text target.node_id)
      ∷ ("generation", number new_gen)
      ∷ [])
  modify (set_cooldown env service_id at)
  sync_ingress env service_id "rescheduled_after_restart_limit"

-- From the choice of a target on.
unfoldable pub exhausted_move_to :
    Env
    → ServiceDesiredState
    → String
    → String
    → Time
    → Option ServiceObservedState
    → List NodeState
    → String
    → Action None
unfolding exhausted_pending exhausted_deploy_failed exhausted_moved
exhausted_move_to env desired service_id node_id at observed? nodes target_id =
    on_option (find_node nodes target_id)
      (exhausted_pending env service_id node_id at observed? DeploymentStatus.pending
        "Restart exhausted and selected target node is no longer available"
        "reschedule_target_missing")
      λ target. do
        reply ←
            request (λ calls. env.remote.deploy calls target.agent_url desired.service)
              (Call.deploy target.agent_url desired.service)
        on_reply reply
            (λ message. exhausted_deploy_failed env service_id node_id target at observed?)
            λ deployed.
              exhausted_moved env service_id node_id at (find_node nodes node_id) target deployed

unfoldable pub reschedule_after_exhausted_restart : Env → String → String → Time → Action None
unfolding exhausted_move_to
reschedule_after_exhausted_restart env service_id current_node_id at = do
  desired? ← reads (Store.get_service_desired service_id)
  on_option desired? (pure tt) λ desired. do
    observed? ← reads (Store.get_service_observed service_id)
    nodes ← reads Store.list_nodes
    let decision = env.scheduler desired.service (other_nodes current_node_id nodes)
    on_option decision.selected_node_id
        (exhausted_pending env service_id current_node_id at observed? DeploymentStatus.pending
          "Restart exhausted and no healthy candidate for reschedule" "reschedule_no_candidate")
        λ target_id.
          exhausted_move_to env desired service_id current_node_id at observed? nodes target_id
