-- ===== src/SelfHealing/Unreachable.antt =====
-- `_reschedule_from_unreachable_node` and `handle_node_unreachable` of `SelfHealingManager`.
use orchestrator_thesis.Prelude.{
  String, not, Option, none, some, List, [], ◌∷◌, ◌==◌, if◌then◌else◌,
}
use orchestrator_thesis.Models.{
  Time, ServiceDesiredState, ServiceObservedState, ServiceHealth, DeploymentStatus, EventType,
  NodeState, Placement, text, number, find_node,
}
use orchestrator_thesis.Store
use orchestrator_thesis.World.{
  on_option, on_reply, Env, Action, None, Call, AgentDeployResponse, pure, reads, writes, updates,
  request, ◌>>=◌, ◌>>◌, append_event, write_all,
}
use orchestrator_thesis.Ingress.{sync_ingress}
use orchestrator_thesis.ServiceManager.{stop_quietly, roll_back}
use orchestrator_thesis.SelfHealing.Recovery.{degraded_state, park, recovery_record}
use orchestrator_thesis.SelfHealing.Reschedule.{other_nodes, replaced_observed}

-- The pending state when no node can take the service: it is on no node.
abbrev pub stranded_state : Option ServiceObservedState → String → Time → ServiceObservedState
stranded_state none service_id at = record {
  service_id = service_id;
  status = DeploymentStatus.pending;
  health = ServiceHealth.unknown;
  container_id = none;
  node_id = none;
  last_reported_at = at;
  service_generation = 0;
  startup_grace_until = none;
}
stranded_state (some observed) service_id at = record observed {
  status = DeploymentStatus.pending;
  health = ServiceHealth.unknown;
  node_id = none;
  last_reported_at = at;
}

unfoldable pub unreachable_no_candidate :
    Env → Placement → Time → Option ServiceObservedState → Action None
unreachable_no_candidate env placement at observed? = do
  park placement.service_id "Node unreachable and no replacement node available" at
      (stranded_state observed? placement.service_id at)
  sync_ingress env placement.service_id "node_unreachable_no_candidate"

unfoldable pub unreachable_target_missing :
    Env → Placement → Time → Option ServiceObservedState → Action None
unreachable_target_missing env placement at observed? = do
  park placement.service_id "Node unreachable and selected target node is no longer available" at (
      degraded_state observed? placement.service_id (some placement.node_id)
        DeploymentStatus.pending ServiceHealth.unhealthy at)
  sync_ingress env placement.service_id "node_unreachable_target_missing"

unfoldable pub unreachable_deploy_failed :
    Env → Placement → NodeState → Time → Option ServiceObservedState → Action None
unreachable_deploy_failed env placement target at observed? = do
  park placement.service_id "Node unreachable reschedule deploy failed" at (
      degraded_state observed? placement.service_id (some placement.node_id) DeploymentStatus.failed
        ServiceHealth.unhealthy at)
  append_event env EventType.self_healing "Service reschedule failed due to unreachable node" (
      ("service_id", text placement.service_id)
      ∷ ("from_node_id", text placement.node_id)
      ∷ ("candidate_node_id", text target.node_id)
      ∷ [])
  sync_ingress env placement.service_id "node_unreachable_deploy_failed"

-- The target runs the service, and the placement moves.
unfoldable pub unreachable_moved :
    Env → Placement → Time → NodeState → AgentDeployResponse → Action None
unfolding stop_quietly
unreachable_moved env placement at target deployed = do
  let service_id = placement.service_id
  new_gen ← updates (Store.increment_service_generation service_id)
  roll_back
      (write_all env.write_fault (
        Store.set_placement
          (record { service_id = service_id; node_id = target.node_id; placed_at = at })
        ∷ Store.pop_pending_deployment service_id
        ∷ Store.reset_restart_counter service_id env.now
        ∷ Store.set_service_observed (replaced_observed env service_id new_gen target deployed at)
        ∷ []))
      (stop_quietly env target.agent_url service_id)
  writes (
      Store.add_recovery_record (
        recovery_record service_id "reschedule" "node_unreachable" placement.node_id target.node_id
          at))
  append_event env EventType.self_healing "Service rescheduled after node unreachable" (
      ("service_id", text service_id)
      ∷ ("from_node_id", text placement.node_id)
      ∷ ("to_node_id", text target.node_id)
      ∷ ("generation", number new_gen)
      ∷ [])
  sync_ingress env service_id "rescheduled_from_unreachable_node"

unfoldable pub unreachable_move_to :
    Env
    → ServiceDesiredState
    → Placement
    → Time
    → Option ServiceObservedState
    → List NodeState
    → String
    → Action None
unfolding unreachable_target_missing unreachable_deploy_failed unreachable_moved
unreachable_move_to env desired placement at observed? nodes target_id =
    on_option (find_node nodes target_id) (unreachable_target_missing env placement at observed?)
      λ target. do
        reply ←
            request (λ calls. env.remote.deploy calls target.agent_url desired.service)
              (Call.deploy target.agent_url desired.service)
        on_reply reply (λ message. unreachable_deploy_failed env placement target at observed?)
            λ deployed. unreachable_moved env placement at target deployed

unfoldable pub reschedule_from_unreachable_node : Env → Placement → Time → Action None
unfolding unreachable_no_candidate unreachable_move_to
reschedule_from_unreachable_node env placement at = do
  desired? ← reads (Store.get_service_desired placement.service_id)
  on_option desired? (pure tt) λ desired. do
    observed? ← reads (Store.get_service_observed placement.service_id)
    nodes ← reads Store.list_nodes
    let decision = env.scheduler desired.service (other_nodes placement.node_id nodes)
    on_option decision.selected_node_id (unreachable_no_candidate env placement at observed?)
        λ target_id. unreachable_move_to env desired placement at observed? nodes target_id

-- The loop of `handle_node_unreachable` over the placements that it has read.
unfoldable pub reschedule_each : Env → String → Time → List Placement → Action None
reschedule_each env node_id at [] = pure tt
reschedule_each env node_id at (placement ∷ placements) =
    let rest = reschedule_each env node_id at placements in
    if not (placement.node_id == node_id)
    then rest
    else (reschedule_from_unreachable_node env placement at >> rest)

unfoldable pub handle_node_unreachable : Env → String → Time → Action None
unfolding reschedule_each
handle_node_unreachable env node_id at = do
  placements ← reads Store.list_placements
  reschedule_each env node_id at placements
