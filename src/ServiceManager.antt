-- ===== src/ServiceManager.antt =====
-- controller/service_manager.py: the methods of `ServiceManager` under the service's lock. What
-- `datetime.now(UTC)` returns during one call is its clock reading `env.now`, also where a model's
-- default factory reads it.
pub mod Commands
use orchestrator_thesis.Prelude.{
  String, true, false, Option, none, some, List, [], ◌∷◌, if◌then◌else◌,
}
use orchestrator_thesis.Decimal.{◌<>◌}
use orchestrator_thesis.Models.{
  ServiceSpec, ServiceDesiredState, ServiceObservedState, ServiceHealth, DeploymentStatus,
  EventType, PendingDeployment, Placement, NodeState, text, is_running, find_node,
}
use orchestrator_thesis.Store
use orchestrator_thesis.Store.{Store}
use orchestrator_thesis.World.{
  on_option, on_reply, Env, World, Action, None, Call, Reply, answer, fault, AgentDeployResponse,
  value_error, runtime_error, agent_client_error, returned, raised, pure, raise, reads, writes,
  request, ◌>>=◌, ◌>>◌, append_event, write_all,
}
use orchestrator_thesis.Ingress.{sync_ingress}

-- `ServiceObservedState(...)` with the fields that the class gives by default
abbrev pub observed_state :
    Env
    → String
    → DeploymentStatus
    → ServiceHealth
    → Option String
    → Option String
    → ServiceObservedState
observed_state env service_id status health container_id node_id = record {
  service_id = service_id;
  status = status;
  health = health;
  container_id = container_id;
  node_id = node_id;
  last_reported_at = env.now;
  service_generation = 0;
  startup_grace_until = none;
}

abbrev pending_deployment : Env → String → String → PendingDeployment
pending_deployment env service_id reason = record {
  service_id = service_id;
  reason = reason;
  created_at = env.now;
}

-- No node can take the service.
unfoldable pub placement_failed : Env → ServiceSpec → String → Action ServiceObservedState
placement_failed env service reason = do
  let service_id = service.service_id
  let observed =
      observed_state env service_id DeploymentStatus.placement_failed ServiceHealth.unknown none
        none
  writes (Store.set_service_observed observed)
  writes (Store.set_pending_deployment (pending_deployment env service_id reason))
  append_event env EventType.scheduler "Placement failed, deployment moved to pending"
      (("service_id", text service_id) ∷ ("reason", text reason) ∷ [])
  sync_ingress env service_id "placement_failed"
  pure observed

-- The agent did not deploy the service.
unfoldable pub deploy_failed : Env → ServiceSpec → NodeState → String → Action ServiceObservedState
deploy_failed env service selected_node message = do
  let service_id = service.service_id
  let observed =
      observed_state env service_id DeploymentStatus.pending ServiceHealth.unknown none none
  writes (Store.set_service_observed observed)
  writes (Store.set_pending_deployment (pending_deployment env service_id message))
  append_event env EventType.deployment "Agent deployment failed, service pending"
      (("service_id", text service_id) ∷ ("node_id", text selected_node.node_id) ∷ [])
  sync_ingress env service_id "deploy_failed"
  pure observed

-- `await self._agent_client.stop(...)` with `except AgentClientError: pass`
unfoldable pub stop_quietly : Env → String → String → Action None
stop_quietly env agent_url service_id = do
  request (λ calls. env.remote.stop calls agent_url service_id) (Call.stop agent_url service_id)
  pure tt

-- `try: m except Exception: rollback; raise`
unfoldable pub roll_back : Action None → Action None → Action None
unfolding ◌>>=◌
roll_back m rollback w =
    let (r, w') = m w in
    elim r [ returned a ↦ (returned a, w') | raised e ↦ (rollback >> raise e) w' ]

-- The agent runs the service: five writes, undone at the agent if one of them raises.
unfoldable pub record_deployment :
    Env → ServiceDesiredState → NodeState → AgentDeployResponse → Action ServiceObservedState
unfolding stop_quietly
record_deployment env desired selected_node result = do
  let service_id = desired.service.service_id
  let placement : Placement = record {
    service_id = service_id;
    node_id = selected_node.node_id;
    placed_at = env.now;
  }
  let observed =
      observed_state env service_id DeploymentStatus.running ServiceHealth.unknown
        (some result.container_id) (some selected_node.node_id)
  roll_back
      (write_all env.write_fault (
        Store.set_placement placement
        ∷ Store.pop_pending_deployment service_id
        ∷ Store.set_service_desired
            (record desired { status = DeploymentStatus.running; updated_at = env.now })
        ∷ Store.set_service_observed observed
        ∷ Store.reset_restart_counter service_id env.now
        ∷ []))
      (stop_quietly env selected_node.agent_url service_id)
  append_event env EventType.deployment "Service deployed" (
      ("service_id", text service_id)
      ∷ ("node_id", text selected_node.node_id)
      ∷ ("container_id", text result.container_id)
      ∷ [])
  sync_ingress env service_id "deploy_succeeded"
  pure observed

-- From the scheduler's choice on.
unfoldable pub deploy_on :
    Env → ServiceDesiredState → List NodeState → String → Action ServiceObservedState
unfolding deploy_failed record_deployment
deploy_on env desired nodes selected_node_id =
    on_option (find_node nodes selected_node_id)
      (raise (runtime_error ("Scheduler selected unknown node_id=" <> selected_node_id)))
      λ selected_node. do
        reply ←
            request (λ calls. env.remote.deploy calls selected_node.agent_url desired.service)
              (Call.deploy selected_node.agent_url desired.service)
        on_reply reply (λ message. deploy_failed env desired.service selected_node message)
            λ result. record_deployment env desired selected_node result

-- The part of `_deploy_unlocked` after the early return.
unfoldable pub deploy_anew : Env → ServiceSpec → Action ServiceObservedState
unfolding placement_failed deploy_on
deploy_anew env service = do
  let desired : ServiceDesiredState = record {
    service = service;
    status = DeploymentStatus.deploying;
    created_at = env.now;
    updated_at = env.now;
  }
  writes (Store.set_service_desired desired)
  nodes ← reads Store.list_nodes
  let decision = env.scheduler service nodes
  on_option decision.selected_node_id (placement_failed env service decision.reason)
      λ selected_node_id. deploy_on env desired nodes selected_node_id

-- `deploy`, under the lock `_deploy_unlocked`
unfoldable pub deploy : Env → ServiceSpec → Action ServiceObservedState
unfolding deploy_anew
deploy env service = do
  existing? ← reads (Store.get_service_observed service.service_id)
  on_option existing? (deploy_anew env service)
      λ existing. if is_running existing.status then pure existing else deploy_anew env service
