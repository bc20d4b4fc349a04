-- ===== src/ServiceManager/Commands.antt =====
-- `ServiceManager.stop`, `restart`, `retry_pending_deployment` and the three readers.
use orchestrator_thesis.Prelude.{ℕ, String, Option, none, some, List, [], ◌∷◌}
use orchestrator_thesis.Decimal.{◌<>◌}
use orchestrator_thesis.Models.{
  ServiceDesiredState, ServiceObservedState, ServiceHealth, DeploymentStatus, EventType,
  EventRecord, NodeState, Placement, text, find_node,
}
use orchestrator_thesis.Store
use orchestrator_thesis.World.{
  on_option, on_reply, Env, Action, None, Call, value_error, agent_client_error, pure, raise, reads,
  writes, request, ◌>>=◌, ◌>>◌, append_event,
}
use orchestrator_thesis.Ingress.{sync_ingress}
use orchestrator_thesis.ServiceManager.{observed_state, deploy}

-- The agent of the placed node is asked to stop the service; a failure is only logged.
unfoldable pub stop_on_agent : Env → String → Option Placement → Action None
stop_on_agent env service_id placement? = on_option placement? (pure tt) λ placement. do
  nodes ← reads Store.list_nodes
  on_option (find_node nodes placement.node_id) (pure tt) λ node. do
    reply ←
        request (λ calls. env.remote.stop calls node.agent_url service_id)
          (Call.stop node.agent_url service_id)
    on_reply reply
        (λ message.
          append_event env EventType.deployment "Service stop failed on agent"
            (("service_id", text service_id) ∷ ("node_id", text node.node_id) ∷ []))
        λ done. pure tt

-- The desired state, if there is one, becomes `stopped`.
unfoldable pub stop_desired : Env → Option ServiceDesiredState → Action None
stop_desired env desired? = on_option desired? (pure tt) λ desired. writes (
    Store.set_service_desired
      (record desired { status = DeploymentStatus.stopped; updated_at = env.now }))

-- `stop`, under the lock `_stop_unlocked`
unfoldable pub stop : Env → String → Action ServiceObservedState
unfolding stop_on_agent stop_desired
stop env service_id = do
  placement? ← reads (Store.get_placement service_id)
  stop_on_agent env service_id placement?
  let observed =
      observed_state env service_id DeploymentStatus.stopped ServiceHealth.unknown none none
  writes (Store.set_service_observed observed)
  writes (Store.clear_placement service_id)
  writes (Store.pop_pending_deployment service_id)
  writes (Store.reset_restart_counter service_id env.now)
  desired? ← reads (Store.get_service_desired service_id)
  stop_desired env desired?
  append_event env EventType.deployment "Service stopped" (("service_id", text service_id) ∷ [])
  sync_ingress env service_id "service_stopped"
  pure observed

-- The new observed state after a restart that the agent carried out.
abbrev pub restarted_state :
    Env → String → NodeState → Option ServiceObservedState → ServiceObservedState
restarted_state env service_id node none =
    observed_state env service_id DeploymentStatus.running ServiceHealth.unknown none
      (some node.node_id)
restarted_state env service_id node (some observed) = record observed {
  status = DeploymentStatus.running;
  health = ServiceHealth.unknown;
}

unfoldable pub restart_on :
    Env → String → NodeState → Option ServiceObservedState → Action ServiceObservedState
restart_on env service_id node observed? = do
  reply ←
      request (λ calls. env.remote.restart calls node.agent_url service_id)
        (Call.restart node.agent_url service_id)
  on_reply reply (λ message. raise (agent_client_error message))
      λ done. do
        let observed = restarted_state env service_id node observed?
        writes (Store.set_service_observed observed)
        append_event env EventType.deployment "Service restarted"
            (("service_id", text service_id) ∷ ("node_id", text node.node_id) ∷ [])
        sync_ingress env service_id "service_restarted"
        pure observed

-- `restart`, under the lock `_restart_unlocked`
unfoldable pub restart : Env → String → Action ServiceObservedState
unfolding restart_on
restart env service_id = do
  placement? ← reads (Store.get_placement service_id)
  observed? ← reads (Store.get_service_observed service_id)
  on_option placement?
      (on_option observed?
        (raise (value_error ("Service placement not found for service_id=" <> service_id)))
        λ observed. pure observed)
      λ placement. do
        nodes ← reads Store.list_nodes
        on_option (find_node nodes placement.node_id)
            (raise (value_error ("Service node not found for service_id=" <> service_id)))
            λ node. restart_on env service_id node observed?

-- `retry_pending_deployment`, under the lock `_retry_pending_deployment_unlocked`
unfoldable pub retry_pending_deployment : Env → String → Action (Option ServiceObservedState)
retry_pending_deployment env service_id = do
  desired? ← reads (Store.get_service_desired service_id)
  on_option desired? (do writes (Store.pop_pending_deployment service_id); pure none)
      λ desired. do observed ← deploy env desired.service; pure (some observed)

unfoldable pub get_service : String → Action (Option ServiceObservedState)
get_service service_id = reads (Store.get_service_observed service_id)

unfoldable pub list_nodes : Action (List NodeState)
list_nodes = reads Store.list_nodes

unfoldable pub list_events : ℕ → Action (List EventRecord)
list_events limit = reads (Store.list_events limit)
