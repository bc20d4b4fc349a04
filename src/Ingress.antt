-- ===== src/Ingress.antt =====
-- controller/ingress_manager.py: `IngressManager.sync_service` and what it calls. The manager's own
-- lock makes it one action. The wait between two attempts changes nothing that is modelled; the
-- docker client behind `_reload_nginx` is a parameter.
pub mod Reload
pub mod Frame
use orchestrator_thesis.Prelude.{
  ℕ, zero, suc, String, Bool, true, false, not, Option, none, some, List, [], ◌∷◌, ◌==◌, or_else,
  if◌then◌else◌,
}
use orchestrator_thesis.Decimal.{◌<>◌, show}
use orchestrator_thesis.Table.{get}
use orchestrator_thesis.Address.{first_valid_node_address}
use orchestrator_thesis.Models.{
  NodeState, EventType, Detail, text, DeploymentStatus, is_running, find_node,
}
use orchestrator_thesis.Store
use orchestrator_thesis.World.{
  on_option, on_reply, Env, World, ControllerSettings, Action, None, Call, Reply, answer, fault,
  AgentLocalStateResponse, AgentWorkloadState, returned, raised, raise, pure, reads, gets, request,
  modify, ◌>>=◌, ◌>>◌, append_event,
}

-- `_SyncDecision`
pub record SyncDecision : Type 0 where
  pub should_update : Bool
  pub target : Option String

abbrev decision : Bool → Option String → SyncDecision
decision should_update target = record { should_update = should_update; target = target }

-- What one successful read says of the service: where it can be reached.
unfoldable pub routable_target : String → NodeState → AgentLocalStateResponse → Option String
routable_target service_id node local_state = elim (get local_state.workloads service_id) [
  | none ↦ none
  | some workload ↦ elim workload.published_port [
    | none ↦ none
    | some port ↦
        elim (first_valid_node_address
          (some local_state.node_address ∷ some node.node_address ∷ [])) [
            | none ↦ none
            | some node_address ↦ some (node_address <> ":" <> show port)
          ]
  ]
]

-- The attempts that are left, `read_succeeded` being what it is so far.
unfoldable pub attempts : ℕ → Bool → Env → String → NodeState → Action SyncDecision
unfolding routable_target
attempts zero read_succeeded env service_id node = pure (decision read_succeeded none)
attempts (suc left) read_succeeded env service_id node = do
  reply ←
      request (λ calls. env.remote.get_local_state calls node.agent_url)
        (Call.get_local_state node.agent_url)
  on_reply reply (λ message. attempts left read_succeeded env service_id node)
      λ local_state.
        on_option (routable_target service_id node local_state)
          (attempts left true env service_id node) λ target. pure (decision true (some target))

abbrev pub max_attempts : ℕ
max_attempts = 20

unfoldable pub resolve_target : Env → String → Action SyncDecision
resolve_target env service_id = do
  observed? ← reads (Store.get_service_observed service_id)
  placement? ← reads (Store.get_placement service_id)
  on_option observed? (pure (decision true none)) λ observed.
      if not (is_running observed.status)
      then pure (decision true none)
      else on_option placement? (pure (decision true none)) λ placement. do
        nodes ← reads Store.list_nodes
        on_option (find_node nodes placement.node_id) (pure (decision true none))
            λ node. attempts max_attempts false env service_id node

-- `_render_upstream_file`; the lines are joined and ended by line feeds.
unfoldable pub render_upstream_file : ControllerSettings → Option String → String
render_upstream_file settings target =
    "# Generated by controller ingress manager. Do not edit manually.\n"
    <> "# Active service: "
    <> settings.ingress_active_service_id
    <> "\n"
    <> elim target [ none ↦ "" | some t ↦ "server " <> t <> ";\n" ]

-- `write_text`. If it raises, the file is what the surroundings say.
unfoldable pub write_file : Env → String → Action None
write_file env content w = elim (env.files.write_error w) [
  | none ↦ (returned tt, record w { upstream_file = some content })
  | some failure ↦ (raised failure.0, record w { upstream_file = failure.1 })
]

-- `_write_upstream_config`: whether the file changed. A file that is not there reads as "". Making the
-- directory, reading and writing may raise, which nothing in `sync_service` catches.
unfoldable pub write_upstream_config : Env → Option String → Action Bool
unfolding render_upstream_file write_file
write_upstream_config env target = do
  let content = render_upstream_file env.settings target
  failure? ← gets env.files.read_error
  on_option failure?
      (do
        previous ← gets (λ w. or_else w.upstream_file "")
        if previous == content then pure false else do write_file env content; pure true)
      λ e. raise e

pub ingress_updated : Env → String → String → Option String → Action None
ingress_updated env service_id reason target =
    append_event env EventType.ingress "Ingress target updated" (
      ("service_id", text service_id)
      ∷ ("target", text (or_else target env.settings.ingress_unavailable_target))
      ∷ ("reason", text reason)
      ∷ [])

-- The end of `sync_service`, after the file has changed.
pub reload_and_log : Env → String → String → Option String → Action None
unfolding ingress_updated
reload_and_log env service_id reason target =
    if env.settings.nginx_reload_enabled
    then (do
      reply ← request (λ calls. returned (env.remote.reload_nginx calls)) Call.reload_nginx
      on_reply reply
          (λ error. append_event env EventType.ingress "Ingress reload failed" (
            ("service_id", text service_id) ∷ ("reason", text reason) ∷ ("error", text error) ∷ []))
          λ done. ingress_updated env service_id reason target)
    else ingress_updated env service_id reason target

unfoldable pub sync_service : Env → String → String → Action None
unfolding resolve_target write_upstream_config reload_and_log
sync_service env service_id reason =
    if not env.settings.ingress_enabled
    then pure tt
    else if not (service_id == env.settings.ingress_active_service_id)
    then pure tt
    else do
      decided ← resolve_target env service_id
      if not decided.should_update then pure tt else do
        changed ← write_upstream_config env decided.target
        if not changed then pure tt else reload_and_log env service_id reason decided.target

-- `_sync_ingress` of the two managers: nothing without an ingress manager.
unfoldable pub sync_ingress : Env → String → String → Action None
unfolding sync_service
sync_ingress env service_id reason =
    if env.has_ingress then sync_service env service_id reason else pure tt
