-- ===== src/Agent/Workloads.antt =====
-- agent/app/services/workload_manager.py: `AgentWorkloadManager` without its health checks.
pub mod Results
use orchestrator_thesis.Prelude.{
  String, Bool, true, false, ◌&&◌, Option, none, some, or_else, List, [], ◌∷◌, ◌==◌, if◌then◌else◌,
}
use orchestrator_thesis.Table.{Table, empty, put}
use orchestrator_thesis.Models.{ServiceSpec}
use orchestrator_thesis.Agent.{
  AgentSettings, AgentLocalState, WorkloadRecord, WorkloadStatus, ExecuteResponse, ContainerInfo,
  AgentError, key_error, is_running,
}
use orchestrator_thesis.Agent.State.{get_workload, list_workloads, upsert_workload}
use orchestrator_thesis.Agent.Ports.{ensure_published_port}
use orchestrator_thesis.Agent.Adapter.{Adapter, AgentEnv, AgentWorld, AgentAction, on_docker}
use orchestrator_thesis.Effect.{Outcome, returned, raised, pure, raise, gets, modify, ◌>>=◌, ◌>>◌}

abbrev pub response : AgentSettings → String → String → String → ExecuteResponse
response settings service_id container_id status = record {
  service_id = service_id;
  container_id = container_id;
  status = status;
  node_id = some settings.node_id;
}

-- `container_id or ""`
abbrev pub id_or_empty : Option String → String
id_or_empty none = ""
id_or_empty (some container_id) = container_id

-- The test of `deploy` for a workload that runs already: its container id, if it does.
unfoldable pub already_running : Option WorkloadRecord → Option ContainerInfo → Option String
already_running none existing = none
already_running (some current) none = none
already_running (some current) (some existing) = elim current.container_id [
  | none ↦ none
  | some container_id ↦
      if is_running current.status && existing.container_id == container_id
      then some container_id
      else none
]

module _ {D : Type 0} where
  unfoldable pub save : AgentEnv D → WorkloadRecord → AgentAction D (Unit {0})
  save env workload = modify (λ w. record w { state = upsert_workload env.now workload w.state })

  -- The result of a call that needs no state.
  unfoldable pub settle : {A : Type 0} → Outcome AgentError A → AgentAction D A
  settle (returned a) = pure a
  settle (raised e) = raise e

  -- `WorkloadRecord(...)` of a container that has just been deployed
  abbrev pub deployed_record : AgentEnv D → ServiceSpec → ContainerInfo → WorkloadRecord
  deployed_record env service container = record {
    service = service;
    container_id = some container.container_id;
    published_port = container.published_port;
    container_ip = container.container_ip;
    status = WorkloadStatus.running;
    health_failures = 0;
    updated_at = env.now;
    last_health_check_at = none;
    last_healthy_at = some env.now;
    last_unhealthy_at = none;
  }

  -- `deploy`, past the early return
  unfoldable pub deploy_container : AgentEnv D → ServiceSpec → AgentAction D ExecuteResponse
  unfolding save
  deploy_container env service = do
    container ← on_docker (env.adapter.deploy service)
    save env (deployed_record env service container)
    pure (response env.settings service.service_id container.container_id "running")

  -- `deploy`, past the test of that return
  abbrev pub deploy_unless :
      AgentEnv D → String → ServiceSpec → Option String → AgentAction D ExecuteResponse
  deploy_unless env service_id service_with_port (some container_id) =
      pure (response env.settings service_id container_id "already_running")
  deploy_unless env service_id service_with_port none = deploy_container env service_with_port

  unfoldable pub deploy : AgentEnv D → ServiceSpec → AgentAction D ExecuteResponse
  unfolding deploy_container settle
  deploy env service = do
    workloads ← gets (λ w. list_workloads w.state)
    service_with_port ← settle (ensure_published_port env.crc32 env.settings service workloads)
    current ← gets (λ w. get_workload service.service_id w.state)
    existing_local ← on_docker (env.adapter.inspect service.service_id)
    deploy_unless env service.service_id service_with_port (already_running current existing_local)

  -- `stop`, of a workload that is known
  unfoldable pub stop_workload :
      AgentEnv D → String → WorkloadRecord → AgentAction D ExecuteResponse
  unfolding save
  stop_workload env service_id current = do
    on_docker (env.adapter.stop service_id)
    save env (record current {
      status = WorkloadStatus.stopped;
      health_failures = 0;
      last_unhealthy_at = none;
    })
    pure (response env.settings service_id (id_or_empty current.container_id) "stopped")

  unfoldable pub stop : AgentEnv D → String → AgentAction D ExecuteResponse
  unfolding stop_workload
  stop env service_id = do
    current? ← gets (λ w. get_workload service_id w.state)
    elim current? [
      | none ↦ pure (response env.settings service_id "" "stopped")
      | some current ↦ stop_workload env service_id current
    ]

  -- `restart`, of a workload that is known
  unfoldable pub restart_workload :
      AgentEnv D → String → WorkloadRecord → AgentAction D ExecuteResponse
  unfolding save
  restart_workload env service_id current = do
    on_docker (env.adapter.restart service_id)
    save env (record current {
      status = WorkloadStatus.running;
      health_failures = 0;
      last_healthy_at = some env.now;
      last_unhealthy_at = none;
    })
    pure (response env.settings service_id (id_or_empty current.container_id) "running")

  unfoldable pub restart : AgentEnv D → String → AgentAction D ExecuteResponse
  unfolding restart_workload
  restart env service_id = do
    current? ← gets (λ w. get_workload service_id w.state)
    elim current? [
      | none ↦ raise (key_error service_id)
      | some current ↦ restart_workload env service_id current
    ]

  -- The loop of `get_local_state` over the items of the dict, `local_workloads` being what it has.
  unfoldable pub inspect_each :
      AgentEnv D
      → (String → Option WorkloadRecord)
      → List String
      → Table WorkloadRecord
      → AgentAction D (Table WorkloadRecord)
  inspect_each env workload_of [] local_workloads = pure local_workloads
  inspect_each env workload_of (service_id ∷ ids) local_workloads = do
    container? ← on_docker (env.adapter.inspect service_id)
    inspect_each env workload_of ids (elim container? [
      | none ↦ local_workloads
      | some container ↦ elim (workload_of service_id) [
        | none ↦ local_workloads
        | some workload ↦ put local_workloads service_id (record workload {
          container_id = some container.container_id;
          published_port = container.published_port;
          container_ip = container.container_ip;
        })
      ]
    ])

  unfoldable pub get_local_state : AgentEnv D → AgentAction D AgentLocalState
  unfolding inspect_each
  get_local_state env = do
    state ← gets (λ w. w.state)
    local_workloads ← inspect_each env state.workloads.at state.workloads.keys empty
    pure (record state { workloads = local_workloads })
