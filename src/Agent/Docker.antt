-- ===== src/Agent/Docker.antt =====
-- agent/app/adapters/docker_adapter.py: `DockerSdkAdapter`, over the docker SDK, which is a
-- parameter. A container is what the SDK's object shows; `reload` shows it anew.
pub mod Ownership
use Prim.Native.Char.{code}
use orchestrator_thesis.Prelude.{
  ℕ, zero, suc, String, Bool, true, false, not, ◌&&◌, ◌||◌, Option, none, some, or_else, List, [],
  ◌∷◌, ◌==◌, eqb, ltb, leb, if◌then◌else◌,
}
use orchestrator_thesis.Decimal.{◌<>◌, show}
use orchestrator_thesis.Address.{lower_is, lower_code}
use orchestrator_thesis.Models.{ServiceSpec}
use orchestrator_thesis.Agent.{ContainerInfo, AgentError, docker_adapter_error, api_error}
use orchestrator_thesis.Agent.Adapter.{Adapter}
use orchestrator_thesis.Agent.Naming.{safe_container_name}
use orchestrator_thesis.Agent.Watcher.{is_text, int_digits}
use orchestrator_thesis.Effect.{Outcome, returned, raised, Effect, pure, raise, ◌>>=◌, ◌>>◌}
use orchestrator_thesis.Agent.Containers.{
  Container, is_owned, first_owned, first_foreign, or_address, first_address, address_on, is_digits,
  host_port_of, bound_port, first_port, bindings_of, port_among, lower_starts, lower_contains,
  is_port_conflict, deploy_error,
}

-- The arguments of `containers.run`
pub record RunRequest : Type 0 where
  pub image : String
  pub command : List String
  pub environment : List (String × String)
  pub internal_port : ℕ
  pub published_port : Option ℕ
  pub service_id : String
  pub node_id : String
  pub name : String
  pub network : String

-- A filter of `containers.list`
pub data Filter : Type 0 where
  by_labels : List String → Filter
  by_name : String → Filter

pub record Sdk (D : Type 0) : Type 0 where
  pub list : Filter → Effect AgentError D (List Container)
  pub run : RunRequest → Effect AgentError D Container
  pub reload : Container → Effect AgentError D Container
  pub remove : Container → Effect AgentError D (Unit {0})
  pub stop : Container → Effect AgentError D (Unit {0})
  pub restart : Container → Effect AgentError D (Unit {0})

-- The configuration of a `DockerSdkAdapter`
pub record DockerEnv (D : Type 0) : Type 0 where
  pub sdk : Sdk D
  pub network_name : String
  pub node_id : String

module _ {D : Type 0} where
  -- `try: ... except APIError as exc: raise ...`
  unfoldable pub on_api_error :
      {A : Type 0}
      → (String → String → AgentError)
      → Outcome AgentError A × D
      → Outcome AgentError A × D
  on_api_error f (raised (api_error message explanation), d) = (raised (f message explanation), d)
  on_api_error f r = r

  unfoldable pub catching :
      {A : Type 0} → Effect AgentError D A → (String → String → AgentError) → Effect AgentError D A
  unfolding on_api_error
  catching m f d = on_api_error f (m d)

  unfoldable pub find_container : DockerEnv D → String → Effect AgentError D (Option Container)
  unfolding first_owned
  find_container env service_id = do
    containers ← env.sdk.list (
        by_labels (
          "orchestrator.managed=true"
          ∷ ("orchestrator.service_id=" <> service_id)
          ∷ ("orchestrator.node_id=" <> env.node_id)
          ∷ []))
    pure (first_owned env.node_id service_id containers)

  unfoldable pub find_container_by_name :
      DockerEnv D → String → Effect AgentError D (Option Container)
  unfolding first_foreign
  find_container_by_name env container_name = do
    containers ← env.sdk.list (by_name container_name)
    pure (first_foreign env.node_id containers)

  unfoldable pub container_id : Container → Effect AgentError D String
  container_id container = elim container.id [
    | none ↦ raise (docker_adapter_error "Container ID is unavailable")
    | some id ↦
        if id == "" then raise (docker_adapter_error "Container ID is unavailable") else pure id
  ]

  unfoldable pub container_ip : DockerEnv D → Container → Effect AgentError D (Option String)
  unfolding first_address address_on
  container_ip env container = do
    shown ← env.sdk.reload container
    pure (or_address (address_on env.network_name shown.networks) (first_address shown.networks))

  unfoldable pub published_port : DockerEnv D → ℕ → Container → Effect AgentError D (Option ℕ)
  unfolding port_among
  published_port env internal_port container = do
    shown ← env.sdk.reload container
    pure (port_among internal_port shown.ports)

  -- `ContainerInfo(...)`
  unfoldable pub describe : DockerEnv D → ℕ → Container → Effect AgentError D ContainerInfo
  unfolding container_id container_ip published_port
  describe env internal_port container = do
    id ← container_id container
    ip ← container_ip env container
    port ← published_port env internal_port container
    pure (record { container_id = id; container_ip = ip; published_port = port })

  -- The body of the second `try` of `_deploy_sync`
  unfoldable pub run_container : DockerEnv D → ServiceSpec → Effect AgentError D ContainerInfo
  unfolding describe
  run_container env service = do
    created ← env.sdk.run (record {
      image = service.image;
      command = service.command;
      environment = service.env;
      internal_port = service.internal_port;
      published_port = service.published_port;
      service_id = service.service_id;
      node_id = env.node_id;
      name = safe_container_name env.node_id service.service_id;
      network = env.network_name;
    })
    container ← env.sdk.reload created
    describe env service.internal_port container

  -- `_deploy_sync` from the search by name on
  unfoldable pub deploy_new : DockerEnv D → ServiceSpec → Effect AgentError D ContainerInfo
  unfolding find_container_by_name run_container catching deploy_error
  deploy_new env service = do
    occupied ← find_container_by_name env (safe_container_name env.node_id service.service_id)
    elim occupied [
      | some container ↦ raise (
          docker_adapter_error (
            "Container name collision for service=" <> service.service_id <> " on node="
            <> env.node_id <> "; existing container is not owned by this agent"))
      | none ↦ catching (run_container env service) (deploy_error service)
    ]

  -- `_deploy_sync`, of a container that is there
  unfoldable pub deploy_over :
      DockerEnv D → ServiceSpec → Container → Effect AgentError D ContainerInfo
  unfolding deploy_new
  deploy_over env service existing = do
    shown ← env.sdk.reload existing
    if shown.status == "running"
        then describe env service.internal_port shown
        else (catching (env.sdk.remove shown) (λ message explanation.
              docker_adapter_error
                ("Failed to remove stale container for service=" <> service.service_id))
            >> deploy_new env service)

  unfoldable pub deploy_sync : DockerEnv D → ServiceSpec → Effect AgentError D ContainerInfo
  unfolding find_container deploy_over
  deploy_sync env service = do
    existing ← find_container env service.service_id
    elim existing [
      | none ↦ deploy_new env service
      | some container ↦ deploy_over env service container
    ]

  unfoldable pub stop_sync : DockerEnv D → String → Effect AgentError D (Unit {0})
  unfolding find_container catching
  stop_sync env service_id = do
    container? ← find_container env service_id
    elim container? [
      | none ↦ pure tt
      | some container ↦
          catching (env.sdk.stop container)
            (λ message explanation. docker_adapter_error ("Failed to stop service=" <> service_id))
    ]

  unfoldable pub restart_sync : DockerEnv D → String → Effect AgentError D (Unit {0})
  unfolding find_container catching
  restart_sync env service_id = do
    container? ← find_container env service_id
    elim container? [
      | none ↦ raise (docker_adapter_error ("Service container not found: " <> service_id))
      | some container ↦
          catching (env.sdk.restart container) (λ message explanation.
            docker_adapter_error ("Failed to restart service=" <> service_id))
    ]

  unfoldable pub inspect_sync : DockerEnv D → String → Effect AgentError D (Option ContainerInfo)
  unfolding find_container describe
  inspect_sync env service_id = do
    container? ← find_container env service_id
    elim container? [
      | none ↦ pure none
      | some container ↦ do
        shown ← env.sdk.reload container
        info ← describe env 0 shown
        pure (some info)
    ]

  -- The methods of `DockerSdkAdapter`, each of which runs the one above in a thread.
  unfoldable pub adapter_of : DockerEnv D → Adapter D
  unfolding deploy_sync stop_sync restart_sync inspect_sync
  adapter_of env = record {
    deploy = deploy_sync env;
    stop = stop_sync env;
    restart = restart_sync env;
    inspect = inspect_sync env;
  }
