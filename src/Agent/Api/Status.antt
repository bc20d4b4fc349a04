-- ===== src/Agent/Api/Status.antt =====
-- A taken port, from docker through agent/app/adapters/docker_adapter.py to the answer of
-- agent/app/api/__init__.py.
use text.Mathlib.Text.{starts_with}
use text.Mathlib.TextLemmas.{append_assoc}
use text.Mathlib.TextPositions.{starts_with-append}
use orchestrator_thesis.Prelude.{ℕ, String, ◌≡◌, refl, ap, ◌∙◌, true, Option, none, some}
use orchestrator_thesis.Decimal.{◌<>◌, show}
use orchestrator_thesis.Models.{ServiceSpec}
use orchestrator_thesis.Agent.{
  docker_adapter_error, api_error, ExecuteResponse, WorkloadRecord, AgentError,
}
use orchestrator_thesis.Agent.State.{get_workload, list_workloads}
use orchestrator_thesis.Agent.Adapter.{AgentEnv, AgentWorld, on_docker}
use orchestrator_thesis.Agent.Ports.Choice.{ensure_published_port-kept}
use orchestrator_thesis.Agent.Workloads.{
  already_running, deploy, deploy_unless, deploy_container, settle,
}
use orchestrator_thesis.Agent.Docker.{
  find_container, inspect_sync, deploy_sync, adapter_of, DockerEnv, deploy_new, run_container,
  catching, on_api_error, find_container_by_name,
}
use orchestrator_thesis.Agent.Containers.{is_port_conflict, deploy_error}
use orchestrator_thesis.Agent.Naming.{safe_container_name}
use orchestrator_thesis.Agent.Api.{http_exception, contains, deploy_reply, deploy_service}
use orchestrator_thesis.Effect.{returned, raised, bind_returned, bind_raised, pure, gets}

contains-starts : (text word : String) → starts_with text word ≡ true → contains text word ≡ true
unfolding contains
contains-starts String.[] word h = h
contains-starts (String.◌∷◌ c text) word h = rw h refl

contains-append : (word text : String) → contains (word <> text) word ≡ true
contains-append word text = contains-starts (word <> text) word (starts_with-append word text)

conflict_reply :
    (text : String)
    → deploy_reply {A = ExecuteResponse}
        (raised (docker_adapter_error ("Published port conflict" <> text)))
      ≡ http_exception 409 ("Published port conflict" <> text)
unfolding deploy_reply
conflict_reply text = rw (contains-append "Published port conflict" text) refl

deploy_error-conflict :
    (service : ServiceSpec) (message explanation : String)
    → is_port_conflict message explanation ≡ true
    → (detail : String) × (deploy_reply {A = ExecuteResponse}
          (raised (deploy_error service message explanation))
        ≡ http_exception 409 detail)
unfolding deploy_error
deploy_error-conflict service message explanation conflict =
    let port = elim service.published_port as (λ _. String) [
      | none ↦ "None"
      | some port ↦ show port
    ] in
    let rest = service.service_id <> " on port=" <> port in
    let told : deploy_error service message explanation
        ≡ docker_adapter_error ("Published port conflict for service=" <> rest) =
      rw conflict refl in
    let split : "Published port conflict for service=" <> rest
        ≡ "Published port conflict" <> (" for service=" <> rest) =
      append_assoc "Published port conflict" " for service=" rest in
    (
      _,
      ap (λ e. deploy_reply (raised e)) (told ∙ ap docker_adapter_error split)
          ∙ conflict_reply (" for service=" <> rest),
    )

already_running-none : (current : Option WorkloadRecord) → already_running current none ≡ none
unfolding already_running
already_running-none none = refl
already_running-none (some current) = refl

module _ {D : Type 0} (docker : DockerEnv D) (service : ServiceSpec)
    (message explanation : String) where
  deploy_new-refused :
      (d d' d'' : D)
      → find_container_by_name docker (safe_container_name docker.node_id service.service_id) d
        ≡ (returned none, d')
      → run_container docker service d' ≡ (raised (api_error message explanation), d'')
      → deploy_new docker service d ≡ (raised (deploy_error service message explanation), d'')
  unfolding deploy_new catching on_api_error
  deploy_new-refused d d' d'' free refused =
      bind_returned _ _ d free ∙ ap (on_api_error (deploy_error service)) refused

  -- Without a container, the adapter has none to show and makes a new one.
  inspect_sync-none :
      (d d' : D)
      → find_container docker service.service_id d ≡ (returned none, d')
      → inspect_sync docker service.service_id d ≡ (returned none, d')
  unfolding inspect_sync pure
  inspect_sync-none d d' absent = bind_returned _ _ d absent

  deploy_sync-none :
      (d d' : D)
      → find_container docker service.service_id d ≡ (returned none, d')
      → deploy_sync docker service d ≡ deploy_new docker service d'
  unfolding deploy_sync
  deploy_sync-none d d' absent = bind_returned _ _ d absent

  deploy_container-refused :
      (env : AgentEnv D) (w : AgentWorld D) (e : AgentError) (d : D)
      → deploy_sync docker service w.docker ≡ (raised e, d)
      → deploy_container (record env { adapter = adapter_of docker }) service w
        ≡ (raised e, record w { docker = d })
  unfolding deploy_container on_docker adapter_of
  deploy_container-refused env w e d refused =
      bind_raised _ _ w (ap (λ r. (r.0, record w { docker = r.1 })) refused)

  -- A call to deploy a service with a port, of which docker has no container, and whose name is free,
  -- is answered with status 409 where docker refuses the new container with an error that says that
  -- the port is taken, and no record changes.
  pub deploy_service-conflict :
      (env : AgentEnv D) (w : AgentWorld D) (port : ℕ) (d1 d2 d3 d4 : D)
      → service.published_port ≡ some port
      → find_container docker service.service_id w.docker ≡ (returned none, d1)
      → find_container docker service.service_id d1 ≡ (returned none, d2)
      → find_container_by_name docker (safe_container_name docker.node_id service.service_id) d2
        ≡ (returned none, d3)
      → run_container docker service d3 ≡ (raised (api_error message explanation), d4)
      → is_port_conflict message explanation ≡ true
      → (detail : String) × (deploy_service (record env { adapter = adapter_of docker }) service w
          ≡ (http_exception 409 detail, record w { docker = d4 }))
  unfolding deploy_service deploy on_docker settle gets pure adapter_of
  deploy_service-conflict env w port d1 d2 d3 d4 ported absent absent' free refused conflict =
      let env' = record env { adapter = adapter_of docker } in
      let (detail, told) = deploy_error-conflict service message explanation conflict in
      let w1 : AgentWorld D = record w { docker = d1 } in
      let ended : deploy_sync docker service d1
          ≡ (raised (deploy_error service message explanation), d4) =
        deploy_sync-none d1 d2 absent' ∙ deploy_new-refused d2 d3 d4 free refused in
      let raises : deploy env' service w
          ≡ (raised (deploy_error service message explanation), record w { docker = d4 }) =
        bind_returned _ _ w {a = list_workloads w.state} {s' = w} refl
        ∙ bind_returned _ _ w {s' = w} (
            ap (λ o. settle o w)
              (ensure_published_port-kept env.crc32 env.settings service _ ported))
        ∙ bind_returned _ _ w {a = get_workload service.service_id w.state} {s' = w} refl
        ∙ bind_returned _ _ w {s' = w1}
            (ap (λ r. (r.0, record w { docker = r.1 })) (inspect_sync-none w.docker d1 absent))
        ∙ ap (λ o. deploy_unless env' service.service_id service o w1)
            (already_running-none (get_workload service.service_id w.state))
        ∙ deploy_container-refused env w1 _ d4 ended in
      (
        detail,
        ap (λ r. (deploy_reply r.0, r.1)) raises ∙ ap (λ r. (r, record w { docker = d4 })) told,
      )
