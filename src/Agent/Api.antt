-- ===== src/Agent/Api.antt =====
-- agent/app/api/__init__.py: the routes. An exception that a route does not turn into an answer
-- becomes status 500 outside of it.
pub mod Status
use text.Mathlib.Text.{starts_with}
use orchestrator_thesis.Prelude.{ℕ, String, Bool, true, false, ◌||◌, if◌then◌else◌}
use orchestrator_thesis.Models.{ServiceSpec}
use orchestrator_thesis.Agent.{
  AgentSettings, AgentLocalState, ExecuteResponse, AgentError, docker_adapter_error, key_error,
}
use orchestrator_thesis.Agent.Adapter.{AgentEnv, AgentWorld}
use orchestrator_thesis.Agent.Workloads
use orchestrator_thesis.Effect.{Outcome, returned, raised}

-- An answer, an `HTTPException`, or another exception that passes the route.
pub data Reply (A : Type 0) : Type 0 where
  answered : A → Reply A
  http_exception : ℕ → String → Reply A
  passed : AgentError → Reply A

pub record HealthResponse : Type 0 where
  pub status : String
  pub node_id : String
  pub node_address : String

-- `word in text`
unfoldable pub contains : String → String → Bool
contains String.[] word = starts_with String.[] word
contains (String.◌∷◌ c text) word = starts_with (String.◌∷◌ c text) word || contains text word

unfoldable pub deploy_reply : {A : Type 0} → Outcome AgentError A → Reply A
unfolding contains
deploy_reply (returned a) = answered a
deploy_reply (raised (docker_adapter_error detail)) =
    if contains detail "Published port conflict"
    then http_exception 409 detail
    else http_exception 500 detail
deploy_reply (raised e) = passed e

unfoldable pub restart_reply : {A : Type 0} → Outcome AgentError A → Reply A
restart_reply (returned a) = answered a
restart_reply (raised (key_error service_id)) = http_exception 404 "service not found"
restart_reply (raised e) = passed e

unfoldable pub plain_reply : {A : Type 0} → Outcome AgentError A → Reply A
plain_reply (returned a) = answered a
plain_reply (raised e) = passed e

module _ {D : Type 0} (env : AgentEnv D) where
  unfoldable pub deploy_service : ServiceSpec → AgentWorld D → Reply ExecuteResponse × AgentWorld D
  unfolding deploy_reply
  deploy_service service w = let (r, w') = Workloads.deploy env service w in (deploy_reply r, w')

  unfoldable pub stop_service : String → AgentWorld D → Reply ExecuteResponse × AgentWorld D
  unfolding plain_reply
  stop_service service_id w = let (r, w') = Workloads.stop env service_id w in (plain_reply r, w')

  unfoldable pub restart_service : String → AgentWorld D → Reply ExecuteResponse × AgentWorld D
  unfolding restart_reply
  restart_service service_id w =
      let (r, w') = Workloads.restart env service_id w in (restart_reply r, w')

  unfoldable pub local_state : AgentWorld D → Reply AgentLocalState × AgentWorld D
  unfolding plain_reply
  local_state w = let (r, w') = Workloads.get_local_state env w in (plain_reply r, w')

-- The route `/health`
unfoldable pub health : AgentSettings → HealthResponse
health settings = record {
  status = "ok";
  node_id = settings.node_id;
  node_address = settings.advertised_host;
}
