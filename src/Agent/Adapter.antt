-- ===== src/Agent/Adapter.antt =====
-- The protocol `DockerAdapter` of agent/app/adapters/docker_adapter.py, on a docker state `D`, and
-- what a method of the agent's workload manager runs in.
use orchestrator_thesis.Prelude.{ℕ, String, Option, List}
use orchestrator_thesis.Models.{Time, ServiceSpec}
use orchestrator_thesis.Agent.{AgentSettings, AgentLocalState, ContainerInfo, AgentError}
use orchestrator_thesis.Effect.{Effect}

pub record Adapter (D : Type 0) : Type 0 where
  pub deploy : ServiceSpec → Effect AgentError D ContainerInfo
  pub stop : String → Effect AgentError D (Unit {0})
  pub restart : String → Effect AgentError D (Unit {0})
  pub inspect : String → Effect AgentError D (Option ContainerInfo)

-- What a GET comes to: an answer with its status code, an `httpx.HTTPError`, or another exception, such
-- as `httpx.InvalidURL`.
pub data HttpReply : Type 0 where
  status_code : ℕ → HttpReply
  http_error : HttpReply
  other_exception : String → HttpReply

-- `httpx` is a parameter: what a GET of a URL comes to, given the requests made so far. `now` is the
-- clock reading of one call.
pub record AgentEnv (D : Type 0) : Type 0 where
  pub settings : AgentSettings
  pub crc32 : String → ℕ
  pub adapter : Adapter D
  pub http_get : List String → String → HttpReply
  pub now : Time

pub record AgentWorld (D : Type 0) : Type 0 where
  pub state : AgentLocalState
  pub docker : D
  -- Health requests made, the latest first.
  pub requests : List String

abbrev pub AgentAction : Type 0 → Type 0 → Type 0
AgentAction D A = Effect AgentError (AgentWorld D) A

module _ {D : Type 0} where
  -- A call of the adapter.
  unfoldable pub on_docker : {A : Type 0} → Effect AgentError D A → AgentAction D A
  on_docker call w = let (r, d) = call w.docker in (r, record w { docker = d })
