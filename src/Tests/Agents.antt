-- ===== src/Tests/Agents.antt =====
-- The theorems on the agent, applied at an agent that runs the service "web" in one container.
use orchestrator_thesis.Prelude.{
  ℕ, ◌↔◌, String, ◌≡◌, refl, Option, none, some, List, [], ◌∷◌, ◌==◌, if◌then◌else◌,
}
use orchestrator_thesis.Models.{ServiceSpec, AgentHealthReport}
use orchestrator_thesis.Agent.{other_error, AgentSettings, WorkloadRecord, running, api_error}
use orchestrator_thesis.Agent.State.{new_state, get_workload, upsert_workload}
use orchestrator_thesis.Agent.Ports.{ensure_published_port}
use orchestrator_thesis.Agent.Ports.Choice.{
  IsAvailable, ensure_published_port-IsAvailable, ensure_published_port-returned_iff,
}
use orchestrator_thesis.Agent.Adapter.{
  AgentEnv, AgentWorld, HttpReply, status_code, other_exception,
}
use orchestrator_thesis.Agent.Workloads.{response}
use orchestrator_thesis.Agent.Workloads
use orchestrator_thesis.Agent.Workloads.Results.{
  IsRecorded, IsShown, RunsIn, Unchanged, deploy-IsRecorded, deploy-again,
}
use orchestrator_thesis.Agent.Health.{health_url, check_workload_health, check_at}
use orchestrator_thesis.Agent.Health.Attempts.{IsChecked, IsBroken, check_workload_health-IsChecked}
use orchestrator_thesis.Agent.Health.Reports.{IsReported, check_at-IsReported}
use orchestrator_thesis.Agent.Invariant.{IsKept}
use orchestrator_thesis.Agent.Life.{start, deploys, Life-IsKept}
use orchestrator_thesis.Agent.Docker.{Sdk, DockerEnv, adapter_of}
use orchestrator_thesis.Agent.Containers.{Container}
use orchestrator_thesis.Effect.{returned, raised, ◌>>=◌}
use orchestrator_thesis.Effect.Ends.{Ends}
use orchestrator_thesis.Tests.{web}

abbrev pub web_labels : String → Option String
web_labels key =
    if key == "orchestrator.managed"
    then some "true"
    else if key == "orchestrator.service_id"
    then some "web"
    else if key == "orchestrator.node_id"
    then some "n1"
    else none

abbrev pub web_container : Container
web_container = record {
  id = some "c1";
  labels = web_labels;
  status = "running";
  networks = ("net", some "172.0.0.2") ∷ [];
  ports = ("8080/tcp", some "18080" ∷ []) ∷ [];
}

abbrev pub changed : Container → List String → List String
changed c d = elim (c.labels "orchestrator.service_id") [ none ↦ "" ∷ d | some id ↦ id ∷ d ]

-- Docker has the container of "web", keeps the ids of the services whose containers are changed, and
-- refuses another one for the port.
abbrev pub sdk : Sdk (List String)
sdk = record {
  list = λ filter d. (returned (web_container ∷ []), d);
  run = λ request d. (raised (api_error "500 Server Error" "Port is already allocated"), d);
  reload = λ c d. (returned c, d);
  remove = λ c d. (returned tt, changed c d);
  stop = λ c d. (returned tt, changed c d);
  restart = λ c d. (returned tt, changed c d);
}

abbrev pub docker_env : DockerEnv (List String)
docker_env = record { sdk = sdk; network_name = "net"; node_id = "n1" }

abbrev pub agent_settings : AgentSettings
agent_settings = record {
  node_id = "n1";
  agent_public_url = "http://agent:9000";
  advertised_host = "10.0.0.1";
  health_check_retries = 3;
  crash_report_cooldown_seconds = 3;
  published_port_base = 20_000;
  published_port_max = 20_009;
}

-- The first answer is bad, the next ones are good.
abbrev second_good : List String → String → HttpReply
second_good [] url = status_code 500
second_good (u ∷ us) url = status_code 200

abbrev pub agent_env : AgentEnv (List String)
agent_env = record {
  settings = agent_settings;
  crc32 = λ s. 7;
  adapter = adapter_of docker_env;
  http_get = second_good;
  now = 90_000_000;
}

abbrev pub agent_world : AgentWorld (List String)
agent_world = record {
  state = new_state "n1" "10.0.0.1" "http://agent:9000" "http://controller:8000" 80_000_000;
  docker = [];
  requests = [];
}

abbrev portless : ServiceSpec
portless = record web { service_id = "api"; published_port = none }

abbrev web_record : WorkloadRecord
web_record = record {
  service = record web { published_port = some 20_007 };
  container_id = some "c1";
  published_port = some 20_007;
  container_ip = none;
  status = running;
  health_failures = 0;
  updated_at = 80_000_000;
  last_health_check_at = none;
  last_healthy_at = none;
  last_unhealthy_at = none;
}

-- The first port tried is that of "web".
next_port :
    ensure_published_port (λ s. 7) agent_settings portless (web_record ∷ [])
    ≡ returned (record portless { published_port = some 20_008 })
unfolding ensure_published_port
next_port = refl

ensure_published_port-IsAvailable_example :
    (port : ℕ) × (record portless { published_port = some 20_008 }
      ≡ record portless { published_port = some port })
    × IsAvailable agent_settings "api" (web_record ∷ []) port
ensure_published_port-IsAvailable_example =
    ensure_published_port-IsAvailable (λ s. 7) agent_settings portless (web_record ∷ [])
      (record portless { published_port = some 20_008 }) refl next_port

ensure_published_port-returned_iff_example :
    ((port : ℕ) × IsAvailable agent_settings "api" (web_record ∷ []) port) ↔ (
      (chosen : ServiceSpec) × (ensure_published_port
          (λ s. 7)
          agent_settings
          portless
          (web_record ∷ [])
        ≡ returned chosen))
ensure_published_port-returned_iff_example =
    ensure_published_port-returned_iff (λ s. 7) agent_settings portless (web_record ∷ []) refl

abbrev deployed_agent : AgentWorld (List String)
deployed_agent = (Workloads.deploy agent_env web agent_world).1

Life-IsKept_example : IsKept deployed_agent.state
Life-IsKept_example = Life-IsKept (
    deploys agent_env web agent_world
      (start "n1" "10.0.0.1" "http://agent:9000" "http://controller:8000" 80_000_000 []))

deploy-IsRecorded_example :
    Ends (RunsIn "web") (Unchanged agent_world) (Workloads.deploy agent_env web) agent_world
deploy-IsRecorded_example = deploy-IsRecorded agent_env web agent_world

-- "web" is on record.
abbrev web_agent : AgentWorld (List String)
web_agent = record agent_world { state = upsert_workload 80_000_000 web_record agent_world.state }

web-IsRecorded : IsRecorded web_agent.state "web" running (some "c1")
unfolding upsert_workload get_workload
web-IsRecorded = record { workload = web_record; known = refl; has_status = refl; has_id = refl }

web_shown : IsShown agent_env "web" "c1" web_agent
unfolding adapter_of ◌>>=◌
web_shown = record {
  container = record {
    container_id = "c1";
    container_ip = some "172.0.0.2";
    published_port = some 18_080;
  };
  docker = [];
  shows = refl;
  same = refl;
}

deploy-again_example : Workloads.deploy agent_env web web_agent ≡ (
  returned (response agent_settings "web" "c1" "already_running"),
  record web_agent { docker = [] },
)
unfolding web_shown
deploy-again_example =
    deploy-again agent_env web web_agent 18_080 "c1" refl web-IsRecorded web_shown

check_workload_health-IsChecked_example :
    Ends
      (IsChecked agent_env 3 "http://172.0.0.2:8080/health" agent_world)
      (IsBroken agent_env 3 "http://172.0.0.2:8080/health" agent_world)
      (check_workload_health agent_env "http://172.0.0.2:8080/health")
      agent_world
check_workload_health-IsChecked_example =
    check_workload_health-IsChecked agent_env "http://172.0.0.2:8080/health" agent_world

check_at-IsReported_example :
    Ends
      (λ (report : AgentHealthReport) (w' : AgentWorld (List String)).
        IsReported "n1" web_record report w'.state)
      (λ e w'.
        ((message : String) × (requests : List String) × (second_good requests
              (health_url web_record "172.0.0.2")
            ≡ other_exception message)
          × (e ≡ other_error message))
        × (w'.state ≡ agent_world.state))
      (check_at agent_env web_record "172.0.0.2")
      agent_world
check_at-IsReported_example = check_at-IsReported agent_env web_record "172.0.0.2" agent_world
