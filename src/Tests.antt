-- ===== src/Tests.antt =====
-- Concrete runs: one service, "web", on one or two nodes, at which each theorem is applied.
pub mod Runs
pub mod Agents
pub mod Events
pub mod Servers
use orchestrator_thesis.Prelude.{
  ℕ, ◌+◌, ◌-◌, ◌*◌, String, Bool, true, false, ◌≡◌, refl, Option, none, some, or_else, List, [],
  ◌∷◌, arith,
}
use orchestrator_thesis.Table.{Table, empty, put}
use orchestrator_thesis.Models.{
  Fraction, ServiceSpec, NodeState, NodeStatus, ResourceSnapshot, ServiceDesiredState,
  ServiceObservedState, ServiceHealth, DeploymentStatus, Placement, AgentHealthReport,
  AgentCrashReport, number, EventRecord, EventType,
}
use orchestrator_thesis.Address.{normalize_node_address}
use orchestrator_thesis.Scheduler.{choose_node_least_load}
use orchestrator_thesis.Store
use orchestrator_thesis.Store.{Store, new_store}
use orchestrator_thesis.World.{
  Env, World, ControllerSettings, Remote, answer, fault, returned, AgentDeployResponse, ◌>>=◌,
}
use orchestrator_thesis.Controller.{new_world, Reach, start, then, heartbeat, deployed, reconciled}

-- The difference without rounding, in millionths instead of the smallest floats.
abbrev pub one_minus : Fraction → Fraction
one_minus x = 1_000_000 - x

abbrev pub web : ServiceSpec
web = record {
  service_id = "web";
  image = "sample:1";
  command = [];
  env = [];
  internal_port = 8080;
  published_port = some 18080;
  health_endpoint = "/health";
  min_free_cpu = 100_000;
  min_free_memory = 200_000;
}

abbrev pub settings : ControllerSettings
settings = record {
  health_check_retries = 3;
  heartbeat_timeout_seconds = 15;
  reconciliation_interval_seconds = 5;
  agent_deploy_timeout_seconds = 60;
  agent_command_timeout_seconds = 15;
  agent_read_timeout_seconds = 5;
  max_restart_attempts = 3;
  cooldown_intervals_after_recovery = 2;
  startup_grace_period_seconds = 10;
  event_log_max_items = 200;
  heartbeat_write_threshold_seconds = 10;
  snapshot_change_threshold = 50_000;
  ingress_enabled = true;
  ingress_active_service_id = "web";
  ingress_upstream_file_path = "/shared/nginx/upstreams/active.conf";
  ingress_unavailable_target = "unavailable";
  nginx_reload_enabled = true;
}

-- The agents answer every request, except that none can be asked for its state; nginx fails.
abbrev pub remote : Remote
remote = record {
  deploy = λ calls url s. returned (
      answer (record {
        service_id = s.service_id;
        container_id = "c1";
        status = "running";
        node_id = some "n1";
      }));
  stop = λ calls url id. returned (answer tt);
  restart = λ calls url id. returned (answer tt);
  get_local_state = λ calls url. returned (fault "unreachable");
  reload_nginx = λ calls. fault "nginx reload failed";
}

abbrev pub env : Env
env = record {
  settings = settings;
  scheduler = choose_node_least_load one_minus;
  has_ingress = true;
  now = 100_000_000;
  uuid4 = λ n. "id";
  remote = remote;
  files = record { read_error = λ w. none; write_error = λ w. none };
  write_fault = none;
}

abbrev pub snapshot_of : Fraction → ResourceSnapshot
snapshot_of load = record {
  cpu_utilization = load;
  memory_utilization = 300_000;
  captured_at = 90_000_000;
}

abbrev pub node_of : String → Fraction → NodeState
node_of id load = record {
  node_id = id;
  agent_url = "http://agent:9000";
  node_address = "10.0.0.1";
  status = NodeStatus.healthy;
  last_heartbeat_at = 95_000_000;
  last_resource_snapshot = some (snapshot_of load);
}

abbrev pub two_nodes : List NodeState
two_nodes = node_of "n1" 500_000 ∷ node_of "n2" 400_000 ∷ []

abbrev pub placement : Placement
placement = record { service_id = "web"; node_id = "n1"; placed_at = 50_000_000 }

abbrev pub desired : ServiceDesiredState
desired = record {
  service = web;
  status = DeploymentStatus.running;
  created_at = 50_000_000;
  updated_at = 50_000_000;
}

abbrev pub observed : ServiceObservedState
observed = record {
  service_id = "web";
  status = DeploymentStatus.running;
  health = ServiceHealth.healthy;
  container_id = some "c1";
  node_id = some "n1";
  last_reported_at = 50_000_000;
  service_generation = 0;
  startup_grace_until = none;
}

-- "n1" has been heard of, and "web" runs there.
abbrev pub one_node : Store
one_node =
    Store.upsert_node_heartbeat "n1" "http://agent:9000" (some " 10.0.0.1 ") 95_000_000
      (new_store 5)

abbrev pub web_store : Store
web_store =
    Store.set_service_observed observed
      (Store.set_service_desired desired (Store.set_placement placement one_node))

abbrev pub web_world : World
web_world = record {
  store = web_store;
  cooldown_until = empty;
  active_recovery = empty;
  upstream_file = none;
  calls = [];
  uuids_drawn = 0;
}

abbrev pub report_of : String → Bool → AgentHealthReport
report_of node_id healthy = record {
  node_id = node_id;
  service_id = "web";
  healthy = healthy;
  consecutive_failures = 3;
  observed_at = 99_000_000;
  service_generation = some 0;
}

abbrev pub crash_on : String → AgentCrashReport
crash_on node_id = record {
  node_id = node_id;
  service_id = "web";
  container_id = "c1";
  event_type = "die";
  exit_code = number 137;
  occurred_at = 99_000_000;
  service_generation = some 0;
}

-- The node as the heartbeat stores it.
abbrev pub known_node : NodeState
known_node = record {
  node_id = "n1";
  agent_url = "http://agent:9000";
  node_address = or_else (normalize_node_address (some " 10.0.0.1 ")) "unknown";
  status = NodeStatus.healthy;
  last_heartbeat_at = 95_000_000;
  last_resource_snapshot = none;
}

-- Nothing is deployed yet, and "n2" has room.
abbrev pub room_world : World
room_world = record (new_world 5) {
  store = record (new_store 5) { nodes = put empty "n2" (node_of "n2" 400_000) };
}

abbrev pub placed_on : String → ServiceObservedState
placed_on node_id = record {
  service_id = "web";
  status = DeploymentStatus.running;
  health = ServiceHealth.unknown;
  container_id = some "c1";
  node_id = some node_id;
  last_reported_at = 100_000_000;
  service_generation = 0;
  startup_grace_until = none;
}

abbrev pub started : EventRecord
started = record {
  event_id = "e1";
  event_type = EventType.deployment;
  message = "Service deployed";
  details = [];
  created_at = 1;
}
