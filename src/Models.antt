-- ===== src/Models.antt =====
-- controller/models.py. A time is a whole number of microseconds. A utilisation or a fraction is a
-- Python float between 0.0 and 1.0: such floats are whole multiples of 2 ** -1074, and a value here
-- counts those, so that comparisons are exact.
use orchestrator_thesis.Prelude.{
  ℕ, ◌*◌, String, Bool, true, false, Option, none, some, List, [], ◌∷◌, is_some, ◌==◌,
  if◌then◌else◌,
}

abbrev pub Time : Type 0
Time = ℕ

abbrev pub Fraction : Type 0
Fraction = ℕ

-- `timedelta(seconds=n)`
abbrev pub seconds : ℕ → Time
seconds n = n * 1_000_000

pub data NodeStatus : Type 0 where
  healthy unavailable : NodeStatus

pub data ServiceHealth : Type 0 where
  healthy unhealthy unknown : ServiceHealth

pub data DeploymentStatus : Type 0 where
  deploying running stopped pending placement_failed failed : DeploymentStatus

pub data EventType : Type 0 where
  deployment scheduler self_healing node health ingress : EventType

pub record ResourceSnapshot : Type 0 where
  pub cpu_utilization : Fraction
  pub memory_utilization : Fraction
  pub captured_at : Time

pub record NodeState : Type 0 where
  pub node_id : String
  pub agent_url : String
  pub node_address : String
  pub status : NodeStatus
  pub last_heartbeat_at : Time
  pub last_resource_snapshot : Option ResourceSnapshot

pub record ServiceSpec : Type 0 where
  pub service_id : String
  pub image : String
  pub command : List String
  pub env : List (String × String)
  pub internal_port : ℕ
  pub published_port : Option ℕ
  pub health_endpoint : String
  pub min_free_cpu : Fraction
  pub min_free_memory : Fraction

pub record ServiceDesiredState : Type 0 where
  pub service : ServiceSpec
  pub status : DeploymentStatus
  pub created_at : Time
  pub updated_at : Time

pub record ServiceObservedState : Type 0 where
  pub service_id : String
  pub status : DeploymentStatus
  pub health : ServiceHealth
  pub container_id : Option String
  pub node_id : Option String
  pub last_reported_at : Time
  pub service_generation : ℕ
  pub startup_grace_until : Option Time

pub record Placement : Type 0 where
  pub service_id : String
  pub node_id : String
  pub placed_at : Time

pub record PendingDeployment : Type 0 where
  pub service_id : String
  pub reason : String
  pub created_at : Time

pub record RecoveryRecord : Type 0 where
  pub service_id : String
  pub action : String
  pub reason : String
  pub from_node_id : Option String
  pub to_node_id : Option String
  pub occurred_at : Time

pub record RestartCounter : Type 0 where
  pub service_id : String
  pub count : ℕ
  pub updated_at : Time

-- An exit code of a process is a signed number: `minus n` is -n.
pub data Detail : Type 0 where
  text : String → Detail
  number : ℕ → Detail
  minus : ℕ → Detail

pub record EventRecord : Type 0 where
  pub event_id : String
  pub event_type : EventType
  pub message : String
  pub details : List (String × Detail)
  pub created_at : Time

pub record AgentHealthReport : Type 0 where
  pub node_id : String
  pub service_id : String
  pub healthy : Bool
  pub consecutive_failures : ℕ
  pub observed_at : Time
  pub service_generation : Option ℕ

pub record AgentCrashReport : Type 0 where
  pub node_id : String
  pub service_id : String
  pub container_id : String
  pub event_type : String
  pub exit_code : Detail
  pub occurred_at : Time
  pub service_generation : Option ℕ

abbrev pub is_running : DeploymentStatus → Bool
is_running DeploymentStatus.running = true
is_running _ = false

abbrev pub is_stopped : DeploymentStatus → Bool
is_stopped DeploymentStatus.stopped = true
is_stopped _ = false

abbrev pub is_healthy : NodeStatus → Bool
is_healthy NodeStatus.healthy = true
is_healthy NodeStatus.unavailable = false

-- `NodeState.has_snapshot`
pub has_snapshot : NodeState → Bool
has_snapshot n = is_some n.last_resource_snapshot

-- `_find_node` of self_healing.py and service_manager.py, and the `next(...)` of ingress_manager.py.
unfoldable pub find_node : List NodeState → String → Option NodeState
find_node [] node_id = none
find_node (n ∷ ns) node_id =
    let rest = find_node ns node_id in if n.node_id == node_id then some n else rest
