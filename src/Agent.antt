-- ===== src/Agent.antt =====
-- The agent of one node, agent/app: its records and settings.
pub mod State
pub mod Ports
pub mod Adapter
pub mod Workloads
pub mod Health
pub mod Invariant
pub mod Naming
pub mod Containers
pub mod Docker
pub mod Life
pub mod Telemetry
pub mod Api
pub mod Watcher
use orchestrator_thesis.Prelude.{ℕ, String, Bool, true, false, Option}
use orchestrator_thesis.Table.{Table}
use orchestrator_thesis.Models.{Time, ServiceSpec, ResourceSnapshot}

-- The fields of `AgentSettings` that are read.
pub record AgentSettings : Type 0 where
  pub node_id : String
  pub agent_public_url : String
  pub advertised_host : String
  pub health_check_retries : ℕ
  pub crash_report_cooldown_seconds : ℕ
  pub published_port_base : ℕ
  pub published_port_max : ℕ

pub data WorkloadStatus : Type 0 where
  running stopped pending unhealthy : WorkloadStatus

pub record ExecuteResponse : Type 0 where
  pub service_id : String
  pub container_id : String
  pub status : String
  pub node_id : Option String

pub record WorkloadRecord : Type 0 where
  pub service : ServiceSpec
  pub container_id : Option String
  pub published_port : Option ℕ
  pub container_ip : Option String
  pub status : WorkloadStatus
  pub health_failures : ℕ
  pub updated_at : Time
  pub last_health_check_at : Option Time
  pub last_healthy_at : Option Time
  pub last_unhealthy_at : Option Time

pub record AgentLocalState : Type 0 where
  pub node_id : String
  pub node_address : String
  pub agent_url : String
  pub controller_url : String
  pub started_at : Time
  pub updated_at : Time
  pub last_heartbeat_at : Option Time
  pub last_resource_snapshot : Option ResourceSnapshot
  pub workloads : Table WorkloadRecord

-- `ContainerInfo` of the docker adapter
pub record ContainerInfo : Type 0 where
  pub container_id : String
  pub container_ip : Option String
  pub published_port : Option ℕ

-- What the agent's methods raise.
pub data AgentError : Type 0 where
  docker_adapter_error key_error value_error : String → AgentError
  -- an exception of httpx that is not an `HTTPError`
  other_error : String → AgentError
  -- an exception of the docker SDK that nothing catches
  docker_error : String → AgentError
  -- its `APIError`, with its message and explanation
  api_error : String → String → AgentError

abbrev pub is_running : WorkloadStatus → Bool
is_running WorkloadStatus.running = true
is_running _ = false

-- `status in {running, unhealthy}`
abbrev pub is_checked : WorkloadStatus → Bool
is_checked WorkloadStatus.running = true
is_checked WorkloadStatus.unhealthy = true
is_checked _ = false
