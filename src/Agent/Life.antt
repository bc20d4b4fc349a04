-- ===== src/Agent/Life.antt =====
-- The states an agent can be in: its API's commands, its background loops, and docker on its own,
-- in any order.
use orchestrator_thesis.Prelude.{String, []}
use orchestrator_thesis.Models.{Time, ServiceSpec, ResourceSnapshot}
use orchestrator_thesis.Agent.State.{new_state, record_heartbeat, record_snapshot, get_workload}
use orchestrator_thesis.Agent.Adapter.{AgentEnv, AgentWorld}
use orchestrator_thesis.Agent.Workloads.{deploy, stop, restart, get_local_state}
use orchestrator_thesis.Agent.Health.{health_check_all}
use orchestrator_thesis.Agent.Invariant.{IsKept}
use orchestrator_thesis.Agent.Invariant.Actions.{
  deploy-KeepsSound, stop-KeepsSound, restart-KeepsSound, get_local_state-KeepsSound,
  health_check_all-KeepsSound,
}

pub data Life {D : Type 0} : AgentWorld D → Type 0 where
  start :
      (node_id node_address agent_url controller_url : String) (now : Time) (docker : D)
      → Life (record {
        state = new_state node_id node_address agent_url controller_url now;
        docker = docker;
        requests = [];
      })
  deploys :
      (env : AgentEnv D) (service : ServiceSpec) (w : AgentWorld D)
      → Life w
      → Life (deploy env service w).1
  stops :
      (env : AgentEnv D) (service_id : String) (w : AgentWorld D)
      → Life w
      → Life (stop env service_id w).1
  restarts :
      (env : AgentEnv D) (service_id : String) (w : AgentWorld D)
      → Life w
      → Life (restart env service_id w).1
  is_asked : (env : AgentEnv D) (w : AgentWorld D) → Life w → Life (get_local_state env w).1
  checks_health : (env : AgentEnv D) (w : AgentWorld D) → Life w → Life (health_check_all env w).1
  beats :
      (at : Time) (w : AgentWorld D)
      → Life w
      → Life (record w { state = record_heartbeat at w.state })
  samples :
      (snapshot : ResourceSnapshot) (w : AgentWorld D)
      → Life w
      → Life (record w { state = record_snapshot snapshot w.state })
  docker_moves : (docker : D) (w : AgentWorld D) → Life w → Life (record w { docker = docker })

-- Whatever an agent has been asked to do, and however docker answered and changed by itself, each
-- workload on record stands under its service's own id and has a container id; one that is running
-- or stopped has no failed health checks, one that is unhealthy has at least one, and none is
-- pending.
pub Life-IsKept : {D : Type 0} {w : AgentWorld D} → Life w → IsKept w.state
unfolding new_state record_heartbeat record_snapshot get_workload
Life-IsKept (start node_id node_address agent_url controller_url now docker) = record {
  at = λ id r h. absurd (cc h);
}
Life-IsKept (deploys env service w life) =
    ((deploy-KeepsSound env service).at w (Life-IsKept life)).0
Life-IsKept (stops env service_id w life) =
    ((stop-KeepsSound env service_id).at w (Life-IsKept life)).0
Life-IsKept (restarts env service_id w life) =
    ((restart-KeepsSound env service_id).at w (Life-IsKept life)).0
Life-IsKept (is_asked env w life) = ((get_local_state-KeepsSound env).at w (Life-IsKept life)).0
Life-IsKept (checks_health env w life) =
    ((health_check_all-KeepsSound env).at w (Life-IsKept life)).0
Life-IsKept (beats at w life) = record { at = (Life-IsKept life).at }
Life-IsKept (samples snapshot w life) = record { at = (Life-IsKept life).at }
Life-IsKept (docker_moves docker w life) = Life-IsKept life
