-- ===== src/Agent/State.antt =====
-- agent/app/core/state.py: `AgentStateStore`. Each method holds the store's lock for its whole body,
-- so that it is one step. A method that reads the clock takes the reading as `now`.
use orchestrator_thesis.Prelude.{String, Option, none, some, List}
use orchestrator_thesis.Table.{get, put, pop, values, empty}
use orchestrator_thesis.Names.{sorted}
use orchestrator_thesis.Models.{Time, ResourceSnapshot}
use orchestrator_thesis.Agent.{AgentLocalState, WorkloadRecord, WorkloadStatus}

-- `AgentStateStore.__init__`
unfoldable pub new_state : String → String → String → String → Time → AgentLocalState
new_state node_id node_address agent_url controller_url now = record {
  node_id = node_id;
  node_address = node_address;
  agent_url = agent_url;
  controller_url = controller_url;
  started_at = now;
  updated_at = now;
  last_heartbeat_at = none;
  last_resource_snapshot = none;
  workloads = empty;
}

unfoldable pub record_heartbeat : Time → AgentLocalState → AgentLocalState
record_heartbeat at s = record s { last_heartbeat_at = some at; updated_at = at }

unfoldable pub record_snapshot : ResourceSnapshot → AgentLocalState → AgentLocalState
record_snapshot snapshot s = record s {
  last_resource_snapshot = some snapshot;
  updated_at = snapshot.captured_at;
}

unfoldable pub upsert_workload : Time → WorkloadRecord → AgentLocalState → AgentLocalState
upsert_workload now workload s = record s {
  workloads = put s.workloads workload.service.service_id workload;
  updated_at = now;
}

unfoldable pub get_workload : String → AgentLocalState → Option WorkloadRecord
get_workload service_id s = get s.workloads service_id

unfoldable pub list_workloads : AgentLocalState → List WorkloadRecord
list_workloads s = sorted (λ w. w.service.service_id) (values s.workloads)

unfoldable pub remove_workload : Time → String → AgentLocalState → AgentLocalState
remove_workload now service_id s = record s {
  workloads = pop s.workloads service_id;
  updated_at = now;
}

unfoldable pub set_workload_status :
    Time → String → WorkloadStatus → AgentLocalState → AgentLocalState × Option WorkloadRecord
set_workload_status now service_id status s = elim (get s.workloads service_id) [
  | none ↦ (s, none)
  | some workload ↦
      let updated : WorkloadRecord = record workload { status = status; updated_at = now } in
      (record s { workloads = put s.workloads service_id updated; updated_at = now }, some updated)
]

unfoldable pub update_workload : Time → WorkloadRecord → AgentLocalState → AgentLocalState
unfolding upsert_workload
update_workload now workload s = upsert_workload now workload s
