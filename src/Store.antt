-- ===== src/Store.antt =====
-- controller/state_store.py, `InMemoryStateStore`: the dicts, the two bounded logs, and the lock
-- of each service. Each method holds `self._lock` for its whole body, so it is one step. A method
-- that reads the clock or draws an event id takes what it read as an argument.
pub mod Locks
pub mod Logs
pub mod Heartbeat
use orchestrator_thesis.Prelude.{
  ℕ, ◌+◌, String, Option, none, some, List, [], ◌∷◌, ◌==◌, or_else, if◌then◌else◌, take,
}
use orchestrator_thesis.Table.{Table, empty, get, put, pop, values}
use orchestrator_thesis.Names.{sorted}
use orchestrator_thesis.Address.{normalize_node_address}
use orchestrator_thesis.Models.{
  Time, NodeState, NodeStatus, ResourceSnapshot, ServiceDesiredState, ServiceObservedState,
  Placement, PendingDeployment, RecoveryRecord, RestartCounter, EventRecord,
}

pub record Store : Type 0 where
  pub nodes : Table NodeState
  pub desired : Table ServiceDesiredState
  pub observed : Table ServiceObservedState
  pub placement : Table Placement
  pub pending : Table PendingDeployment
  pub restart_counter : Table RestartCounter
  pub service_generation : Table ℕ
  pub recovery_history : List RecoveryRecord
  pub events : List EventRecord
  pub event_log_max_items : ℕ
  -- A lock object is the number with which it was made.
  pub service_locks : Table ℕ
  pub locks_made : ℕ

unfoldable pub new_store : ℕ → Store
new_store event_log_max_items = record {
  nodes = empty;
  desired = empty;
  observed = empty;
  placement = empty;
  pending = empty;
  restart_counter = empty;
  service_generation = empty;
  recovery_history = [];
  events = [];
  event_log_max_items = event_log_max_items;
  service_locks = empty;
  locks_made = 0;
}

unfoldable pub acquire_service_lock : String → Store → Store × ℕ
acquire_service_lock service_id s = elim (get s.service_locks service_id) [
  | some existing ↦ (s, existing)
  | none ↦ (
    record s {
      service_locks = put s.service_locks service_id s.locks_made;
      locks_made = s.locks_made + 1;
    },
    s.locks_made,
  )
]

unfoldable pub upsert_node_heartbeat : String → String → Option String → Time → Store → Store
upsert_node_heartbeat node_id agent_url node_address timestamp s =
    let incoming_address = normalize_node_address node_address in
    elim (get s.nodes node_id) [
      | none ↦ record s {
        nodes = put s.nodes node_id (record {
          node_id = node_id;
          agent_url = agent_url;
          node_address = or_else incoming_address "unknown";
          status = NodeStatus.healthy;
          last_heartbeat_at = timestamp;
          last_resource_snapshot = none;
        });
      }
      | some current ↦ record s {
        nodes = put s.nodes node_id (record current {
          agent_url = agent_url;
          node_address =
              or_else incoming_address
                (or_else (normalize_node_address (some current.node_address)) "unknown");
          status = NodeStatus.healthy;
          last_heartbeat_at = timestamp;
        });
      }
    ]

-- `none` is the `StateStoreError` for an unknown node.
unfoldable pub upsert_node_snapshot : String → ResourceSnapshot → Store → Option Store
upsert_node_snapshot node_id snapshot s = elim (get s.nodes node_id) [
  | none ↦ none
  | some current ↦ some (record s {
    nodes = put s.nodes node_id (record current { last_resource_snapshot = some snapshot });
  })
]

unfoldable pub mark_node_unavailable : String → Store → Store
mark_node_unavailable node_id s = elim (get s.nodes node_id) [
  | none ↦ s
  | some current ↦ record s {
    nodes = put s.nodes node_id (record current { status = NodeStatus.unavailable });
  }
]

unfoldable pub list_nodes : Store → List NodeState
list_nodes s = sorted (λ n. n.node_id) (values s.nodes)

unfoldable pub set_service_desired : ServiceDesiredState → Store → Store
set_service_desired state s = record s { desired = put s.desired state.service.service_id state }

unfoldable pub get_service_desired : String → Store → Option ServiceDesiredState
get_service_desired service_id s = get s.desired service_id

unfoldable pub set_service_observed : ServiceObservedState → Store → Store
set_service_observed state s = record s { observed = put s.observed state.service_id state }

unfoldable pub get_service_observed : String → Store → Option ServiceObservedState
get_service_observed service_id s = get s.observed service_id

unfoldable pub set_placement : Placement → Store → Store
set_placement p s = record s { placement = put s.placement p.service_id p }

unfoldable pub get_placement : String → Store → Option Placement
get_placement service_id s = get s.placement service_id

unfoldable pub clear_placement : String → Store → Store
clear_placement service_id s = record s { placement = pop s.placement service_id }

unfoldable pub list_placements : Store → List Placement
list_placements s = sorted (λ p. p.service_id) (values s.placement)

unfoldable pub set_pending_deployment : PendingDeployment → Store → Store
set_pending_deployment p s = record s { pending = put s.pending p.service_id p }

unfoldable pub pop_pending_deployment : String → Store → Store
pop_pending_deployment service_id s = record s { pending = pop s.pending service_id }

unfoldable pub list_pending_deployments : Store → List PendingDeployment
list_pending_deployments s = sorted (λ p. p.service_id) (values s.pending)

-- `RestartCounter(service_id=service_id)`
abbrev fresh_counter : String → Time → RestartCounter
fresh_counter service_id now = record { service_id = service_id; count = 0; updated_at = now }

unfoldable pub get_restart_counter : String → Time → Store → RestartCounter
get_restart_counter service_id now s =
    or_else (get s.restart_counter service_id) (fresh_counter service_id now)

unfoldable pub increment_restart_counter : String → Time → Store → Store × ℕ
increment_restart_counter service_id now s =
    let current = or_else (get s.restart_counter service_id) (fresh_counter service_id now) in
    (
      record s {
        restart_counter =
            put s.restart_counter service_id
              (record { service_id = service_id; count = current.count + 1; updated_at = now });
      },
      current.count + 1,
    )

unfoldable pub reset_restart_counter : String → Time → Store → Store
reset_restart_counter service_id now s = record s {
  restart_counter = put s.restart_counter service_id (fresh_counter service_id now);
}

unfoldable pub get_service_generation : String → Store → ℕ
get_service_generation service_id s = or_else (get s.service_generation service_id) 0

unfoldable pub increment_service_generation : String → Store → Store × ℕ
unfolding get_service_generation
increment_service_generation service_id s =
    let new_gen = or_else (get s.service_generation service_id) 0 + 1 in
    (record s { service_generation = put s.service_generation service_id new_gen }, new_gen)

-- `appendleft` on a deque with `maxlen`: what does not fit falls off at the right.
unfoldable pub add_recovery_record : RecoveryRecord → Store → Store
add_recovery_record r s = record s {
  recovery_history = take s.event_log_max_items (r ∷ s.recovery_history);
}

unfoldable pub list_recovery_records : ℕ → Store → List RecoveryRecord
list_recovery_records limit s = take limit s.recovery_history

unfoldable pub append_event : EventRecord → Store → Store
append_event event s = record s { events = take s.event_log_max_items (event ∷ s.events) }

unfoldable pub list_events : ℕ → Store → List EventRecord
list_events limit s = take limit s.events
