-- ===== src/Controller.antt =====
-- The controller as a state machine: what its parts do to the state that they share, one step for
-- each method that runs under a lock, in any order, and for the two loops over them. The clock, the agents and the ids of a step are
-- those of its surroundings, which differ from step to step.
pub mod Invariant
use orchestrator_thesis.Prelude.{ℕ, String, Option, none, some, List, [], ◌≡◌}
use orchestrator_thesis.Table.{empty}
use orchestrator_thesis.Models.{
  Time, ResourceSnapshot, ServiceSpec, NodeState, Placement, AgentHealthReport, AgentCrashReport,
}
use orchestrator_thesis.Store
use orchestrator_thesis.Store.{Store, new_store}
use orchestrator_thesis.World.{Env, World}
use orchestrator_thesis.ServiceManager.{deploy}
use orchestrator_thesis.ServiceManager.Commands.{stop, restart, retry_pending_deployment}
use orchestrator_thesis.SelfHealing.{handle_crash_report, handle_health_report}
use orchestrator_thesis.SelfHealing.Unreachable.{
  reschedule_from_unreachable_node, handle_node_unreachable,
}
use orchestrator_thesis.Reconciler.{run_once}

-- What the parts share when they have just been made, with an `InMemoryStateStore`.
abbrev pub new_world : ℕ → World
new_world event_log_max_items = record {
  store = new_store event_log_max_items;
  cooldown_until = empty;
  active_recovery = empty;
  upstream_file = none;
  calls = [];
  uuids_drawn = 0;
}

-- A reschedule is a step of its own, for any placement: the loop over the services of a node reads
-- the placements first, and what it holds may be old when it takes the service's lock.
pub data Step : World → World → Type 0 where
  heartbeat :
      (w : World) (node_id agent_url : String) (node_address : Option String) (at : Time)
      → Step w (record w {
        store = Store.upsert_node_heartbeat node_id agent_url node_address at w.store;
      })
  snapshot :
      (w : World) (node_id : String) (s : ResourceSnapshot) (s' : Store)
      → Store.upsert_node_snapshot node_id s w.store ≡ some s'
      → Step w (record w { store = s' })
  lock :
      (w : World) (service_id : String)
      → Step w (record w { store = (Store.acquire_service_lock service_id w.store).0 })
  deployed : (w : World) (env : Env) (service : ServiceSpec) → Step w (deploy env service w).1
  stopped : (w : World) (env : Env) (service_id : String) → Step w (stop env service_id w).1
  restarted : (w : World) (env : Env) (service_id : String) → Step w (restart env service_id w).1
  retried :
      (w : World) (env : Env) (service_id : String)
      → Step w (retry_pending_deployment env service_id w).1
  health_reported :
      (w : World) (env : Env) (report : AgentHealthReport)
      → Step w (handle_health_report env report w).1
  crash_reported :
      (w : World) (env : Env) (report : AgentCrashReport)
      → Step w (handle_crash_report env report w).1
  rescheduled :
      (w : World) (env : Env) (placement : Placement) (at : Time)
      → Step w (reschedule_from_unreachable_node env placement at w).1
  node_unreachable :
      (w : World) (env : Env) (node_id : String) (at : Time)
      → Step w (handle_node_unreachable env node_id at w).1
  reconciled : (w : World) (env : Env) → Step w (run_once env w).1

pub data Reach : World → Type 0 where
  start : (event_log_max_items : ℕ) → Reach (new_world event_log_max_items)
  then : {w w' : World} → Reach w → Step w w' → Reach w'

-- Any number of steps.
pub data Run : World → World → Type 0 where
  done : (w : World) → Run w w
  next : {u v w : World} → Run u v → Step v w → Run u w
