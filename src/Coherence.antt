-- ===== src/Coherence.antt =====
-- The invariant of the store that every operation of the controller keeps, and a logic for the
-- actions that keep it: what is known of one service `k` while its lock is held.
pub mod Rules
pub mod Steps
pub mod Logic
pub mod Manager
pub mod Healing
pub mod Moving
pub mod Reports
pub mod Loops
use orchestrator_thesis.Prelude.{
  ℕ, ◌≤◌, String, ◌≡◌, Bool, true, false, ◌||◌, not, Option, none, some, is_some, length,
}
use orchestrator_thesis.Table.{get}
use orchestrator_thesis.Models.{
  ServiceObservedState, ServiceDesiredState, Placement, PendingDeployment, is_running,
}
use orchestrator_thesis.Store
use orchestrator_thesis.Store.{Store}
use orchestrator_thesis.World.{World, Action}

-- What is stored of the service `k` is stored under its own name; its observed state names no
-- generation beyond the counter; and if it is observed to run then it is placed.
pub record IsServiceOk (s : Store) (k : String) : Type 0 where
  pub desired_named :
      (d : ServiceDesiredState) → get s.desired k ≡ some d → d.service.service_id ≡ k
  pub observed_named : (o : ServiceObservedState) → get s.observed k ≡ some o → o.service_id ≡ k
  pub placement_named : (p : Placement) → get s.placement k ≡ some p → p.service_id ≡ k
  pub pending_named : (p : PendingDeployment) → get s.pending k ≡ some p → p.service_id ≡ k
  pub fresh :
      (o : ServiceObservedState)
      → get s.observed k ≡ some o
      → o.service_generation ≤ Store.get_service_generation k s
  pub placed :
      (o : ServiceObservedState)
      → get s.observed k ≡ some o
      → is_running o.status ≡ true
      → is_some (get s.placement k) ≡ true

-- Every service is in order, and the two logs are within their bound.
pub record IsCoherent (s : Store) : Type 0 where
  pub service : (k : String) → IsServiceOk s k
  pub events : length s.events ≤ s.event_log_max_items
  pub history : length s.recovery_history ≤ s.event_log_max_items

-- The store is coherent, the generation of `k` is at least `n`, and if `b` then `k` is placed.
pub record At (k : String) (n : ℕ) (b : Bool) (s : Store) : Type 0 where
  pub coherent : IsCoherent s
  pub reached : n ≤ Store.get_service_generation k s
  pub known_placed : b ≡ true → is_some (get s.placement k) ≡ true

-- From a store at which `P` holds the action ends at one at which `Q` holds, also if it raises.
pub record Ensures {A : Type 0} (P : Store → Type 0) (m : Action A) (Q : Store → Type 0)
    : Type 0 where
  pub at : (w : World) → P w.store → Q (m w).1.store

-- What is known in the end: that the store is coherent.
abbrev pub Safe : String → Store → Type 0
Safe k = At k 0 false
