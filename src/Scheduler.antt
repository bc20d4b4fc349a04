-- ===== src/Scheduler.antt =====
-- controller/scheduler.py: `choose_node_least_load`, its filter, its candidates and its key.
-- `1.0 - x` rounds, so the subtraction of floats is the parameter `one_minus`.
pub mod Order
pub mod Choice
pub mod Orderless
use orchestrator_thesis.Prelude.{
  ℕ, max, String, Bool, true, false, not, ◌&&◌, Option, none, some, List, [], ◌∷◌, ltb, leb, eqb,
  if◌then◌else◌,
}
use orchestrator_thesis.Names.{name_le}
use orchestrator_thesis.Models.{Fraction, NodeState, ServiceSpec, ResourceSnapshot, is_healthy}

pub record ScheduleDecision : Type 0 where
  pub service_id : String
  pub selected_node_id : Option String
  pub status : String
  pub reason : String

pub record Candidate : Type 0 where
  pub node : NodeState
  pub load : Fraction
  pub memory_utilization : Fraction

-- `_build_candidate`
pub build_candidate : NodeState → Option Candidate
build_candidate node = elim node.last_resource_snapshot [
  | none ↦ none
  | some snapshot ↦ some (record {
    node = node;
    load = max snapshot.cpu_utilization snapshot.memory_utilization;
    memory_utilization = snapshot.memory_utilization;
  })
]

-- `key(c) <= key(d)` on the tuples (load, memory_utilization, node_id)
pub key_le : Candidate → Candidate → Bool
key_le c d =
    if ltb c.load d.load
    then true
    else if eqb c.load d.load
    then (if ltb c.memory_utilization d.memory_utilization
        then true
        else if eqb c.memory_utilization d.memory_utilization
        then name_le c.node.node_id d.node.node_id
        else false)
    else false

-- `min(candidates, key=...)`: a later candidate replaces the best so far if its key is less.
pub select_min : Candidate → List Candidate → Candidate
unfolding key_le
select_min best [] = best
select_min best (c ∷ cs) = select_min (if not (key_le best c) then c else best) cs

-- The end of `choose_node_least_load`, from the list of candidates.
pub decide_among : ServiceSpec → List Candidate → ScheduleDecision
unfolding select_min
decide_among service [] = record {
  service_id = service.service_id;
  selected_node_id = none;
  status = "placement_failed";
  reason = "No healthy node satisfies minimum resource requirement";
}
decide_among service (c ∷ cs) = record {
  service_id = service.service_id;
  selected_node_id = some (select_min c cs).node.node_id;
  status = "scheduled";
  reason = "Least-load selection succeeded";
}

module _ (one_minus : Fraction → Fraction) where
  -- `_node_satisfies_minimum_resource`
  pub node_satisfies_minimum_resource : ServiceSpec → NodeState → Bool
  node_satisfies_minimum_resource spec node = elim node.last_resource_snapshot [
    | none ↦ false
    | some snapshot ↦
        leb spec.min_free_cpu (one_minus snapshot.cpu_utilization)
        && leb spec.min_free_memory (one_minus snapshot.memory_utilization)
  ]

  -- The loop of `choose_node_least_load`.
  pub eligible_candidates : ServiceSpec → List NodeState → List Candidate
  unfolding node_satisfies_minimum_resource build_candidate
  eligible_candidates service [] = []
  eligible_candidates service (node ∷ nodes) =
      let rest = eligible_candidates service nodes in
      if not (is_healthy node.status)
      then rest
      else if not (node_satisfies_minimum_resource service node)
      then rest
      else elim (build_candidate node) [ none ↦ rest | some candidate ↦ candidate ∷ rest ]

  unfoldable pub choose_node_least_load : ServiceSpec → List NodeState → ScheduleDecision
  unfolding eligible_candidates decide_among
  choose_node_least_load service nodes = decide_among service (eligible_candidates service nodes)
