-- ===== src/Agent/Ports.antt =====
-- `_ensure_published_port` of agent/app/services/workload_manager.py, from the list of workloads on.
-- `zlib.crc32` is the parameter `crc32`.
pub mod Choice
use orchestrator_thesis.Prelude.{
  ℕ, zero, suc, ◌+◌, ◌-◌, ◌%◌, String, Bool, true, false, not, ◌||◌, Option, none, some, List, [],
  ◌∷◌, ◌==◌, eqb, leb, if◌then◌else◌,
}
use orchestrator_thesis.Models.{ServiceSpec}
use orchestrator_thesis.Agent.{AgentSettings, WorkloadRecord, AgentError, value_error}
use orchestrator_thesis.Effect.{Outcome, returned, raised}

-- The set comprehension `used`, as a list.
unfoldable pub used_ports : String → List WorkloadRecord → List ℕ
used_ports service_id [] = []
used_ports service_id (record_ ∷ records) =
    let rest = used_ports service_id records in
    elim record_.published_port [
      | none ↦ rest
      | some port ↦ if not (record_.service.service_id == service_id) then port ∷ rest else rest
    ]

-- `candidate in used`
unfoldable pub is_used : ℕ → List ℕ → Bool
is_used candidate [] = false
is_used candidate (port ∷ ports) = eqb candidate port || is_used candidate ports

-- The candidate at an offset from the start.
abbrev pub candidate_at : ℕ → ℕ → ℕ → ℕ → ℕ
candidate_at base span start offset = base + (start - base + offset) % span

-- The offsets that are left, from `offset` on.
unfoldable pub first_free : List ℕ → ℕ → ℕ → ℕ → ℕ → ℕ → Option ℕ
unfolding is_used
first_free used base span start zero offset = none
first_free used base span start (suc left) offset =
    let rest = first_free used base span start left (suc offset) in
    let candidate = candidate_at base span start offset in
    if is_used candidate used then rest else some candidate

unfoldable pub choose_port :
    (String → ℕ)
    → AgentSettings
    → ServiceSpec
    → List WorkloadRecord
    → Outcome AgentError ServiceSpec
unfolding first_free used_ports
choose_port crc32 settings service current_workloads =
    let base = settings.published_port_base in
    let maximum = settings.published_port_max in
    let span = (maximum + 1) - base in
    let start = base + crc32 service.service_id % span in
    if leb (maximum + 1) base
    then raised (value_error "Invalid published port range configuration")
    else elim (first_free (used_ports service.service_id current_workloads) base span start span
        0) [
          | some candidate ↦ returned (record service { published_port = some candidate })
          | none ↦ raised (value_error "No available published port in configured range")
        ]

-- `_ensure_published_port`, `current_workloads` being what the store lists.
unfoldable pub ensure_published_port :
    (String → ℕ)
    → AgentSettings
    → ServiceSpec
    → List WorkloadRecord
    → Outcome AgentError ServiceSpec
unfolding choose_port
ensure_published_port crc32 settings service current_workloads = elim service.published_port [
  | some port ↦ returned service
  | none ↦ choose_port crc32 settings service current_workloads
]
