-- ===== src/Agent/Invariant.antt =====
-- What holds of the workloads that the agent keeps, whatever it is asked to do.
pub mod Actions
use orchestrator_thesis.Prelude.{
  ℕ, zero, suc, ◌+◌, ◌<◌, String, ◌≡◌, refl, sym, ap, subst, Bool, true, false, Option, none, some,
  List, [], ◌∷◌, arith, eq_iff, is_some, All, ◌==◌, Bool-cases, inl, inr, if◌then◌else◌,
}
use orchestrator_thesis.Table.{Table, get, put}
use orchestrator_thesis.Models.{ServiceSpec, Time}
use orchestrator_thesis.Agent.{
  AgentLocalState, WorkloadRecord, WorkloadStatus, running, stopped, pending, unhealthy, AgentError,
  ContainerInfo,
}
use orchestrator_thesis.Agent.State.{upsert_workload, get_workload, list_workloads}
use orchestrator_thesis.Agent.Adapter.{Adapter, AgentEnv, AgentWorld, AgentAction, on_docker}
use orchestrator_thesis.Effect.{Effect, pure, raise, gets, modify, ◌>>=◌}
use orchestrator_thesis.Effect.Keeps.{Keeps, Keeps-modify}

-- A status and the count of failures that go together.
abbrev pub Fits : WorkloadStatus → ℕ → Type 0
Fits running n = n ≡ 0
Fits stopped n = n ≡ 0
Fits unhealthy n = 0 < n
Fits pending n = ⊥

-- A workload on record under its own id, with a container.
pub record IsSound (service_id : String) (r : WorkloadRecord) : Type 0 where
  pub keyed : r.service.service_id ≡ service_id
  pub contained : is_some r.container_id ≡ true
  pub fits : Fits r.status r.health_failures

pub record IsKept (s : AgentLocalState) : Type 0 where
  pub at : (id : String) (r : WorkloadRecord) → get_workload id s ≡ some r → IsSound id r

pub upsert_workload-IsKept :
    (now : Time) (r : WorkloadRecord) (s : AgentLocalState)
    → IsSound r.service.service_id r
    → IsKept s
    → IsKept (upsert_workload now r s)
unfolding upsert_workload get_workload
upsert_workload-IsKept now r s sound kept = record {
  at = λ id r' h. elim (Bool-cases (r.service.service_id == id)) [
    | inl e ↦
        let same : r ≡ r' = ground arith in
        let here : r.service.service_id ≡ id = (eq_iff r.service.service_id id).0 e in
        subst (λ x. IsSound id x) same (subst (λ j. IsSound j r) here sound)
    | inr e ↦ kept.at id r' (ground arith)
  ];
}
