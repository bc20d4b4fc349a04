-- ===== src/Coherence/Healing.antt =====
-- The recovery actions and the report handlers of `SelfHealingManager` keep the invariant.
use orchestrator_thesis.Prelude.{
  ℕ, ◌≤◌, ◌||◌, not, String, ◌≡◌, refl, Bool, true, false, arith, Option, none, some,
}
use orchestrator_thesis.Models.{
  Time, ServiceObservedState, NodeState, DeploymentStatus, ServiceHealth, is_running,
}
use orchestrator_thesis.World.{Env, modify}
use orchestrator_thesis.SelfHealing.Recovery.{
  set_cooldown, degraded_state, park, restart_failed, restart_succeeded, restart_same_node,
}
use orchestrator_thesis.Coherence.{At, Ensures, Safe}
use orchestrator_thesis.Coherence.Logic.{
  coherence_rules, part_rules, Keeps, Keeps-modify, Ensures-weaken,
}

pub Keeps-set_cooldown :
    (k : String) (n : ℕ) (b : Bool) (env : Env) (i : String) (at : Time)
    → Keeps k n b (modify (set_cooldown env i at))
unfolding set_cooldown
Keeps-set_cooldown k n b env i at = Keeps-modify k n b _ (λ w. refl)

-- Parking a service: its new observed state is not a running one.
pub park-Ensures :
    (k : String) (n : ℕ) (b : Bool) (reason : String) (at : Time) (o : ServiceObservedState)
    → o.service_id ≡ k
    → o.service_generation ≤ n
    → (b || not (is_running o.status)) ≡ true
    → Keeps k n b (park k reason at o)
unfolding park
park-Ensures k n b reason at o named bound idle = search part_rules depth 40

-- What is known of an observed state that was read while `k` had at most the generation `n`.
abbrev pub Known : String → ℕ → Option ServiceObservedState → Type 0
Known k n none = Unit
Known k n (some o) = (o.service_id ≡ k) × (o.service_generation ≤ n)

module _ (k : String) (n : ℕ) (b : Bool) where
  pub degraded_named :
      (o : Option ServiceObservedState) (node_id : Option String) (st : DeploymentStatus)
      (h : ServiceHealth) (at : Time)
      → Known k n o
      → (degraded_state o k node_id st h at).service_id ≡ k
  unfolding degraded_state
  degraded_named none node_id st h at u = refl
  degraded_named (some o) node_id st h at u = u.0

  pub degraded_fresh :
      (o : Option ServiceObservedState) (node_id : Option String) (st : DeploymentStatus)
      (h : ServiceHealth) (at : Time)
      → Known k n o
      → (degraded_state o k node_id st h at).service_generation ≤ n
  unfolding degraded_state
  degraded_fresh none node_id st h at u = omega arith
  degraded_fresh (some o) node_id st h at u = u.1

  pub degraded_idle :
      (o : Option ServiceObservedState) (node_id : Option String) (st : DeploymentStatus)
      (h : ServiceHealth) (at : Time)
      → is_running st ≡ false
      → (b || not (is_running (degraded_state o k node_id st h at).status)) ≡ true
  unfolding degraded_state
  degraded_idle none node_id st h at u = ground arith
  degraded_idle (some o) node_id st h at u = ground arith

pub ruleset healing_rules = (
  coherence_rules, Keeps-set_cooldown, park-Ensures, degraded_named, degraded_fresh, degraded_idle,
)

restart_failed-Ensures :
    (env : Env) (k : String) (n : ℕ) (b : Bool) (node : NodeState) (at : Time)
    (o : Option ServiceObservedState)
    → Known k n o
    → Ensures (At k n b) (restart_failed env k node at o) (Safe k)
unfolding restart_failed
restart_failed-Ensures env k n b node at o known = search healing_rules depth 40

restart_succeeded-Ensures :
    (env : Env) (k : String) (n : ℕ) (node : NodeState) (at : Time)
    → Ensures (At k n true) (restart_succeeded env k node at) (Safe k)
unfolding restart_succeeded
restart_succeeded-Ensures env k n node at = search healing_rules depth 40 fits 5000

pub restart_same_node-Ensures :
    (env : Env) (k : String) (n : ℕ) (node : NodeState) (at : Time)
    → Ensures (At k n true) (restart_same_node env k node at) (Safe k)
unfolding restart_same_node
restart_same_node-Ensures env k n node at =
    search (healing_rules, restart_failed-Ensures, restart_succeeded-Ensures) depth 40
