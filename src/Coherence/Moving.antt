-- ===== src/Coherence/Moving.antt =====
-- The actions of `SelfHealingManager` that move a service to another node keep the invariant.
use orchestrator_thesis.Prelude.{
  ℕ, ◌≤◌, ◌||◌, not, String, ◌≡◌, refl, Bool, true, false, arith, Option, none, some, List,
}
use orchestrator_thesis.Models.{
  Time, ServiceDesiredState, ServiceObservedState, NodeState, Placement, DeploymentStatus,
  is_running,
}
use orchestrator_thesis.World.{Env, AgentDeployResponse, reads, on_option, ◌>>=◌}
use orchestrator_thesis.Store
use orchestrator_thesis.SelfHealing.Reschedule.{
  exhausted_pending, exhausted_deploy_failed, stop_previous, exhausted_moved, exhausted_move_to,
  reschedule_after_exhausted_restart,
}
use orchestrator_thesis.SelfHealing.Unreachable.{
  stranded_state, unreachable_no_candidate, unreachable_target_missing, unreachable_deploy_failed,
  unreachable_moved, unreachable_move_to, reschedule_from_unreachable_node,
}
use orchestrator_thesis.Coherence.{At, Ensures, Safe}
use orchestrator_thesis.Coherence.Logic.{
  part_rules, Keeps, Ensures-read_desired, Ensures-read_observed, Ensures-on_none, Ensures-on_some,
  Ensures-on_option, Ensures-first, Ensures-pure, Keeps-list_nodes, le-max_right,
}
use orchestrator_thesis.Coherence.Healing.{healing_rules, Known}

module _ (env : Env) (k : String) (n : ℕ) (b : Bool) where
  exhausted_pending-Ensures :
      (node_id : String) (at : Time) (o : Option ServiceObservedState) (st : DeploymentStatus)
      (reason sync_reason : String)
      → Known k n o
      → is_running st ≡ false
      → Ensures (At k n b) (exhausted_pending env k node_id at o st reason sync_reason) (Safe k)
  unfolding exhausted_pending
  exhausted_pending-Ensures node_id at o st reason sync_reason known idle =
      search healing_rules depth 40

  exhausted_deploy_failed-Ensures :
      (node_id : String) (target : NodeState) (at : Time) (o : Option ServiceObservedState)
      → Known k n o
      → Ensures (At k n b) (exhausted_deploy_failed env k node_id target at o) (Safe k)
  unfolding exhausted_deploy_failed
  exhausted_deploy_failed-Ensures node_id target at o known = search healing_rules depth 40

  stop_previous-Keeps :
      (node_id : String) (old : Option NodeState) → Keeps k n b (stop_previous env k node_id old)
  unfolding stop_previous
  stop_previous-Keeps node_id old = search part_rules depth 40

  exhausted_moved-Ensures :
      (node_id : String) (at : Time) (old : Option NodeState) (target : NodeState)
      (r : AgentDeployResponse)
      → Ensures (At k n b) (exhausted_moved env k node_id at old target r) (Safe k)
  unfolding exhausted_moved
  exhausted_moved-Ensures node_id at old target r =
      search (healing_rules, stop_previous-Keeps) depth 40 fits 5000

  exhausted_move_to-Ensures :
      (d : ServiceDesiredState) (node_id : String) (at : Time) (o : Option ServiceObservedState)
      (nodes : List NodeState) (id : String)
      → Known k n o
      → Ensures (At k n b) (exhausted_move_to env d k node_id at o nodes id) (Safe k)
  unfolding exhausted_move_to
  exhausted_move_to-Ensures d node_id at o nodes id known =
      search
        (
          healing_rules, exhausted_pending-Ensures, exhausted_deploy_failed-Ensures,
          exhausted_moved-Ensures,
        )
        depth 40

pub reschedule_after_exhausted_restart-Ensures :
    (env : Env) (k : String) (n : ℕ) (b : Bool) (node_id : String) (at : Time)
    → Ensures (At k n b) (reschedule_after_exhausted_restart env k node_id at) (Safe k)
unfolding reschedule_after_exhausted_restart
reschedule_after_exhausted_restart-Ensures env k n b node_id at =
    search (healing_rules, exhausted_pending-Ensures, exhausted_move_to-Ensures) depth 40

-- A service that is parked on no node waits, so that it may be without a placement.
module _ (k : String) (n : ℕ) (b : Bool) where
  stranded_named :
      (o : Option ServiceObservedState) (at : Time)
      → Known k n o
      → (stranded_state o k at).service_id ≡ k
  stranded_named none at u = refl
  stranded_named (some o) at u = u.0

  stranded_fresh :
      (o : Option ServiceObservedState) (at : Time)
      → Known k n o
      → (stranded_state o k at).service_generation ≤ n
  stranded_fresh none at u = omega arith
  stranded_fresh (some o) at u = u.1

  stranded_idle :
      (o : Option ServiceObservedState) (at : Time)
      → (b || not (is_running (stranded_state o k at).status)) ≡ true
  stranded_idle none at = ground arith
  stranded_idle (some o) at = ground arith

module _ (env : Env) (p : Placement) (n : ℕ) (b : Bool) where
  unreachable_no_candidate-Ensures :
      (at : Time) (o : Option ServiceObservedState)
      → Known p.service_id n o
      → Ensures (At p.service_id n b) (unreachable_no_candidate env p at o) (Safe p.service_id)
  unfolding unreachable_no_candidate
  unreachable_no_candidate-Ensures at o known =
      search (healing_rules, stranded_named, stranded_fresh, stranded_idle) depth 40

  unreachable_target_missing-Ensures :
      (at : Time) (o : Option ServiceObservedState)
      → Known p.service_id n o
      → Ensures (At p.service_id n b) (unreachable_target_missing env p at o) (Safe p.service_id)
  unfolding unreachable_target_missing
  unreachable_target_missing-Ensures at o known = search healing_rules depth 40

  unreachable_deploy_failed-Ensures :
      (target : NodeState) (at : Time) (o : Option ServiceObservedState)
      → Known p.service_id n o
      → Ensures
          (At p.service_id n b)
          (unreachable_deploy_failed env p target at o)
          (Safe p.service_id)
  unfolding unreachable_deploy_failed
  unreachable_deploy_failed-Ensures target at o known = search healing_rules depth 40

  unreachable_moved-Ensures :
      (at : Time) (target : NodeState) (r : AgentDeployResponse)
      → Ensures (At p.service_id n b) (unreachable_moved env p at target r) (Safe p.service_id)
  unfolding unreachable_moved
  unreachable_moved-Ensures at target r = search healing_rules depth 40 fits 5000

  unreachable_move_to-Ensures :
      (d : ServiceDesiredState) (at : Time) (o : Option ServiceObservedState)
      (nodes : List NodeState) (id : String)
      → Known p.service_id n o
      → Ensures
          (At p.service_id n b)
          (unreachable_move_to env d p at o nodes id)
          (Safe p.service_id)
  unfolding unreachable_move_to
  unreachable_move_to-Ensures d at o nodes id known =
      search
        (
          healing_rules, unreachable_target_missing-Ensures, unreachable_deploy_failed-Ensures,
          unreachable_moved-Ensures,
        )
        depth 40

  -- The choice of a target and what follows it.
  choice-Ensures :
      (d : ServiceDesiredState) (at : Time) (o : Option ServiceObservedState)
      (choose : List NodeState → Option String)
      → Known p.service_id n o
      → Ensures
          (At p.service_id n b)
          (reads Store.list_nodes >>= λ nodes.
            on_option
              (choose nodes)
              (unreachable_no_candidate env p at o)
              λ id. unreachable_move_to env d p at o nodes id)
          (Safe p.service_id)
  choice-Ensures d at o choose known =
      Ensures-first p.service_id n b _ _ (Keeps-list_nodes p.service_id n b) λ nodes.
        Ensures-on_option (choose nodes) _ _ (unreachable_no_candidate-Ensures at o known)
          λ id. unreachable_move_to-Ensures d at o nodes id known

pub reschedule_from_unreachable_node-Ensures :
    (env : Env) (p : Placement) (at : Time)
    → Ensures (Safe p.service_id) (reschedule_from_unreachable_node env p at) (Safe p.service_id)
unfolding reschedule_from_unreachable_node
reschedule_from_unreachable_node-Ensures env p at =
    let k = p.service_id in
    Ensures-read_desired k 0 false _ (Ensures-on_none _ _ (Ensures-pure tt (λ s h. h))) λ d e.
      Ensures-on_some d _ _ (
        Ensures-read_observed k 0 false _ (choice-Ensures env p 0 false d at none _ tt)
          λ o named. choice-Ensures env p _ false d at (some o) _ (named, le-max_right 0 _))
