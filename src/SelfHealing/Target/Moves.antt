-- ===== src/SelfHealing/Target/Moves.antt =====
-- Where the two ways to reschedule of `SelfHealingManager` leave a service.
use orchestrator_thesis.Prelude.{
  String, ◌≡◌, ◌≢◌, refl, ◌∙◌, sym, inl, Option, none, some, List, Any-map,
}
use orchestrator_thesis.Table.{get}
use orchestrator_thesis.Models.{
  Time, Fraction, NodeState, Placement, ServiceDesiredState, ServiceObservedState, RecoveryRecord,
}
use orchestrator_thesis.Scheduler.{choose_node_least_load}
use orchestrator_thesis.Scheduler.Choice.{choose_node-IsLeastLoaded}
use orchestrator_thesis.Store
use orchestrator_thesis.Store.{Store}
use orchestrator_thesis.World.{Env, World, Action, AgentDeployResponse, on_option, writes}
use orchestrator_thesis.SelfHealing.Reschedule.{
  other_nodes, exhausted_pending, exhausted_deploy_failed, stop_previous, exhausted_moved,
  exhausted_move_to, reschedule_after_exhausted_restart,
}
use orchestrator_thesis.SelfHealing.Unreachable.{
  unreachable_no_candidate, unreachable_target_missing, unreachable_deploy_failed,
  unreachable_moved, unreachable_move_to, reschedule_from_unreachable_node,
}
use orchestrator_thesis.SelfHealing.Target.{
  IsElsewhere, Leaves, Leaves-bind, Leaves-reads, Leaves-request, Leaves-pure, Leaves-writes,
  moved_to, same_placement, leaves_rules, other_nodes-Any, find_node-same_id,
}
use orchestrator_thesis.Coherence.Steps.{Ensures-on_reply}

-- With what its value is.
Leaves-found :
    {A B : Type 0} (k node_id : String) (before : Option Placement) (o : Option A) (f : Action B)
    (g : A → Action B)
    → Leaves k node_id before f
    → ((a : A) → o ≡ some a → Leaves k node_id before (g a))
    → Leaves k node_id before (on_option o f g)
unfolding on_option
Leaves-found k node_id before none f g p q = p
Leaves-found k node_id before (some a) f g p q = q a refl

module _ (k node_id : String) (before : Option Placement) (env : Env) where
  -- What the store writes besides the placement of `k`.
  add_recovery_record-Leaves :
      (r : RecoveryRecord) → Leaves k node_id before (writes (Store.add_recovery_record r))
  unfolding Store.add_recovery_record
  add_recovery_record-Leaves r = Leaves-writes k node_id before _ (λ s. refl)

  pop_pending_deployment-kept :
      (i : String) (s : Store)
      → IsElsewhere k node_id before s
      → IsElsewhere k node_id before (Store.pop_pending_deployment i s)
  unfolding Store.pop_pending_deployment
  pop_pending_deployment-kept i s h = same_placement k node_id before s _ refl h

  reset_restart_counter-kept :
      (i : String) (now : Time) (s : Store)
      → IsElsewhere k node_id before s
      → IsElsewhere k node_id before (Store.reset_restart_counter i now s)
  unfolding Store.reset_restart_counter
  reset_restart_counter-kept i now s h = same_placement k node_id before s _ refl h

  set_service_observed-kept :
      (o : ServiceObservedState) (s : Store)
      → IsElsewhere k node_id before s
      → IsElsewhere k node_id before (Store.set_service_observed o s)
  unfolding Store.set_service_observed
  set_service_observed-kept o s h = same_placement k node_id before s _ refl h

  ruleset move_rules = (
    leaves_rules, add_recovery_record-Leaves, pop_pending_deployment-kept,
    reset_restart_counter-kept, set_service_observed-kept,
  )

  stop_previous-Leaves :
      (old_node? : Option NodeState)
      → Leaves k node_id before (stop_previous env k node_id old_node?)
  unfolding stop_previous
  stop_previous-Leaves old_node? = search move_rules depth 20

  exhausted_moved-Leaves :
      (at : Time) (old_node? : Option NodeState) (target : NodeState) (d : AgentDeployResponse)
      → target.node_id ≢ node_id
      → Leaves k node_id before (exhausted_moved env k node_id at old_node? target d)
  unfolding exhausted_moved
  exhausted_moved-Leaves at old_node? target d other =
      let moves = λ (s : Store) (h : IsElsewhere k node_id before s).
        moved_to k node_id before
          (record { service_id = k; node_id = target.node_id; placed_at = at }) s refl other in
      search (move_rules, stop_previous-Leaves, moves) depth 40

  exhausted_move_to-Leaves :
      (desired : ServiceDesiredState) (at : Time) (observed? : Option ServiceObservedState)
      (ns : List NodeState) (id : String)
      → id ≢ node_id
      → Leaves k node_id before (exhausted_move_to env desired k node_id at observed? ns id)
  unfolding exhausted_move_to exhausted_pending exhausted_deploy_failed
  exhausted_move_to-Leaves desired at observed? ns id other =
      Leaves-found k node_id before _ _ _ (search move_rules depth 20) (λ target found.
        Leaves-bind k node_id before _ _ (Leaves-request k node_id before _ _) (λ reply.
          Ensures-on_reply reply _ _ (λ message. search move_rules depth 20)
            (λ d.
              exhausted_moved-Leaves at _ target d
                (λ e. other (sym (find_node-same_id ns id target found) ∙ e)))))

  reschedule_after_exhausted_restart-Leaves :
      (one_minus : Fraction → Fraction) (at : Time)
      → env.scheduler ≡ choose_node_least_load one_minus
      → Leaves k node_id before (reschedule_after_exhausted_restart env k node_id at)
  unfolding reschedule_after_exhausted_restart exhausted_pending
  reschedule_after_exhausted_restart-Leaves one_minus at scheduled =
      Leaves-bind k node_id before _ _ (Leaves-reads k node_id before _) (λ desired?.
        Leaves-found k node_id before desired? _ _ (Leaves-pure k node_id before tt) (λ desired _.
          Leaves-bind k node_id before _ _ (Leaves-reads k node_id before _) (λ observed?.
            Leaves-bind k node_id before _ _ (Leaves-reads k node_id before _) (λ ns.
              Leaves-found k node_id before _ _ _ (search move_rules depth 20) (λ id chosen.
                exhausted_move_to-Leaves desired at observed? ns id (
                  other_nodes-Any node_id id ns (
                    Any-map (λ n h. h.0) (other_nodes node_id ns)
                      (choose_node-IsLeastLoaded one_minus desired.service (other_nodes node_id ns)
                        id (rw scheduled at chosen)))))))))

  unreachable_moved-Leaves :
      (p : Placement) (at : Time) (target : NodeState) (d : AgentDeployResponse)
      → p.service_id ≡ k
      → target.node_id ≢ node_id
      → Leaves k node_id before (unreachable_moved env p at target d)
  unfolding unreachable_moved
  unreachable_moved-Leaves p at target d same other =
      let moves = λ (s : Store) (h : IsElsewhere k node_id before s).
        moved_to k node_id before
          (record { service_id = p.service_id; node_id = target.node_id; placed_at = at }) s same
          other in
      search (move_rules, moves) depth 40

  unreachable_move_to-Leaves :
      (desired : ServiceDesiredState) (p : Placement) (at : Time)
      (observed? : Option ServiceObservedState) (ns : List NodeState) (id : String)
      → p.service_id ≡ k
      → id ≢ node_id
      → Leaves k node_id before (unreachable_move_to env desired p at observed? ns id)
  unfolding unreachable_move_to unreachable_target_missing unreachable_deploy_failed
  unreachable_move_to-Leaves desired p at observed? ns id same other =
      Leaves-found k node_id before _ _ _ (search move_rules depth 20) (λ target found.
        Leaves-bind k node_id before _ _ (Leaves-request k node_id before _ _) (λ reply.
          Ensures-on_reply reply _ _ (λ message. search move_rules depth 20)
            (λ d.
              unreachable_moved-Leaves p at target d same
                (λ e. other (sym (find_node-same_id ns id target found) ∙ e)))))

  reschedule_from_unreachable_node-Leaves :
      (one_minus : Fraction → Fraction) (p : Placement) (at : Time)
      → env.scheduler ≡ choose_node_least_load one_minus
      → p.service_id ≡ k
      → p.node_id ≡ node_id
      → Leaves k node_id before (reschedule_from_unreachable_node env p at)
  unfolding reschedule_from_unreachable_node unreachable_no_candidate
  reschedule_from_unreachable_node-Leaves one_minus p at scheduled same on_node =
      Leaves-bind k node_id before _ _ (Leaves-reads k node_id before _) (λ desired?.
        Leaves-found k node_id before desired? _ _ (Leaves-pure k node_id before tt) (λ desired _.
          Leaves-bind k node_id before _ _ (Leaves-reads k node_id before _) (λ observed?.
            Leaves-bind k node_id before _ _ (Leaves-reads k node_id before _) (λ ns.
              Leaves-found k node_id before _ _ _ (search move_rules depth 20) (λ id chosen.
                unreachable_move_to-Leaves desired p at observed? ns id same (λ e.
                  other_nodes-Any p.node_id id ns
                    (Any-map (λ n h. h.0) (other_nodes p.node_id ns)
                      (choose_node-IsLeastLoaded one_minus desired.service
                        (other_nodes p.node_id ns) id (rw scheduled at chosen)))
                    (e ∙ sym on_node)))))))

-- With the least-load scheduler, a service whose restarts are used up on a node, and one on a node that
-- is unreachable, is placed as before when it has been rescheduled, or on another node than that one,
-- whether the rescheduling returns or raises.
pub reschedule-IsElsewhere :
    (one_minus : Fraction → Fraction) (env : Env) (p : Placement) (at : Time) (w : World)
    → env.scheduler ≡ choose_node_least_load one_minus
    → let before = get w.store.placement p.service_id in
      IsElsewhere p.service_id p.node_id before
        (reschedule_after_exhausted_restart env p.service_id p.node_id at w).1.store
      × IsElsewhere p.service_id p.node_id before
          (reschedule_from_unreachable_node env p at w).1.store
reschedule-IsElsewhere one_minus env p at w scheduled =
    let before = get w.store.placement p.service_id in
    (
      (reschedule_after_exhausted_restart-Leaves p.service_id p.node_id before env one_minus at
            scheduled).at
          w (record { at = inl refl }),
      (reschedule_from_unreachable_node-Leaves p.service_id p.node_id before env one_minus p at
            scheduled refl refl).at
          w (record { at = inl refl }),
    )
