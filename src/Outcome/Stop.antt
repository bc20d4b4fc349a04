-- ===== src/Outcome/Stop.antt =====
-- What `stop` leaves behind, and that reports about a stopped service are ignored.
use orchestrator_thesis.Prelude.{
  ℕ, String, ◌≡◌, refl, Option, none, some, arith, eq_iff, subst, sym,
}
use orchestrator_thesis.Table.{get}
use orchestrator_thesis.Models.{
  ServiceDesiredState, ServiceObservedState, Placement, DeploymentStatus, ServiceHealth,
  AgentHealthReport,
}
use orchestrator_thesis.Store
use orchestrator_thesis.Store.{Store}
use orchestrator_thesis.World.{Env, World, returned, ◌>>=◌}
use orchestrator_thesis.SelfHealing.{handle_health_report}
use orchestrator_thesis.SelfHealing.Guards.{IsCurrent, handle_health_report-ignored}
use orchestrator_thesis.Ingress.Frame.{
  Quiet, Outward, quiet_rules, sync_ingress-Quiet, Quiet-append_event,
}
use orchestrator_thesis.ServiceManager.{observed_state}
use orchestrator_thesis.ServiceManager.Commands.{stop_on_agent, stop_desired, stop}
use orchestrator_thesis.Ingress.Frame.{IsOrderly}
use orchestrator_thesis.Outcome.Ends.{
  Ends, Ends-returned, Ends-reads, Ends-Quiet, Ends-writes, Ends-bind, Ends-pure,
}
use orchestrator_thesis.Coherence.{IsCoherent}

-- The service is observed to be stopped, on no node and in no queue, its restarts are counted from
-- 0 again, and it is not desired, or desired to be stopped.
pub record IsStopped (env : Env) (k : String) (w : World) : Type 0 where
  pub observed :
      get w.store.observed k
      ≡ some (observed_state env k DeploymentStatus.stopped ServiceHealth.unknown none none)
  pub placement : get w.store.placement k ≡ none
  pub pending : get w.store.pending k ≡ none
  pub restarts :
      get w.store.restart_counter k
      ≡ some (record { service_id = k; count = 0; updated_at = env.now })
  pub desired :
      (d : ServiceDesiredState)
      → get w.store.desired k ≡ some d
      → d.status ≡ DeploymentStatus.stopped

stop_on_agent-Quiet :
    (env : Env) (k : String) (p : Option Placement) → Quiet env (stop_on_agent env k p)
unfolding stop_on_agent
stop_on_agent-Quiet env k p = search quiet_rules depth 20

-- What is stored of the service does not change with what is outside it.
Outward-IsStopped :
    (env : Env) (k : String) (w w' : World) → Outward w w' → IsStopped env k w → IsStopped env k w'
Outward-IsStopped env k w w' o h = subst (IsStopped env k) (sym o.same) (record {
  observed = h.observed;
  placement = h.placement;
  pending = h.pending;
  restarts = h.restarts;
  desired = h.desired;
})

-- The store when all but the desired state is written.
abbrev cleared : Env → String → Store → Store
cleared env k s = Store.reset_restart_counter k env.now (
    Store.pop_pending_deployment k (
      Store.clear_placement k (
        Store.set_service_observed
          (observed_state env k DeploymentStatus.stopped ServiceHealth.unknown none none) s)))

cleared-IsStopped :
    (env : Env) (k : String) (w : World)
    → ((d : ServiceDesiredState) → get w.store.desired k ≡ some d → d.service.service_id ≡ k)
    → (d? : Option ServiceDesiredState) → get w.store.desired k ≡ d?
    → Ends
        (IsOrderly env)
        (stop_desired env d?)
        (record w { store = cleared env k w.store })
        (λ _ w'. IsStopped env k w')
unfolding stop_desired Store.set_service_observed Store.clear_placement Store.pop_pending_deployment
    Store.reset_restart_counter Store.set_service_desired ◌>>=◌
cleared-IsStopped env k w named none e = record {
  at = record {
    observed = ground (arith, eq_iff k k);
    placement = ground (arith, eq_iff k k);
    pending = ground (arith, eq_iff k k);
    restarts = ground (arith, eq_iff k k);
    desired = λ d h. cc;
  };
}
cleared-IsStopped env k w named (some d) e = record {
  at = record {
    observed = ground (arith, eq_iff k k);
    placement = ground (arith, eq_iff k k);
    pending = ground (arith, eq_iff k k);
    restarts = ground (arith, eq_iff k k);
    desired = λ d' h. ground (arith, named d e, eq_iff d.service.service_id k);
  };
}

-- In a coherent store, a stop that returns, also if its agent cannot be reached, leaves the service
-- observed to be stopped, on no node, in no queue, with its restarts counted from 0 again, and not
-- desired or desired to be stopped. A stop raises only if the agents' client raises something else
-- than `AgentClientError` or the upstream file cannot be read or written.
pub stop-IsStopped :
    (env : Env) (k : String) (w : World)
    → IsCoherent w.store
    → Ends (IsOrderly env) (stop env k) w (λ o w'. IsStopped env k w')
unfolding stop Store.get_service_desired Store.set_service_observed Store.clear_placement
    Store.pop_pending_deployment Store.reset_restart_counter
stop-IsStopped env k w c = Ends-reads w _ _ _ (
    Ends-Quiet w _ _ _ (stop_on_agent-Quiet env k _) λ _ w1 o1.
      let named : (d : ServiceDesiredState)
          → get w1.store.desired k ≡ some d
          → d.service.service_id ≡ k =
        λ d e.
          (c.service k).desired_named d
            (subst (λ (v : World). get v.store.desired k ≡ some d) o1.same e) in
      Ends-writes w1 _ _ _ (
        Ends-writes _ _ _ _ (
          Ends-writes _ _ _ _ (
            Ends-writes _ _ _ _ (
              Ends-reads _ _ _ _ (
                Ends-bind _ _ _ _ _ (cleared-IsStopped env k w1 named _ refl) λ _ w2 h2.
                  Ends-Quiet w2 _ _ _ (Quiet-append_event env _ _ _) λ _ w3 o3.
                    Ends-Quiet w3 _ _ _ (sync_ingress-Quiet env k _) λ _ w4 o4.
                      Ends-pure w4 _ _ (
                        Outward-IsStopped env k w3 w4 o4
                          (Outward-IsStopped env k w2 w3 o3 h2))))))))

-- A stopped service is not current for any report.
stopped-not_current :
    (env : Env) (k node_id : String) (generation : Option ℕ) (w : World)
    → IsStopped env k w
    → ¬ IsCurrent w.store k node_id generation
stopped-not_current env k node_id generation w h c = cc (c.is_placed, h.placement)

-- After a stop that returned, in a coherent store, a health report of that service from any node and
-- of any generation changes nothing at all: it does not bring the service back.
pub stop-handle_health_report :
    (env env' : Env) (k : String) (report : AgentHealthReport) (w w' : World)
    (o : ServiceObservedState)
    → IsCoherent w.store
    → stop env k w ≡ (returned o, w')
    → report.service_id ≡ k
    → handle_health_report env' report w' ≡ (returned tt, w')
stop-handle_health_report env env' k report w w' o c stopped e =
    handle_health_report-ignored env' report w' (
      stopped-not_current env report.service_id report.node_id report.service_generation _ (
        subst (λ i. IsStopped env i w') (sym e) (Ends-returned (stop-IsStopped env k w c) stopped)))
