-- ===== src/Outcome/Deploy.antt =====
-- `deploy` with the scheduler of the controller: what it leaves behind, and when it returns.
use orchestrator_thesis.Prelude.{
  String, true, false, ◌≡◌, ◌≢◌, refl, inl, inr, none, some, is_some, arith, List, [], ◌∷◌, eq_iff,
  subst, sym, Any, Any-map,
}
use orchestrator_thesis.Table.{get}
use orchestrator_thesis.Models.{
  ServiceSpec, ServiceDesiredState, ServiceObservedState, NodeState, DeploymentStatus,
  ServiceHealth, is_running, find_node, Fraction,
}
use orchestrator_thesis.Scheduler.{choose_node_least_load}
use orchestrator_thesis.Scheduler.Choice.{choose_node-IsLeastLoaded}
use orchestrator_thesis.Store
use orchestrator_thesis.Store.{Store}
use orchestrator_thesis.World.{
  Env, World, Action, AgentDeployResponse, None, returned, ◌>>=◌, write_all,
}
use orchestrator_thesis.Ingress.Frame.{Outward, sync_ingress-Quiet, Quiet-append_event}
use orchestrator_thesis.ServiceManager.{
  observed_state, placement_failed, deploy_failed, record_deployment, roll_back, deploy_on,
  deploy_anew, deploy,
}
use orchestrator_thesis.Ingress.Frame.{IsOrderly}
use orchestrator_thesis.Outcome.Ends.{
  Ends, Ends-returned, Ends-reads, Ends-Quiet, Ends-writes, Ends-bind, Ends-pure, Ends-if,
  Ends-on_option, Ends-on_reply, Ends-request,
}

-- `o` is what is stored as the observed state of `k`, and if it does not run then the service is
-- queued for another try.
pub record IsSettled (k : String) (o : ServiceObservedState) (w : World) : Type 0 where
  pub observed : get w.store.observed k ≡ some o
  pub queued : is_running o.status ≡ false → is_some (get w.store.pending k) ≡ true

Outward-IsSettled :
    (k : String) (o : ServiceObservedState) (w w' : World)
    → Outward w w'
    → IsSettled k o w
    → IsSettled k o w'
Outward-IsSettled k o w w' p h =
    subst (IsSettled k o) (sym p.same) (record { observed = h.observed; queued = h.queued })

placement_failed-IsSettled :
    (env : Env) (s : ServiceSpec) (reason : String) (w : World)
    → Ends (IsOrderly env) (placement_failed env s reason) w (IsSettled s.service_id)
unfolding placement_failed Store.set_service_observed Store.set_pending_deployment
placement_failed-IsSettled env s reason w = Ends-writes w _ _ _ (
    Ends-writes _ _ _ _ (
      Ends-Quiet _ _ _ _ (Quiet-append_event env _ _ _) λ _ w1 o1.
        Ends-Quiet w1 _ _ _ (sync_ingress-Quiet env _ _) λ _ w2 o2. Ends-pure w2 _ _ (
          Outward-IsSettled _ _ w1 w2 o2 (
            Outward-IsSettled _ _ _ w1 o1 (record {
              observed = ground (arith, eq_iff s.service_id s.service_id);
              queued = λ _. ground (arith, eq_iff s.service_id s.service_id);
            })))))

deploy_failed-IsSettled :
    (env : Env) (s : ServiceSpec) (node : NodeState) (message : String) (w : World)
    → Ends (IsOrderly env) (deploy_failed env s node message) w (IsSettled s.service_id)
unfolding deploy_failed Store.set_service_observed Store.set_pending_deployment
deploy_failed-IsSettled env s node message w = Ends-writes w _ _ _ (
    Ends-writes _ _ _ _ (
      Ends-Quiet _ _ _ _ (Quiet-append_event env _ _ _) λ _ w1 o1.
        Ends-Quiet w1 _ _ _ (sync_ingress-Quiet env _ _) λ _ w2 o2. Ends-pure w2 _ _ (
          Outward-IsSettled _ _ w1 w2 o2 (
            Outward-IsSettled _ _ _ w1 o1 (record {
              observed = ground (arith, eq_iff s.service_id s.service_id);
              queued = λ _. ground (arith, eq_iff s.service_id s.service_id);
            })))))

-- The service runs on the node.
module _ (env : Env) (no_fault : env.write_fault ≡ none) (d : ServiceDesiredState)
    (node : NodeState) (result : AgentDeployResponse) where
  abbrev deployed_state : ServiceObservedState
  deployed_state =
      observed_state env d.service.service_id DeploymentStatus.running ServiceHealth.unknown
        (some result.container_id) (some node.node_id)

  -- Without a fault all five writes are made.
  group-IsSettled :
      (rollback : Action None) (w : World)
      → Ends
          (IsOrderly env)
          (roll_back
            (write_all env.write_fault (
              Store.set_placement (record {
                service_id = d.service.service_id;
                node_id = node.node_id;
                placed_at = env.now;
              })
              ∷ Store.pop_pending_deployment d.service.service_id
              ∷ Store.set_service_desired
                  (record d { status = DeploymentStatus.running; updated_at = env.now })
              ∷ Store.set_service_observed deployed_state
              ∷ Store.reset_restart_counter d.service.service_id env.now
              ∷ []))
            rollback)
          w
          (λ _. IsSettled d.service.service_id deployed_state)
  unfolding roll_back write_all Store.set_placement Store.pop_pending_deployment
      Store.set_service_desired Store.set_service_observed Store.reset_restart_counter
  group-IsSettled rollback w = rw no_fault (record {
    at = record {
      observed = ground (arith, eq_iff d.service.service_id d.service.service_id);
      queued = λ e. cc;
    };
  })

  record_deployment-IsSettled :
      (w : World)
      → Ends
          (IsOrderly env)
          (record_deployment env d node result)
          w
          (IsSettled d.service.service_id)
  unfolding record_deployment
  record_deployment-IsSettled w = Ends-bind w _ _ _ _ (group-IsSettled _ w) λ _ w1 h.
      Ends-Quiet w1 _ _ _ (Quiet-append_event env _ _ _) λ _ w2 o2.
        Ends-Quiet w2 _ _ _ (sync_ingress-Quiet env _ _) λ _ w3 o3.
          Ends-pure w3 _ _ (Outward-IsSettled _ _ w2 w3 o3 (Outward-IsSettled _ _ w1 w2 o2 h))

-- A node of the list is found by its id.
find_node-Any :
    (ns : List NodeState) (id : String) → Any (λ n. n.node_id ≡ id) ns → find_node ns id ≢ none
unfolding find_node
find_node-Any [] id h e = absurd h
find_node-Any (n ∷ ns) id (inl h) e = ground (arith, eq_iff n.node_id id, h)
find_node-Any (n ∷ ns) id (inr h) e = ground (arith, eq_iff n.node_id id, find_node-Any ns id h)

deploy_running :
    (env : Env) (s : ServiceSpec) (o : ServiceObservedState) (w : World)
    → get w.store.observed s.service_id ≡ some o
    → is_running o.status ≡ true
    → deploy env s w ≡ (returned o, w)
unfolding deploy ◌>>=◌ Store.get_service_observed
deploy_running env s o w e running = rw (e, running) refl

module _ (one_minus : Fraction → Fraction) (env : Env)
    (scheduled : env.scheduler ≡ choose_node_least_load one_minus)
    (no_fault : env.write_fault ≡ none) where
  deploy_on-IsSettled :
      (d : ServiceDesiredState) (ns : List NodeState) (id : String) (w : World)
      → (choose_node_least_load one_minus d.service ns).selected_node_id ≡ some id
      → Ends (IsOrderly env) (deploy_on env d ns id) w (IsSettled d.service.service_id)
  unfolding deploy_on
  deploy_on-IsSettled d ns id w chosen =
      Ends-on_option w _ _ _ _
        (λ e. absurd (
          find_node-Any ns id
            (Any-map (λ n h. h.0) ns (choose_node-IsLeastLoaded one_minus d.service ns id chosen))
            e))
        λ node e.
          Ends-request w _ _ _ _ (λ o. o.deploys w.calls node.agent_url d.service)
            (λ reply.
              Ends-on_reply _ _ reply _ _
                (λ message. deploy_failed-IsSettled env d.service node message _)
                λ result. record_deployment-IsSettled env no_fault d node result _)

  deploy_anew-IsSettled :
      (s : ServiceSpec) (w : World)
      → Ends (IsOrderly env) (deploy_anew env s) w (IsSettled s.service_id)
  unfolding deploy_anew
  deploy_anew-IsSettled s w = Ends-writes w _ _ _ (
      Ends-reads _ _ _ _ (
        Ends-on_option _ _ _ _ _ (λ e. placement_failed-IsSettled env s _ _)
          λ id e.
            deploy_on-IsSettled
              (record {
                service = s;
                status = DeploymentStatus.deploying;
                created_at = env.now;
                updated_at = env.now;
              })
              _ id _ (rw scheduled at e)))

  -- With the least-load scheduler, and if no store write fails, a `deploy` that returns gives the
  -- observed state that is then stored, and if that one does not run, the service is in the queue of
  -- pending deployments. It raises only if the agents' client raises something else than
  -- `AgentClientError` or the upstream file cannot be read or written: the branch for an unknown node
  -- is never taken.
  pub deploy-IsSettled :
      (s : ServiceSpec) (w : World) → Ends (IsOrderly env) (deploy env s) w (IsSettled s.service_id)
  unfolding deploy Store.get_service_observed
  deploy-IsSettled s w = Ends-reads w _ _ _ (
      Ends-on_option w _ _ _ _ (λ _. deploy_anew-IsSettled s w)
        λ o e.
          Ends-if w _ _ _ _
            (λ running. Ends-pure w _ o (record { observed = e; queued = λ idle. cc }))
            λ _. deploy_anew-IsSettled s w)

-- Deploying a service again, with whatever surroundings, changes nothing if the first deployment,
-- under the least-load scheduler and without a failing store write, returned a running state: the
-- second returns that state and leaves all as it is.
pub deploy-deploy :
    (one_minus : Fraction → Fraction) (env env' : Env)
    → env.scheduler ≡ choose_node_least_load one_minus
    → env.write_fault ≡ none
    → (s : ServiceSpec) (w w' : World) (o : ServiceObservedState)
    → deploy env s w ≡ (returned o, w')
    → is_running o.status ≡ true
    → deploy env' s w' ≡ (returned o, w')
deploy-deploy one_minus env env' scheduled no_fault s w w' o e running =
    let settled = Ends-returned (deploy-IsSettled one_minus env scheduled no_fault s w) e in
    deploy_running env' s o w' settled.observed running
