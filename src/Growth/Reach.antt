-- ===== src/Growth/Reach.antt =====
-- Whatever the controller does, generations do not go back, and reports of old ones stay ignored.
use orchestrator_thesis.Prelude.{
  ℕ, ◌<◌, String, ◌≡◌, refl, subst, ap, false, arith, Option, some, or_else, Option-cases, inl, inr,
  List, [], ◌∷◌,
}
use orchestrator_thesis.Table.{get}
use orchestrator_thesis.Models.{
  Time, NodeState, Placement, PendingDeployment, ResourceSnapshot, AgentHealthReport,
}
use orchestrator_thesis.Store
use orchestrator_thesis.Store.{Store}
use orchestrator_thesis.World.{Env, World, returned}
use orchestrator_thesis.SelfHealing.{is_stale, handle_health_report}
use orchestrator_thesis.SelfHealing.Guards.{handle_health_report-ignored}
use orchestrator_thesis.SelfHealing.Unreachable.{reschedule_each, handle_node_unreachable}
use orchestrator_thesis.Reconciler.{mark_unavailable, check_nodes, retry_each, run_once}
use orchestrator_thesis.Controller.{
  Step, Run, done, next, heartbeat, snapshot, lock, deployed, stopped, restarted, retried,
  health_reported, crash_reported, rescheduled, node_unreachable, reconciled,
}
use orchestrator_thesis.Coherence.Steps.{Ensures-if}
use orchestrator_thesis.Growth.{
  IsGrown, Grows, same-IsGrown, Grows-bind, Grows-pure, Grows-reads, Grows-writes,
  Grows-append_event,
}
use orchestrator_thesis.Growth.Manager.{
  deploy-Grows, stop-Grows, restart-Grows, retry_pending_deployment-Grows,
}
use orchestrator_thesis.Growth.Healing.{
  reschedule_from_unreachable_node-Grows, handle_crash_report-Grows, handle_health_report-Grows,
}

module _ (j : String) (n : ℕ) where
  mark_node_unavailable-IsGrown :
      (id : String) (s : Store) → IsGrown j n s → IsGrown j n (Store.mark_node_unavailable id s)
  unfolding Store.mark_node_unavailable
  mark_node_unavailable-IsGrown id s h = elim (Option-cases (get s.nodes id)) [
    | inl e ↦ rw (Store.mark_node_unavailable, e) h
    | inr (m, e) ↦ rw (Store.mark_node_unavailable, e) (same-IsGrown j n s _ refl h)
  ]

  upsert_node_heartbeat-IsGrown :
      (id url : String) (address : Option String) (at : Time) (s : Store)
      → IsGrown j n s
      → IsGrown j n (Store.upsert_node_heartbeat id url address at s)
  unfolding Store.upsert_node_heartbeat
  upsert_node_heartbeat-IsGrown id url address at s h = elim (Option-cases (get s.nodes id)) [
    | inl e ↦ rw (Store.upsert_node_heartbeat, e) (same-IsGrown j n s _ refl h)
    | inr (m, e) ↦ rw (Store.upsert_node_heartbeat, e) (same-IsGrown j n s _ refl h)
  ]

  upsert_node_snapshot-IsGrown :
      (id : String) (snap : ResourceSnapshot) (s s' : Store)
      → Store.upsert_node_snapshot id snap s ≡ some s'
      → IsGrown j n s
      → IsGrown j n s'
  unfolding Store.upsert_node_snapshot
  upsert_node_snapshot-IsGrown id snap s s' e h = elim (Option-cases (get s.nodes id)) [
    | inl f ↦ cc
    | inr (m, f) ↦
        subst (IsGrown j n) (ap (λ o. or_else o s) (rw (Store.upsert_node_snapshot, f) at e))
          (same-IsGrown j n s _ refl h)
  ]

  acquire_service_lock-IsGrown :
      (id : String) (s : Store) → IsGrown j n s → IsGrown j n (Store.acquire_service_lock id s).0
  unfolding Store.acquire_service_lock
  acquire_service_lock-IsGrown id s h = elim (Option-cases (get s.service_locks id)) [
    | inl e ↦ rw (Store.acquire_service_lock, e) (same-IsGrown j n s _ refl h)
    | inr (m, e) ↦ rw (Store.acquire_service_lock, e) h
  ]

  reschedule_each-Grows :
      (env : Env) (id : String) (at : Time) (ps : List Placement)
      → Grows j n (reschedule_each env id at ps)
  unfolding reschedule_each
  reschedule_each-Grows env id at [] = Grows-pure j n tt
  reschedule_each-Grows env id at (p ∷ ps) = Ensures-if _ _ _ (reschedule_each-Grows env id at ps) (
      Grows-bind j n _ _ (reschedule_from_unreachable_node-Grows j n env p at)
        λ _. reschedule_each-Grows env id at ps)

  handle_node_unreachable-Grows :
      (env : Env) (id : String) (at : Time) → Grows j n (handle_node_unreachable env id at)
  unfolding handle_node_unreachable
  handle_node_unreachable-Grows env id at =
      Grows-bind j n _ _ (Grows-reads j n _) (reschedule_each-Grows env id at)

  mark_unavailable-Grows : (env : Env) (m : NodeState) → Grows j n (mark_unavailable env m)
  unfolding mark_unavailable
  mark_unavailable-Grows env m =
      Grows-bind j n _ _ (Grows-writes j n _ (mark_node_unavailable-IsGrown m.node_id)) λ _.
        Grows-bind j n _ _ (Grows-append_event j n env _ _ _)
          λ _. handle_node_unreachable-Grows env m.node_id env.now

  check_nodes-Grows : (env : Env) (ns : List NodeState) → Grows j n (check_nodes env ns)
  unfolding check_nodes
  check_nodes-Grows env [] = Grows-pure j n tt
  check_nodes-Grows env (m ∷ ns) =
      Ensures-if _ _ _
        (Grows-bind j n _ _ (mark_unavailable-Grows env m) (λ _. check_nodes-Grows env ns))
        (check_nodes-Grows env ns)

  retry_each-Grows : (env : Env) (ps : List PendingDeployment) → Grows j n (retry_each env ps)
  unfolding retry_each
  retry_each-Grows env [] = Grows-pure j n tt
  retry_each-Grows env (p ∷ ps) =
      Grows-bind j n _ _ (retry_pending_deployment-Grows j n env p.service_id)
        (λ _. retry_each-Grows env ps)

  run_once-Grows : (env : Env) → Grows j n (run_once env)
  unfolding run_once
  run_once-Grows env = Grows-bind j n _ _ (Grows-reads j n _) λ ns.
      Grows-bind j n _ _ (check_nodes-Grows env ns)
        λ _. Grows-bind j n _ _ (Grows-reads j n _) (retry_each-Grows env)

  Step-IsGrown : {w w' : World} → Step w w' → IsGrown j n w.store → IsGrown j n w'.store
  Step-IsGrown (heartbeat w id url address at) h =
      upsert_node_heartbeat-IsGrown id url address at w.store h
  Step-IsGrown (snapshot w id s s' e) h = upsert_node_snapshot-IsGrown id s w.store s' e h
  Step-IsGrown (lock w id) h = acquire_service_lock-IsGrown id w.store h
  Step-IsGrown (deployed w env spec) h = (deploy-Grows j n env spec).at w h
  Step-IsGrown (stopped w env id) h = (stop-Grows j n env id).at w h
  Step-IsGrown (restarted w env id) h = (restart-Grows j n env id).at w h
  Step-IsGrown (retried w env id) h = (retry_pending_deployment-Grows j n env id).at w h
  Step-IsGrown (health_reported w env report) h = (handle_health_report-Grows j n env report).at w h
  Step-IsGrown (crash_reported w env report) h = (handle_crash_report-Grows j n env report).at w h
  Step-IsGrown (rescheduled w env p at) h =
      (reschedule_from_unreachable_node-Grows j n env p at).at w h
  Step-IsGrown (node_unreachable w env id at) h = (handle_node_unreachable-Grows env id at).at w h
  Step-IsGrown (reconciled w env) h = (run_once-Grows env).at w h

  Run-IsGrown : {w w' : World} → Run w w' → IsGrown j n w.store → IsGrown j n w'.store
  Run-IsGrown (done w) h = h
  Run-IsGrown (next r s) h = Step-IsGrown s (Run-IsGrown r h)

-- Once the generation of a service is beyond `g`, then after any further steps of the controller a
-- health report of the service that names `g` changes nothing at all: an old instance never acts on
-- the service again.
pub Run-handle_health_report :
    (w w' : World) (env : Env) (report : AgentHealthReport) (g : ℕ)
    → report.service_generation ≡ some g
    → g < Store.get_service_generation report.service_id w.store
    → Run w w'
    → handle_health_report env report w' ≡ (returned tt, w')
Run-handle_health_report w w' env report g named old r =
    let grown =
      (Run-IsGrown report.service_id (Store.get_service_generation report.service_id w.store) r
        (record { least = omega arith })).least in
    handle_health_report-ignored env report w' λ c.
      let fresh =
        subst (λ o. is_stale o (Store.get_service_generation report.service_id w'.store) ≡ false)
          named c.fresh in
      ground (arith, fresh, old, grown)
