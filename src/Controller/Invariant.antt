-- ===== src/Controller/Invariant.antt =====
-- Whatever the controller has done since it was made, its store is coherent.
use orchestrator_thesis.Prelude.{ℕ, arith}
use orchestrator_thesis.Store.{new_store}
use orchestrator_thesis.World.{World}
use orchestrator_thesis.Controller.{
  Step, Reach, start, then, heartbeat, snapshot, lock, deployed, stopped, restarted, retried,
  health_reported, crash_reported, rescheduled, node_unreachable, reconciled,
}
use orchestrator_thesis.Coherence.{IsCoherent}
use orchestrator_thesis.Coherence.Manager.{
  deploy-Ensures, stop-Ensures, restart-Ensures, retry-Ensures,
}
use orchestrator_thesis.Coherence.Moving.{reschedule_from_unreachable_node-Ensures}
use orchestrator_thesis.Coherence.Reports.{
  handle_crash_report-Ensures, handle_health_report-Ensures,
}
use orchestrator_thesis.Coherence.Loops.{
  preserves, upsert_node_heartbeat-IsCoherent, upsert_node_snapshot-IsCoherent,
  acquire_service_lock-IsCoherent, handle_node_unreachable-Preserves, run_once-Preserves,
}

pub new_store-IsCoherent : (n : ℕ) → IsCoherent (new_store n)
unfolding new_store
new_store-IsCoherent n = record {
  service = λ k. record {
    desired_named = λ d e. cc;
    observed_named = λ o e. cc;
    placement_named = λ p e. cc;
    pending_named = λ p e. cc;
    fresh = λ o e. cc;
    placed = λ o e r. cc;
  };
  events = omega arith;
  history = omega arith;
}

-- A step from a coherent store ends in a coherent one, whether its method returns or raises.
pub Step-IsCoherent : {w w' : World} → Step w w' → IsCoherent w.store → IsCoherent w'.store
Step-IsCoherent (heartbeat w id url address at) c =
    upsert_node_heartbeat-IsCoherent id url address at w.store c
Step-IsCoherent (snapshot w id s s' e) c = upsert_node_snapshot-IsCoherent id s w.store s' c e
Step-IsCoherent (lock w id) c = acquire_service_lock-IsCoherent id w.store c
Step-IsCoherent (deployed w env service) c =
    (preserves service.service_id _ (deploy-Ensures env service)).at w c
Step-IsCoherent (stopped w env id) c = (preserves id _ (stop-Ensures env id)).at w c
Step-IsCoherent (restarted w env id) c = (preserves id _ (restart-Ensures env id)).at w c
Step-IsCoherent (retried w env id) c = (preserves id _ (retry-Ensures env id)).at w c
Step-IsCoherent (health_reported w env report) c =
    (preserves report.service_id _ (handle_health_report-Ensures env report)).at w c
Step-IsCoherent (crash_reported w env report) c =
    (preserves report.service_id _ (handle_crash_report-Ensures env report)).at w c
Step-IsCoherent (rescheduled w env p at) c =
    (preserves p.service_id _ (reschedule_from_unreachable_node-Ensures env p at)).at w c
Step-IsCoherent (node_unreachable w env id at) c =
    (handle_node_unreachable-Preserves env id at).at w c
Step-IsCoherent (reconciled w env) c = (run_once-Preserves env).at w c

-- In every state that the controller reaches from its start, by any steps in any order, the store
-- is coherent: what is stored of a service is stored under its own name, an observed generation is
-- at most the counter's, a service that is observed to run is placed, and the logs are within
-- their bound.
pub Reach-IsCoherent : {w : World} → Reach w → IsCoherent w.store
Reach-IsCoherent (start n) = new_store-IsCoherent n
Reach-IsCoherent (then r s) = Step-IsCoherent s (Reach-IsCoherent r)
