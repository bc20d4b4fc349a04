-- ===== src/Reconciler.antt =====
-- controller/reconciler.py: `Reconciler.run_once`. The clock reading that it is given or makes is
-- `env.now`, and the two loops run over the lists that were read before them.
use orchestrator_thesis.Prelude.{◌+◌, Bool, false, not, List, [], ◌∷◌, leb, if◌then◌else◌}
use orchestrator_thesis.Models.{seconds, NodeState, PendingDeployment, EventType, text, is_healthy}
use orchestrator_thesis.Store
use orchestrator_thesis.World.{Env, Action, None, pure, reads, writes, ◌>>=◌, ◌>>◌, append_event}
use orchestrator_thesis.ServiceManager.Commands.{retry_pending_deployment}
use orchestrator_thesis.SelfHealing.Unreachable.{handle_node_unreachable}

-- A node that is healthy as far as is known, and whose last heartbeat is longer ago than the
-- timeout and one interval.
unfoldable pub is_overdue : Env → NodeState → Bool
is_overdue env node =
    let timeout_delta =
      seconds
        (env.settings.heartbeat_timeout_seconds + env.settings.reconciliation_interval_seconds) in
    if not (is_healthy node.status)
    then false
    else not (leb env.now (node.last_heartbeat_at + timeout_delta))

unfoldable pub mark_unavailable : Env → NodeState → Action None
mark_unavailable env node = do
  writes (Store.mark_node_unavailable node.node_id)
  append_event env EventType.node "Node marked unavailable due to heartbeat timeout"
      (("node_id", text node.node_id) ∷ [])
  handle_node_unreachable env node.node_id env.now

unfoldable pub check_nodes : Env → List NodeState → Action None
unfolding mark_unavailable
check_nodes env [] = pure tt
check_nodes env (node ∷ nodes) =
    let rest = check_nodes env nodes in
    if is_overdue env node then (mark_unavailable env node >> rest) else rest

unfoldable pub retry_each : Env → List PendingDeployment → Action None
retry_each env [] = pure tt
retry_each env (item ∷ items) =
    let rest = retry_each env items in retry_pending_deployment env item.service_id >> rest

unfoldable pub run_once : Env → Action None
unfolding check_nodes retry_each
run_once env = do
  nodes ← reads Store.list_nodes
  check_nodes env nodes
  pending ← reads Store.list_pending_deployments
  retry_each env pending
