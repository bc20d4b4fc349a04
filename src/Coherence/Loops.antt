-- ===== src/Coherence/Loops.antt =====
-- Actions on several services, one after the other, keep the invariant.
use orchestrator_thesis.Prelude.{
  String, false, arith, List, [], ◌∷◌, Option, some, Option-cases, inl, inr, ◌≡◌, subst, ap,
  or_else,
}
use orchestrator_thesis.Table.{Table, get}
use orchestrator_thesis.Models.{ResourceSnapshot, Time, NodeState, Placement, PendingDeployment}
use orchestrator_thesis.Store
use orchestrator_thesis.Store.{Store}
use orchestrator_thesis.World.{Env, Action, reads, writes, ◌>>=◌}
use orchestrator_thesis.SelfHealing.Unreachable.{reschedule_each, handle_node_unreachable}
use orchestrator_thesis.Reconciler.{mark_unavailable, check_nodes, retry_each, run_once}
use orchestrator_thesis.Coherence.{IsCoherent, Ensures, Safe}
use orchestrator_thesis.Coherence.Rules.{At-aside}
use orchestrator_thesis.Coherence.Logic.{Ensures-bind, Ensures-if, Ensures-pure, Keeps-append_event}
use orchestrator_thesis.Coherence.Manager.{retry-Ensures}
use orchestrator_thesis.Coherence.Moving.{reschedule_from_unreachable_node-Ensures}

pub to_Safe : (k : String) (s : Store) → IsCoherent s → Safe k s
to_Safe k s c = record { coherent = c; reached = omega arith; known_placed = λ e. cc }

-- A coherent store stays coherent.
abbrev pub Preserves : {A : Type 0} → Action A → Type 0
Preserves m = Ensures IsCoherent m IsCoherent

pub preserves : {A : Type 0} (k : String) (m : Action A) → Ensures (Safe k) m (Safe k) → Preserves m
preserves k m p = record { at = λ w c. (p.at w (to_Safe k w.store c)).coherent }

module _ {A B : Type 0} where
  pub Preserves-bind :
      (m : Action A) (f : A → Action B)
      → Preserves m
      → ((a : A) → Preserves (f a))
      → Preserves (m >>= f)
  Preserves-bind m f p q = Ensures-bind IsCoherent m f (λ s c. c) p q

pub Preserves-reads : {A : Type 0} (f : Store → A) → Preserves (reads f)
unfolding reads
Preserves-reads f = record { at = λ w c. c }

pub Preserves-writes :
    (f : Store → Store) → ((s : Store) → IsCoherent s → IsCoherent (f s)) → Preserves (writes f)
unfolding writes
Preserves-writes f p = record { at = λ w c. p w.store c }

-- An update that changes the nodes only.
IsCoherent-nodes :
    (s : Store) (nodes : Table NodeState) → IsCoherent s → IsCoherent (record s { nodes = nodes })
IsCoherent-nodes s nodes c =
    (At-aside "" 0 false s nodes s.restart_counter s.events s.recovery_history s.service_locks
      s.locks_made (to_Safe "" s c) c.events c.history).coherent

pub mark_node_unavailable-IsCoherent :
    (id : String) (s : Store) → IsCoherent s → IsCoherent (Store.mark_node_unavailable id s)
unfolding Store.mark_node_unavailable
mark_node_unavailable-IsCoherent id s c = elim (Option-cases (get s.nodes id)) [
  | inl e ↦ rw (Store.mark_node_unavailable, e) c
  | inr (n, e) ↦ rw (Store.mark_node_unavailable, e) (IsCoherent-nodes s _ c)
]

pub upsert_node_heartbeat-IsCoherent :
    (id agent_url : String) (address : Option String) (at : Time) (s : Store)
    → IsCoherent s
    → IsCoherent (Store.upsert_node_heartbeat id agent_url address at s)
unfolding Store.upsert_node_heartbeat
upsert_node_heartbeat-IsCoherent id agent_url address at s c =
    elim (Option-cases (get s.nodes id)) [
      | inl e ↦ rw (Store.upsert_node_heartbeat, e) (IsCoherent-nodes s _ c)
      | inr (n, e) ↦ rw (Store.upsert_node_heartbeat, e) (IsCoherent-nodes s _ c)
    ]

pub upsert_node_snapshot-IsCoherent :
    (id : String) (snapshot : ResourceSnapshot) (s s' : Store)
    → IsCoherent s
    → Store.upsert_node_snapshot id snapshot s ≡ some s'
    → IsCoherent s'
unfolding Store.upsert_node_snapshot
upsert_node_snapshot-IsCoherent id snapshot s s' c h = elim (Option-cases (get s.nodes id)) [
  | inl e ↦ cc
  | inr (n, e) ↦
      subst IsCoherent (ap (λ o. or_else o s) (rw (Store.upsert_node_snapshot, e) at h))
        (IsCoherent-nodes s _ c)
]

pub acquire_service_lock-IsCoherent :
    (id : String) (s : Store) → IsCoherent s → IsCoherent (Store.acquire_service_lock id s).0
unfolding Store.acquire_service_lock
acquire_service_lock-IsCoherent id s c = elim (Option-cases (get s.service_locks id)) [
  | inl e ↦
      rw (Store.acquire_service_lock, e)
        (At-aside "" 0 false s s.nodes s.restart_counter s.events s.recovery_history _ _
          (to_Safe "" s c) c.events c.history).coherent
  | inr (n, e) ↦ rw (Store.acquire_service_lock, e) c
]

-- The loops of `handle_node_unreachable` and of the reconciler.
reschedule_each-Preserves :
    (env : Env) (id : String) (at : Time) (ps : List Placement)
    → Preserves (reschedule_each env id at ps)
unfolding reschedule_each
reschedule_each-Preserves env id at [] = Ensures-pure tt (λ s c. c)
reschedule_each-Preserves env id at (p ∷ ps) =
    Ensures-if _ _ _ (reschedule_each-Preserves env id at ps) (
      Preserves-bind _ _
        (preserves p.service_id _ (reschedule_from_unreachable_node-Ensures env p at))
        (λ _. reschedule_each-Preserves env id at ps))

pub handle_node_unreachable-Preserves :
    (env : Env) (id : String) (at : Time) → Preserves (handle_node_unreachable env id at)
unfolding handle_node_unreachable
handle_node_unreachable-Preserves env id at =
    Preserves-bind _ _ (Preserves-reads Store.list_placements) (reschedule_each-Preserves env id at)

pub mark_unavailable-Preserves : (env : Env) (n : NodeState) → Preserves (mark_unavailable env n)
unfolding mark_unavailable
mark_unavailable-Preserves env n =
    Preserves-bind _ _ (Preserves-writes _ (mark_node_unavailable-IsCoherent n.node_id)) λ _.
      Preserves-bind _ _ (preserves "" _ (Keeps-append_event "" 0 false env _ _ _))
        λ _. handle_node_unreachable-Preserves env n.node_id env.now

check_nodes-Preserves : (env : Env) (ns : List NodeState) → Preserves (check_nodes env ns)
unfolding check_nodes
check_nodes-Preserves env [] = Ensures-pure tt (λ s c. c)
check_nodes-Preserves env (n ∷ ns) =
    Ensures-if _ _ _
      (Preserves-bind _ _ (mark_unavailable-Preserves env n) (λ _. check_nodes-Preserves env ns))
      (check_nodes-Preserves env ns)

retry_each-Preserves : (env : Env) (ps : List PendingDeployment) → Preserves (retry_each env ps)
unfolding retry_each
retry_each-Preserves env [] = Ensures-pure tt (λ s c. c)
retry_each-Preserves env (p ∷ ps) =
    Preserves-bind _ _ (preserves p.service_id _ (retry-Ensures env p.service_id))
      (λ _. retry_each-Preserves env ps)

pub run_once-Preserves : (env : Env) → Preserves (run_once env)
unfolding run_once
run_once-Preserves env = Preserves-bind _ _ (Preserves-reads Store.list_nodes) λ ns.
    Preserves-bind _ _ (check_nodes-Preserves env ns) λ _.
      Preserves-bind _ _ (Preserves-reads Store.list_pending_deployments) (retry_each-Preserves env)
