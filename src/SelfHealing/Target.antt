-- ===== src/SelfHealing/Target.antt =====
-- A service that has to leave a node is not placed there again: both ways to reschedule of
-- `SelfHealingManager`.
pub mod Moves
use orchestrator_thesis.Prelude.{
  ℕ, zero, suc, String, Bool, ◌≡◌, ◌≢◌, refl, sym, ◌∙◌, subst, ◌⊎◌, inl, inr, Option, none, some,
  List, [], ◌∷◌, ◌==◌, eq_iff, arith, Any, Bool-cases, Option-cases, if◌then◌else◌,
}
use orchestrator_thesis.Table.{get}
use orchestrator_thesis.Models.{
  Time, Fraction, NodeState, Placement, ServiceDesiredState, ServiceObservedState, DeploymentStatus,
  EventType, Detail, find_node,
}
use orchestrator_thesis.Scheduler.{choose_node_least_load}
use orchestrator_thesis.Scheduler.Choice.{IsLeastLoaded, choose_node-IsLeastLoaded}
use orchestrator_thesis.Store
use orchestrator_thesis.Store.{Store}
use orchestrator_thesis.World.{
  Env, World, Action, None, Result, returned, raised, Call, Reply, AgentDeployResponse, pure, raise,
  reads, updates, writes, modify, request, append_event, write_all, on_option, ◌>>=◌, ◌>>◌,
}
use orchestrator_thesis.Ingress.{sync_ingress}
use orchestrator_thesis.Ingress.Frame.{sync_ingress-Quiet}
use orchestrator_thesis.ServiceManager.{roll_back, stop_quietly}
use orchestrator_thesis.SelfHealing.Recovery.{set_cooldown, park}
use orchestrator_thesis.SelfHealing.Reschedule.{
  other_nodes, exhausted_pending, exhausted_deploy_failed, stop_previous, exhausted_moved,
  exhausted_move_to, reschedule_after_exhausted_restart,
}
use orchestrator_thesis.SelfHealing.Unreachable.{
  unreachable_no_candidate, unreachable_target_missing, unreachable_deploy_failed,
  unreachable_moved, unreachable_move_to, reschedule_from_unreachable_node,
}
use orchestrator_thesis.Coherence.{Ensures}
use orchestrator_thesis.Coherence.Steps.{
  Ensures-pure, Ensures-raise, Ensures-if, Ensures-on_option, Ensures-on_reply, Ensures-bind,
}

-- One of the other nodes is not the one left out.
pub other_nodes-Any :
    (node_id id : String) (ns : List NodeState)
    → Any (λ n. n.node_id ≡ id) (other_nodes node_id ns)
    → id ≢ node_id
other_nodes-Any node_id id [] h e = h
other_nodes-Any node_id id (n ∷ ns) h e = elim (Bool-cases (n.node_id == node_id)) [
  | inl left ↦ other_nodes-Any node_id id ns (rw left at h) e
  | inr other ↦ elim (rw other at h) [
    | inl p ↦ ground (arith, eq_iff n.node_id node_id, p, e)
    | inr p ↦ other_nodes-Any node_id id ns p e
  ]
]

-- A node that is found has the id that was looked for.
pub find_node-same_id :
    (ns : List NodeState) (id : String) (n : NodeState) → find_node ns id ≡ some n → n.node_id ≡ id
unfolding find_node
find_node-same_id [] id n h = absurd (cc h)
find_node-same_id (m ∷ ns) id n h =
    ground (arith, eq_iff m.node_id id, find_node-same_id ns id n, h)

-- The service is placed as before, or on another node than this one.
pub record IsElsewhere (k node_id : String) (before : Option Placement) (s : Store) : Type 0 where
  pub at :
      (get s.placement k ≡ before)
      ⊎ ((p : Placement) × (get s.placement k ≡ some p) × (p.node_id ≢ node_id))

module _ (k node_id : String) (before : Option Placement) where
  abbrev pub Leaves : {A : Type 0} → Action A → Type 0
  Leaves m = Ensures (IsElsewhere k node_id before) m (IsElsewhere k node_id before)

  -- A store with the same placements.
  same_placement :
      (s s' : Store)
      → s'.placement ≡ s.placement
      → IsElsewhere k node_id before s
      → IsElsewhere k node_id before s'
  same_placement s s' e h = record {
    at =
        subst
          (λ t. (get t k ≡ before) ⊎ ((p : Placement) × (get t k ≡ some p) × (p.node_id ≢ node_id)))
          (sym e) h.at;
  }

  pub Leaves-pure : {A : Type 0} (a : A) → Leaves (pure a)
  Leaves-pure a = Ensures-pure a (λ s h. h)

  pub Leaves-bind :
      {A B : Type 0} (m : Action A) (f : A → Action B)
      → Leaves m
      → ((a : A) → Leaves (f a))
      → Leaves (m >>= f)
  Leaves-bind m f p q = Ensures-bind (IsElsewhere k node_id before) m f (λ s h. h) p q

  pub Leaves-reads : {A : Type 0} (f : Store → A) → Leaves (reads f)
  unfolding reads
  Leaves-reads f = record { at = λ w h. h }

  pub Leaves-request :
      {A : Type 0} (ask : List Call → Result (Reply A)) (call : Call) → Leaves (request ask call)
  unfolding request
  Leaves-request ask call = record { at = λ w h. h }

  pub Leaves-writes :
      (f : Store → Store) → ((s : Store) → (f s).placement ≡ s.placement) → Leaves (writes f)
  unfolding writes
  Leaves-writes f p = record { at = λ w h. same_placement w.store _ (p w.store) h }

  pub Leaves-set_cooldown :
      (env : Env) (i : String) (at : Time) → Leaves (modify (set_cooldown env i at))
  unfolding modify set_cooldown
  Leaves-set_cooldown env i at = record { at = λ w h. h }

  pub Leaves-append_event :
      (env : Env) (t : EventType) (message : String) (details : List (String × Detail))
      → Leaves (append_event env t message details)
  unfolding append_event Store.append_event
  Leaves-append_event env t message details = record { at = λ w h. same_placement w.store _ refl h }

  pub Leaves-increment_service_generation :
      (i : String) → Leaves (updates (Store.increment_service_generation i))
  unfolding updates Store.increment_service_generation
  Leaves-increment_service_generation i = record { at = λ w h. same_placement w.store _ refl h }

  pub Leaves-sync_ingress : (env : Env) (id reason : String) → Leaves (sync_ingress env id reason)
  Leaves-sync_ingress env id reason = record {
    at = λ w h.
        let o = (sync_ingress-Quiet env id reason).at w in
        subst (λ (v : World). IsElsewhere k node_id before v.store) (sym o.same)
          (same_placement w.store _ refl h);
  }

  pub Leaves-stop_quietly : (env : Env) (url id : String) → Leaves (stop_quietly env url id)
  unfolding stop_quietly
  Leaves-stop_quietly env url id = Leaves-bind _ _ (Leaves-request _ _) (λ _. Leaves-pure tt)

  pub Leaves-write_all-nil : (at : Option ℕ) → Leaves (write_all at [])
  unfolding write_all
  Leaves-write_all-nil at = record { at = λ w h. h }

  pub Leaves-write_all-cons :
      (f : Store → Store) (fs : List (Store → Store)) (at : Option ℕ)
      → ((s : Store) → IsElsewhere k node_id before s → IsElsewhere k node_id before (f s))
      → ((at : Option ℕ) → Leaves (write_all at fs))
      → Leaves (write_all at (f ∷ fs))
  unfolding write_all
  Leaves-write_all-cons f fs none p q = record { at = λ w h. (q none).at _ (p w.store h) }
  Leaves-write_all-cons f fs (some zero) p q = record { at = λ w h. h }
  Leaves-write_all-cons f fs (some (suc i)) p q = record {
    at = λ w h. (q (some i)).at _ (p w.store h);
  }

  after_group :
      (rollback : Action None)
      → Leaves rollback
      → (r : Result None) (w : World) → IsElsewhere k node_id before w.store
      → IsElsewhere k node_id before
          (elim r as (λ _. Result None × World) [
            | returned a ↦ (returned a, w)
            | raised e ↦ (rollback >> raise e) w
          ]).1.store
  after_group rollback p (returned a) w h = h
  after_group rollback p (raised e) w h =
      (Leaves-bind rollback _ p (λ _. Ensures-raise e (λ s h. h))).at w h

  pub Leaves-roll_back :
      (m rollback : Action None) → Leaves m → Leaves rollback → Leaves (roll_back m rollback)
  unfolding roll_back
  Leaves-roll_back m rollback p q = record {
    at = λ w h. let (r, w') = m w in after_group rollback q r w' (p.at w h);
  }

  pub park-Leaves :
      (i reason : String) (at : Time) (o : ServiceObservedState) → Leaves (park i reason at o)
  unfolding park Store.set_service_observed Store.set_pending_deployment
  park-Leaves i reason at o =
      Leaves-bind _ _ (Leaves-writes _ (λ s. refl)) (λ _. Leaves-writes _ (λ s. refl))

  -- The four writes of a move, the placement on another node among them.
  pub moved_to :
      (p : Placement) (s : Store)
      → p.service_id ≡ k
      → p.node_id ≢ node_id
      → IsElsewhere k node_id before (Store.set_placement p s)
  unfolding Store.set_placement
  moved_to p s e other = record { at = inr (p, ground (arith, e, eq_iff p.service_id k), other) }

-- The writes and reads that leave the placements as they are, and the rest that does.
pub ruleset leaves_rules = (
  Leaves-pure, Leaves-bind, Leaves-reads, Leaves-request, Leaves-set_cooldown, Leaves-append_event,
  Leaves-increment_service_generation, Leaves-sync_ingress, Leaves-stop_quietly,
  Leaves-write_all-nil, Leaves-write_all-cons, Leaves-roll_back, Ensures-on_option,
  Ensures-on_reply, park-Leaves,
)
