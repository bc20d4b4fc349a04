-- ===== src/Coherence/Logic.antt =====
-- Actions that keep the invariant: one rule for each action of the store, for `search`.
pub use orchestrator_thesis.Coherence.Steps.{
  Ensures-pure, Ensures-raise, Ensures-if, Ensures-finally, Ensures-on_option, Ensures-on_some,
  Ensures-on_none, Ensures-on_reply, Ensures-bind,
}
use orchestrator_thesis.Prelude.{
  ℕ, ◌≤◌, max, String, ◌≡◌, refl, inl, inr, Bool, true, false, ◌||◌, not, Option, none, some,
  length, List, [], ◌∷◌, arith, length-take, sym, Option-cases, if◌then◌else◌, zero, suc, ◌∙◌,
  is_some, subst,
}
use orchestrator_thesis.Table.{get}
use orchestrator_thesis.Models.{
  Time, ServiceObservedState, ServiceDesiredState, Placement, RecoveryRecord, is_running, EventType,
  Detail,
}
use orchestrator_thesis.Store
use orchestrator_thesis.Store.{Store}
use orchestrator_thesis.World.{
  Env, World, Action, None, Result, returned, raised, raise, reads, gets, updates, writes, modify,
  request, Reply, ◌>>=◌, ◌>>◌, write_all, Call, append_event,
}
use orchestrator_thesis.Ingress.{sync_ingress}
use orchestrator_thesis.Ingress.Frame.{Quiet, Outward, sync_ingress-Quiet}
use orchestrator_thesis.ServiceManager.{roll_back, stop_quietly}
use orchestrator_thesis.Coherence.{At, Ensures, Safe}
use orchestrator_thesis.Coherence.Rules.{
  At-set_service_observed, At-set_service_desired, At-set_placement, At-set_pending_deployment,
  At-pop_pending_deployment, At-clear_placement, At-increment_service_generation, At-aside,
  At-weaken, aside,
}

-- The action keeps what is known.
abbrev pub Keeps : {A : Type 0} → String → ℕ → Bool → Action A → Type 0
Keeps k n b m = Ensures (At k n b) m (At k n b)

module _ (k : String) (n : ℕ) (b : Bool) where
  pub forget : (s : Store) → At k n b s → Safe k s
  forget s = At-weaken k n b 0 s (omega arith)

  pub Keeps-writes :
      (f : Store → Store) → ((s : Store) → At k n b s → At k n b (f s)) → Keeps k n b (writes f)
  unfolding writes
  Keeps-writes f p = record { at = λ w h. p w.store h }

  pub Keeps-reads : {A : Type 0} (f : Store → A) → Keeps k n b (reads f)
  unfolding reads
  Keeps-reads f = record { at = λ w h. h }

  pub Keeps-gets : {A : Type 0} (f : World → A) → Keeps k n b (gets f)
  unfolding gets
  Keeps-gets f = record { at = λ w h. h }

  pub Keeps-request :
      {A : Type 0} (ask : List Call → Result (Reply A)) (call : Call)
      → Keeps k n b (request ask call)
  unfolding request
  Keeps-request ask call = record { at = λ w h. h }

  pub Keeps-append_event :
      (env : Env) (t : EventType) (message : String) (details : List (String × Detail))
      → Keeps k n b (append_event env t message details)
  unfolding append_event Store.append_event
  Keeps-append_event env t message details = record {
    at = λ w h.
        At-aside k n b w.store w.store.nodes w.store.restart_counter _ w.store.recovery_history
          w.store.service_locks w.store.locks_made h (omega (arith, length-take {0}))
          h.coherent.history;
  }

  At-Outward : (w w' : World) → Outward w w' → At k n b w.store → At k n b w'.store
  At-Outward w w' o h =
      subst (λ (v : World). At k n b v.store) (sym o.same)
        (At-aside k n b w.store w.store.nodes w.store.restart_counter o.events
          w.store.recovery_history w.store.service_locks w.store.locks_made h
          (ground (arith, o.bounded, h.coherent.events)) h.coherent.history)

  Keeps-Quiet : {A : Type 0} (env : Env) (m : Action A) → Quiet env m → Keeps k n b m
  Keeps-Quiet env m q = record { at = λ w h. At-Outward w (m w).1 (q.at w) h }

  pub Keeps-sync_ingress :
      (env : Env) (service_id reason : String) → Keeps k n b (sync_ingress env service_id reason)
  Keeps-sync_ingress env service_id reason =
      Keeps-Quiet env (sync_ingress env service_id reason)
        (sync_ingress-Quiet env service_id reason)

  pub At-add_recovery_record :
      (r : RecoveryRecord) (s : Store) → At k n b s → At k n b (Store.add_recovery_record r s)
  unfolding Store.add_recovery_record
  At-add_recovery_record r s h =
      At-aside k n b s s.nodes s.restart_counter s.events _ s.service_locks s.locks_made h
        h.coherent.events (omega (arith, length-take {0}))

  pub At-reset_restart_counter :
      (i : String) (now : Time) (s : Store)
      → At k n b s
      → At k n b (Store.reset_restart_counter i now s)
  unfolding Store.reset_restart_counter
  At-reset_restart_counter i now s h =
      At-aside k n b s s.nodes _ s.events s.recovery_history s.service_locks s.locks_made h
        h.coherent.events h.coherent.history

  pub Keeps-increment_restart_counter :
      (i : String) (now : Time) → Keeps k n b (updates (Store.increment_restart_counter i now))
  unfolding Store.increment_restart_counter updates
  Keeps-increment_restart_counter i now = record {
    at = λ w h.
        At-aside k n b w.store w.store.nodes _ w.store.events w.store.recovery_history
          w.store.service_locks w.store.locks_made h h.coherent.events h.coherent.history;
  }

  pub Keeps-modify :
      (f : World → World) → ((w : World) → (f w).store ≡ w.store) → Keeps k n b (modify f)
  unfolding modify
  Keeps-modify f same = record { at = λ w h. subst (At k n b) (sym (same w)) h }

  module _ {A : Type 0} where
    -- An action that keeps what is known may come first or last.
    pub Ensures-last : (m : Action A) → Keeps k n b m → Ensures (At k n b) m (Safe k)
    Ensures-last m p = record { at = λ w h. forget (m w).1.store (p.at w h) }

    pub Ensures-first :
        {B : Type 0} (m : Action B) (f : B → Action A)
        → Keeps k n b m
        → ((a : B) → Ensures (At k n b) (f a) (Safe k))
        → Ensures (At k n b) (m >>= f) (Safe k)
    Ensures-first m f p q = Ensures-bind (At k n b) m f forget p q

    -- The observed state of `k` that is read has the name `k` and a generation that is reached.
    pub Ensures-read_observed :
        (f : Option ServiceObservedState → Action A)
        → Ensures (At k n b) (f none) (Safe k)
        → ((o : ServiceObservedState)
            → o.service_id ≡ k
            → Ensures (At k (max n o.service_generation) b) (f (some o)) (Safe k))
        → Ensures (At k n b) (reads (Store.get_service_observed k) >>= f) (Safe k)
    unfolding ◌>>=◌ Store.get_service_observed
    Ensures-read_observed f p q = record {
      at = λ w h. elim (Option-cases (get w.store.observed k)) [
        | inl e ↦ rw e (p.at w h)
        | inr (o, e) ↦ rw e (
            (q o ((h.coherent.service k).observed_named o e)).at w (record {
              coherent = h.coherent;
              reached = omega (arith, h.reached, (h.coherent.service k).fresh o e);
              known_placed = h.known_placed;
            }))
      ];
    }

    pub Ensures-read_placement :
        (f : Option Placement → Action A)
        → Ensures (At k n b) (f none) (Safe k)
        → ((p : Placement) → p.service_id ≡ k → Ensures (At k n true) (f (some p)) (Safe k))
        → Ensures (At k n b) (reads (Store.get_placement k) >>= f) (Safe k)
    unfolding ◌>>=◌ Store.get_placement
    Ensures-read_placement f p q = record {
      at = λ w h. elim (Option-cases (get w.store.placement k)) [
        | inl e ↦ rw e (p.at w h)
        | inr (o, e) ↦ rw e (
            (q o ((h.coherent.service k).placement_named o e)).at w
              (record { coherent = h.coherent; reached = h.reached; known_placed = λ _. rw e }))
      ];
    }

    pub Ensures-read_desired :
        (f : Option ServiceDesiredState → Action A)
        → Ensures (At k n b) (f none) (Safe k)
        → ((d : ServiceDesiredState)
            → d.service.service_id ≡ k
            → Ensures (At k n b) (f (some d)) (Safe k))
        → Ensures (At k n b) (reads (Store.get_service_desired k) >>= f) (Safe k)
    unfolding ◌>>=◌ Store.get_service_desired
    Ensures-read_desired f p q = record {
      at = λ w h. elim (Option-cases (get w.store.desired k)) [
        | inl e ↦ rw e (p.at w h)
        | inr (d, e) ↦ rw e ((q d ((h.coherent.service k).desired_named d e)).at w h)
      ];
    }

    pub Ensures-increment_generation :
        (f : ℕ → Action A)
        → ((g : ℕ) → Ensures (At k g b) (f g) (Safe k))
        → Ensures (At k n b) (updates (Store.increment_service_generation k) >>= f) (Safe k)
    unfolding ◌>>=◌
    Ensures-increment_generation f p = record {
      at = λ w h.
          (p (Store.increment_service_generation k w.store).1).at _
            (At-increment_service_generation k n b w.store h);
    }

    -- A service that is observed not to run may lose its placement.
    pub Ensures-observe_and_clear :
        (o : ServiceObservedState) (f : None → Action A)
        → o.service_id ≡ k
        → o.service_generation ≤ n
        → is_running o.status ≡ false
        → ((a : None) → Ensures (At k n false) (f a) (Safe k))
        → Ensures
            (At k n b)
            (writes (Store.set_service_observed o) >>= λ _. writes (Store.clear_placement k) >>= f)
            (Safe k)
    unfolding ◌>>=◌
    Ensures-observe_and_clear o f named bound idle p = record {
      at = λ w h. (p tt).at _ (At-clear_placement k n b o w.store named bound idle h);
    }

  pub write_all-nil : (at : Option ℕ) → Ensures (At k n b) (write_all at []) (Safe k)
  unfolding write_all
  write_all-nil at = record { at = λ w h. forget w.store h }

module _ (k : String) (n : ℕ) (b c : Bool) where
  -- The first of several writes: it fails, or the others follow.
  write_all-cons :
      (f : Store → Store) (fs : List (Store → Store)) (at : Option ℕ)
      → ((s : Store) → At k n b s → At k n c (f s))
      → ((at : Option ℕ) → Ensures (At k n c) (write_all at fs) (Safe k))
      → Ensures (At k n b) (write_all at (f ∷ fs)) (Safe k)
  unfolding write_all
  write_all-cons f fs none p q = record { at = λ w h. (q none).at _ (p w.store h) }
  write_all-cons f fs (some zero) p q = record { at = λ w h. forget k n b w.store h }
  write_all-cons f fs (some (suc i)) p q = record { at = λ w h. (q (some i)).at _ (p w.store h) }

module _ (k : String) (n : ℕ) (b : Bool) where
  pub write_all-keep :
      (f : Store → Store) (fs : List (Store → Store)) (at : Option ℕ)
      → ((s : Store) → At k n b s → At k n b (f s))
      → ((at : Option ℕ) → Ensures (At k n b) (write_all at fs) (Safe k))
      → Ensures (At k n b) (write_all at (f ∷ fs)) (Safe k)
  write_all-keep = write_all-cons k n b b

  pub write_all-place :
      (p : Placement) (fs : List (Store → Store)) (at : Option ℕ)
      → p.service_id ≡ k
      → ((at : Option ℕ) → Ensures (At k n true) (write_all at fs) (Safe k))
      → Ensures (At k n b) (write_all at (Store.set_placement p ∷ fs)) (Safe k)
  write_all-place p fs at named =
      write_all-cons k n b true (Store.set_placement p) fs at λ s. At-set_placement k n b p s named

  -- What is known may be forgotten before an action.
  pub Ensures-weaken :
      {A : Type 0} (m : Action A) → Ensures (Safe k) m (Safe k) → Ensures (At k n b) m (Safe k)
  Ensures-weaken m p = record { at = λ w h. p.at w (forget k n b w.store h) }

  -- Two parts that keep what is known.
  pub Keeps-bind :
      {A B : Type 0} (m : Action A) (f : A → Action B)
      → Keeps k n b m
      → ((a : A) → Keeps k n b (f a))
      → Keeps k n b (m >>= f)
  Keeps-bind m f = Ensures-bind (At k n b) m f (λ s h. h)

  pub Keeps-list_nodes : Keeps k n b (reads Store.list_nodes)
  Keeps-list_nodes = Keeps-reads k n b Store.list_nodes

after_group :
    (k : String) (rollback : Action None)
    → Keeps k 0 false rollback
    → (r : Result None) (w : World) → Safe k w.store
    → Safe k
        (elim r as (λ _. Result None × World) [
          | returned a ↦ (returned a, w)
          | raised e ↦ (rollback >> raise e) w
        ]).1.store
after_group k rollback p (returned a) w h = h
after_group k rollback p (raised e) w h =
    (Ensures-bind (Safe k) rollback (λ _. raise e) (λ s g. g) p
        (λ _. Ensures-raise e (λ s g. g))).at
      w h

-- Writes that are rolled back at the agent if one fails, and what follows.
pub Ensures-roll_back :
    {A : Type 0} (k : String) (n : ℕ) (b : Bool) (m rollback : Action None) (f : None → Action A)
    → Ensures (At k n b) m (Safe k)
    → Keeps k 0 false rollback
    → ((a : None) → Ensures (Safe k) (f a) (Safe k))
    → Ensures (At k n b) (roll_back m rollback >>= f) (Safe k)
unfolding roll_back
Ensures-roll_back k n b m rollback f p r q =
    Ensures-bind (Safe k) (roll_back m rollback) f (λ s h. h)
      (record { at = λ w h. let (x, w') = m w in after_group k rollback r x w' (p.at w h) }) q

pub Keeps-stop_quietly :
    (k : String) (n : ℕ) (b : Bool) (env : Env) (agent_url service_id : String)
    → Keeps k n b (stop_quietly env agent_url service_id)
unfolding stop_quietly
Keeps-stop_quietly k n b env agent_url service_id =
    Ensures-bind (At k n b) _ _ (λ s h. h) (Keeps-request k n b _ _)
      (λ _. Ensures-pure tt (λ s h. h))

pub zero-le : (n : ℕ) → 0 ≤ n
zero-le n = omega arith

pub le-max_left : (m n : ℕ) → m ≤ max m n
le-max_left m n = omega arith

pub le-max_right : (m n : ℕ) → n ≤ max m n
le-max_right m n = omega arith

pub le_self : (n : ℕ) → n ≤ n
le_self n = omega arith

pub ruleset bounds = (zero-le, le-max_left, le-max_right, le_self, refl)

-- For an action that keeps what is known.
pub ruleset keeps_rules = (
  Keeps-writes, Keeps-list_nodes, Keeps-gets, Keeps-request, Keeps-append_event, Keeps-sync_ingress,
  Keeps-increment_restart_counter, Keeps-stop_quietly, At-set_service_observed,
  At-set_service_desired, At-set_pending_deployment, At-pop_pending_deployment,
  At-add_recovery_record, At-reset_restart_counter, forget,
)

-- For an action that ends in a coherent store.
pub ruleset ends_rules = (
  Ensures-pure, Ensures-raise, Ensures-if, Ensures-on_some, Ensures-on_none, Ensures-on_option,
  Ensures-on_reply, Ensures-read_observed, Ensures-read_placement, Ensures-read_desired,
  Ensures-increment_generation, Ensures-observe_and_clear, Ensures-roll_back, Ensures-first,
  Ensures-last, write_all-place, write_all-keep, write_all-nil,
)

-- For a part of an action.
pub ruleset part_rules = (
  keeps_rules, bounds, Keeps-bind, Ensures-pure, Ensures-if, Ensures-on_some, Ensures-on_none,
  Ensures-on_option, Ensures-on_reply,
)

pub ruleset coherence_rules = (ends_rules, keeps_rules, bounds)
