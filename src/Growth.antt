-- ===== src/Growth.antt =====
-- The generation of a service never goes back: actions that keep a lower bound of it, one rule for
-- each way to build an action.
pub mod Manager
pub mod Healing
pub mod Reach
use orchestrator_thesis.Prelude.{
  ℕ, zero, suc, ◌+◌, ◌≤◌, String, ◌≡◌, refl, Bool, true, false, Option, none, some, List, [], ◌∷◌,
  arith, eq_iff, sym, subst, ◌==◌, or_else, if◌then◌else◌,
}
use orchestrator_thesis.Table.{get}
use orchestrator_thesis.Models.{
  Time, ServiceObservedState, ServiceDesiredState, Placement, PendingDeployment, RecoveryRecord,
  EventType, Detail,
}
use orchestrator_thesis.Store
use orchestrator_thesis.Store.{Store}
use orchestrator_thesis.World.{
  Env, World, Action, None, Result, returned, raised, Error, Call, Reply, pure, raise, reads, gets,
  updates, finally, writes, modify, request, append_event, write_all, ◌>>=◌, ◌>>◌,
}
use orchestrator_thesis.Ingress.{sync_ingress}
use orchestrator_thesis.Ingress.Frame.{Quiet, Outward, sync_ingress-Quiet}
use orchestrator_thesis.ServiceManager.{roll_back, stop_quietly}
use orchestrator_thesis.Coherence.{Ensures}
use orchestrator_thesis.Coherence.Steps.{
  Ensures-pure, Ensures-raise, Ensures-if, Ensures-finally, Ensures-on_option, Ensures-on_reply,
  Ensures-bind,
}

-- The generation of `j` is at least `n`.
pub record IsGrown (j : String) (n : ℕ) (s : Store) : Type 0 where
  pub least : n ≤ Store.get_service_generation j s

-- The action keeps that.
abbrev pub Grows : {A : Type 0} → String → ℕ → Action A → Type 0
Grows j n m = Ensures (IsGrown j n) m (IsGrown j n)

module _ (j : String) (n : ℕ) where
  -- A store with the same generations.
  pub same-IsGrown :
      (s s' : Store) → s'.service_generation ≡ s.service_generation → IsGrown j n s → IsGrown j n s'
  unfolding Store.get_service_generation
  same-IsGrown s s' e h = record { least = subst (λ t. n ≤ or_else (get t j) 0) (sym e) h.least }

  pub Grows-pure : {A : Type 0} (a : A) → Grows j n (pure a)
  Grows-pure a = Ensures-pure a (λ s h. h)

  pub Grows-raise : {A : Type 0} (e : Error) → Grows j n (raise {A = A} e)
  Grows-raise e = Ensures-raise e (λ s h. h)

  pub Grows-bind :
      {A B : Type 0} (m : Action A) (f : A → Action B)
      → Grows j n m
      → ((a : A) → Grows j n (f a))
      → Grows j n (m >>= f)
  Grows-bind m f p q = Ensures-bind (IsGrown j n) m f (λ s h. h) p q

  pub Grows-reads : {A : Type 0} (f : Store → A) → Grows j n (reads f)
  unfolding reads
  Grows-reads f = record { at = λ w h. h }

  pub Grows-gets : {A : Type 0} (f : World → A) → Grows j n (gets f)
  unfolding gets
  Grows-gets f = record { at = λ w h. h }

  pub Grows-request :
      {A : Type 0} (ask : List Call → Result (Reply A)) (call : Call) → Grows j n (request ask call)
  unfolding request
  Grows-request ask call = record { at = λ w h. h }

  pub Grows-writes :
      (f : Store → Store) → ((s : Store) → IsGrown j n s → IsGrown j n (f s)) → Grows j n (writes f)
  unfolding writes
  Grows-writes f p = record { at = λ w h. p w.store h }

  pub Grows-modify :
      (f : World → World) → ((w : World) → (f w).store ≡ w.store) → Grows j n (modify f)
  unfolding modify
  Grows-modify f same = record { at = λ w h. subst (IsGrown j n) (sym (same w)) h }

  pub Grows-append_event :
      (env : Env) (t : EventType) (message : String) (details : List (String × Detail))
      → Grows j n (append_event env t message details)
  unfolding append_event Store.append_event
  Grows-append_event env t message details = record { at = λ w h. same-IsGrown w.store _ refl h }

  pub Grows-increment_restart_counter :
      (i : String) (now : Time) → Grows j n (updates (Store.increment_restart_counter i now))
  unfolding updates Store.increment_restart_counter
  Grows-increment_restart_counter i now = record { at = λ w h. same-IsGrown w.store _ refl h }

  -- A new generation of any service.
  pub Grows-increment_service_generation :
      (i : String) → Grows j n (updates (Store.increment_service_generation i))
  unfolding updates Store.increment_service_generation
  Grows-increment_service_generation i = record {
    at = λ w h. record { least = ground (arith, h.least, eq_iff i j) };
  }

  pub Grows-sync_ingress : (env : Env) (id reason : String) → Grows j n (sync_ingress env id reason)
  Grows-sync_ingress env id reason = record {
    at = λ w h.
        let o = (sync_ingress-Quiet env id reason).at w in
        subst (λ (v : World). IsGrown j n v.store) (sym o.same) (same-IsGrown w.store _ refl h);
  }

  pub Grows-stop_quietly : (env : Env) (url id : String) → Grows j n (stop_quietly env url id)
  unfolding stop_quietly
  Grows-stop_quietly env url id = Grows-bind _ _ (Grows-request _ _) (λ _. Grows-pure tt)

  pub Grows-write_all-nil : (at : Option ℕ) → Grows j n (write_all at [])
  unfolding write_all
  Grows-write_all-nil at = record { at = λ w h. h }

  pub Grows-write_all-cons :
      (f : Store → Store) (fs : List (Store → Store)) (at : Option ℕ)
      → ((s : Store) → IsGrown j n s → IsGrown j n (f s))
      → ((at : Option ℕ) → Grows j n (write_all at fs))
      → Grows j n (write_all at (f ∷ fs))
  unfolding write_all
  Grows-write_all-cons f fs none p q = record { at = λ w h. (q none).at _ (p w.store h) }
  Grows-write_all-cons f fs (some zero) p q = record { at = λ w h. h }
  Grows-write_all-cons f fs (some (suc i)) p q = record {
    at = λ w h. (q (some i)).at _ (p w.store h);
  }

  after_group :
      (rollback : Action None)
      → Grows j n rollback
      → (r : Result None) (w : World) → IsGrown j n w.store
      → IsGrown j n
          (elim r as (λ _. Result None × World) [
            | returned a ↦ (returned a, w)
            | raised e ↦ (rollback >> raise e) w
          ]).1.store
  after_group rollback p (returned a) w h = h
  after_group rollback p (raised e) w h = (Grows-bind rollback _ p (λ _. Grows-raise e)).at w h

  pub Grows-roll_back :
      (m rollback : Action None)
      → Grows j n m
      → Grows j n rollback
      → Grows j n (roll_back m rollback)
  unfolding roll_back
  Grows-roll_back m rollback p q = record {
    at = λ w h. let (r, w') = m w in after_group rollback q r w' (p.at w h);
  }

  pub set_service_observed-IsGrown :
      (o : ServiceObservedState) (s : Store)
      → IsGrown j n s
      → IsGrown j n (Store.set_service_observed o s)
  unfolding Store.set_service_observed
  set_service_observed-IsGrown o s h = same-IsGrown s _ refl h

  pub set_service_desired-IsGrown :
      (d : ServiceDesiredState) (s : Store)
      → IsGrown j n s
      → IsGrown j n (Store.set_service_desired d s)
  unfolding Store.set_service_desired
  set_service_desired-IsGrown d s h = same-IsGrown s _ refl h

  pub set_placement-IsGrown :
      (p : Placement) (s : Store) → IsGrown j n s → IsGrown j n (Store.set_placement p s)
  unfolding Store.set_placement
  set_placement-IsGrown p s h = same-IsGrown s _ refl h

  pub clear_placement-IsGrown :
      (i : String) (s : Store) → IsGrown j n s → IsGrown j n (Store.clear_placement i s)
  unfolding Store.clear_placement
  clear_placement-IsGrown i s h = same-IsGrown s _ refl h

  pub set_pending_deployment-IsGrown :
      (p : PendingDeployment) (s : Store)
      → IsGrown j n s
      → IsGrown j n (Store.set_pending_deployment p s)
  unfolding Store.set_pending_deployment
  set_pending_deployment-IsGrown p s h = same-IsGrown s _ refl h

  pub pop_pending_deployment-IsGrown :
      (i : String) (s : Store) → IsGrown j n s → IsGrown j n (Store.pop_pending_deployment i s)
  unfolding Store.pop_pending_deployment
  pop_pending_deployment-IsGrown i s h = same-IsGrown s _ refl h

  pub reset_restart_counter-IsGrown :
      (i : String) (now : Time) (s : Store)
      → IsGrown j n s
      → IsGrown j n (Store.reset_restart_counter i now s)
  unfolding Store.reset_restart_counter
  reset_restart_counter-IsGrown i now s h = same-IsGrown s _ refl h

  pub add_recovery_record-IsGrown :
      (r : RecoveryRecord) (s : Store) → IsGrown j n s → IsGrown j n (Store.add_recovery_record r s)
  unfolding Store.add_recovery_record
  add_recovery_record-IsGrown r s h = same-IsGrown s _ refl h

pub ruleset grows_rules = (
  Grows-pure, Grows-raise, Grows-bind, Grows-reads, Grows-gets, Grows-request, Grows-writes,
  Grows-append_event, Grows-increment_restart_counter, Grows-increment_service_generation,
  Grows-sync_ingress, Grows-stop_quietly, Grows-write_all-nil, Grows-write_all-cons,
  Grows-roll_back, Ensures-if, Ensures-on_option, Ensures-on_reply, set_service_observed-IsGrown,
  set_service_desired-IsGrown, set_placement-IsGrown, clear_placement-IsGrown,
  set_pending_deployment-IsGrown, pop_pending_deployment-IsGrown, reset_restart_counter-IsGrown,
  add_recovery_record-IsGrown,
)
