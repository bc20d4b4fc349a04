-- ===== src/Redis/Refinement/Texts.antt =====
-- The texts of the in-memory store of controller/state_store.py after each of its writes.
use orchestrator_thesis.Prelude.{
  String, Bool, true, false, ◌≡◌, refl, Option, none, some, ◌==◌, if◌then◌else◌,
}
use orchestrator_thesis.Table.{get}
use orchestrator_thesis.Models.{
  ServiceDesiredState, ServiceObservedState, Placement, PendingDeployment,
}
use orchestrator_thesis.Store
use orchestrator_thesis.Store.{Store}
use orchestrator_thesis.Redis.{RedisEnv}
use orchestrator_thesis.Redis.Keys.{Kind, desired, observed, placement, pending, is_same}
use orchestrator_thesis.Redis.Refinement.{dumped, text_of}

dumped-if :
    {A : Type 0} (dump : A → String) (b : Bool) (o o' : Option A)
    → dumped dump (if b then o else o') ≡ (if b then dumped dump o else dumped dump o')
dumped-if dump true o o' = refl
dumped-if dump false o o' = refl

module _ {R : Type 0} (env : RedisEnv R) (m : Store) where
  pub text_of-set_service_desired :
      (state : ServiceDesiredState) (k : Kind) (i : String)
      → text_of env (Store.set_service_desired state m) k i ≡ (
          if is_same desired state.service.service_id k i
          then some (env.desired_codec.dump state)
          else text_of env m k i)
  unfolding Store.set_service_desired
  text_of-set_service_desired state desired i =
      dumped-if env.desired_codec.dump (state.service.service_id == i) (some state)
        (get m.desired i)
  text_of-set_service_desired state observed i = refl
  text_of-set_service_desired state placement i = refl
  text_of-set_service_desired state pending i = refl

  pub text_of-set_service_observed :
      (state : ServiceObservedState) (k : Kind) (i : String)
      → text_of env (Store.set_service_observed state m) k i ≡ (
          if is_same observed state.service_id k i
          then some (env.observed_codec.dump state)
          else text_of env m k i)
  unfolding Store.set_service_observed
  text_of-set_service_observed state desired i = refl
  text_of-set_service_observed state observed i =
      dumped-if env.observed_codec.dump (state.service_id == i) (some state) (get m.observed i)
  text_of-set_service_observed state placement i = refl
  text_of-set_service_observed state pending i = refl

  pub text_of-set_placement :
      (p : Placement) (k : Kind) (i : String)
      → text_of env (Store.set_placement p m) k i ≡ (
          if is_same placement p.service_id k i
          then some (env.placement_codec.dump p)
          else text_of env m k i)
  unfolding Store.set_placement
  text_of-set_placement p desired i = refl
  text_of-set_placement p observed i = refl
  text_of-set_placement p placement i =
      dumped-if env.placement_codec.dump (p.service_id == i) (some p) (get m.placement i)
  text_of-set_placement p pending i = refl

  pub text_of-clear_placement :
      (id : String) (k : Kind) (i : String)
      → text_of env (Store.clear_placement id m) k i
        ≡ (if is_same placement id k i then none else text_of env m k i)
  unfolding Store.clear_placement
  text_of-clear_placement id desired i = refl
  text_of-clear_placement id observed i = refl
  text_of-clear_placement id placement i =
      dumped-if env.placement_codec.dump (id == i) none (get m.placement i)
  text_of-clear_placement id pending i = refl

  pub text_of-set_pending_deployment :
      (p : PendingDeployment) (k : Kind) (i : String)
      → text_of env (Store.set_pending_deployment p m) k i ≡ (
          if is_same pending p.service_id k i
          then some (env.pending_codec.dump p)
          else text_of env m k i)
  unfolding Store.set_pending_deployment
  text_of-set_pending_deployment p desired i = refl
  text_of-set_pending_deployment p observed i = refl
  text_of-set_pending_deployment p placement i = refl
  text_of-set_pending_deployment p pending i =
      dumped-if env.pending_codec.dump (p.service_id == i) (some p) (get m.pending i)

  pub text_of-pop_pending_deployment :
      (id : String) (k : Kind) (i : String)
      → text_of env (Store.pop_pending_deployment id m) k i
        ≡ (if is_same pending id k i then none else text_of env m k i)
  unfolding Store.pop_pending_deployment
  text_of-pop_pending_deployment id desired i = refl
  text_of-pop_pending_deployment id observed i = refl
  text_of-pop_pending_deployment id placement i = refl
  text_of-pop_pending_deployment id pending i =
      dumped-if env.pending_codec.dump (id == i) none (get m.pending i)
