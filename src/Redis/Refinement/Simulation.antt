-- ===== src/Redis/Refinement/Simulation.antt =====
-- The Redis store of controller/state_store.py refines its in-memory store.
use mathlib.Core.Path.{ap₂}
use orchestrator_thesis.Prelude.{
  All, if◌then◌else◌, String, ◌≡◌, refl, sym, ap, subst, Option, List, [], ◌∷◌,
}
use orchestrator_thesis.Table.{get}
use orchestrator_thesis.Store
use orchestrator_thesis.Store.{Store}
use orchestrator_thesis.Redis.{RedisEnv, RedisStateStore, Command}
use orchestrator_thesis.Redis.Keys.{Kind, is_same, entry_key, desired, observed, placement, pending}
use orchestrator_thesis.Redis.Services
use orchestrator_thesis.Redis.Refinement.{
  Call, set_service_desired, get_service_desired, set_service_observed, get_service_observed,
  set_placement, get_placement, clear_placement, set_pending_deployment, pop_pending_deployment,
  Answer, done, got_desired, got_observed, got_placement, in_memory, replay, in_redis, run, Any,
  updated, IsFaithful, text_of, IsLoadable, Sets, Represents,
}
use orchestrator_thesis.Redis.Refinement.Entries.{
  Ends-map, set_entry-updated, delete_entry-updated, get_entry-dumped, mutated,
  in_memory-IsLoadable,
}
use orchestrator_thesis.Redis.Refinement.Texts.{
  text_of-set_service_desired, text_of-set_service_observed, text_of-set_placement,
  text_of-clear_placement, text_of-set_pending_deployment, text_of-pop_pending_deployment,
}
use orchestrator_thesis.Effect.{returned, pure, ◌>>=◌, ◌>>◌}
use orchestrator_thesis.Effect.Ends.{Ends, Ends-bind, Ends-pure, Ends-returned}

module _ {R : Type 0} (env : RedisEnv R) (text : R → String → Option String)
    (faithful : IsFaithful env text) where
  -- A value that the in-memory store gives too, and a server that represents that store.
  Simulates : {A : Type 0} → A × Store → A → RedisStateStore R → Type 0
  Simulates (expected, m) a s = (a ≡ expected) × Represents env (text s.server) m

  wrote :
      (write : Command R (Unit {0})) (kind : Kind) (id : String) (o : Option String) (m m' : Store)
      (s : RedisStateStore R)
      → Ends
          (λ _ (s' : RedisStateStore R).
            text s'.server ≡ updated (entry_key env kind id) o (text s.server))
          Any
          write
          s
      → ((k : Kind) (i : String)
          → text_of env m' k i ≡ (if is_same kind id k i then o else text_of env m k i))
      → IsLoadable env m'
      → Represents env (text s.server) m
      → Ends (Simulates (done, m')) Any (write >> pure done) s
  unfolding Simulates
  wrote write kind id o m m' s ends texts loadable rep = Ends-bind _ _ s _ _ (
      Ends-map _ _ _ _
        (λ _ s' e. Ends-pure _ _ _ _ (
          refl,
          mutated env text faithful kind id o (text s.server) (text s'.server) m m' rep e texts
              loadable,
        ))
        ends)

  got :
      {A : Type 0} (read : Command R (Option A)) (answer : Option A → Answer) (o : Option A)
      (m : Store) (s : RedisStateStore R)
      → Ends
          (λ entry (s' : RedisStateStore R). (entry ≡ o) × (text s'.server ≡ text s.server))
          Any
          read
          s
      → Represents env (text s.server) m
      → Ends (Simulates (answer o, m)) Any (read >>= λ entry. pure (answer entry)) s
  unfolding Simulates
  got read answer o m s ends rep = Ends-bind _ _ s _ _ (
      Ends-map _ _ _ _
        (λ entry s' e.
          Ends-pure _ _ _ _ (ap answer e.0, subst (λ f. Represents env f m) (sym e.1) rep))
        ends)

  in_redis-Simulates :
      (call : Call) (s : RedisStateStore R) (m : Store)
      → Sets env call
      → Represents env (text s.server) m
      → Ends (Simulates (in_memory call m)) Any (in_redis env call) s
  unfolding in_redis in_memory Services.set_service_desired Services.get_service_desired
      Services.set_service_observed Services.get_service_observed Services.set_placement
      Services.get_placement Services.clear_placement Services.set_pending_deployment
      Services.pop_pending_deployment Store.get_service_desired Store.get_service_observed
      Store.get_placement
  in_redis-Simulates (set_service_desired state) s m h rep =
      wrote _ desired _ _ m _ s
        (set_entry-updated env text faithful _ _ "services" _ "Failed to set desired state" s)
        (text_of-set_service_desired env m state)
        (in_memory-IsLoadable env (set_service_desired state) m h rep.loadable) rep
  in_redis-Simulates (get_service_desired id) s m h rep =
      got _ got_desired _ m s
        (get_entry-dumped env text faithful env.desired_codec _ _ (get m.desired id) s
          (rep.loadable.desired_loads id) (rep.at desired id))
        rep
  in_redis-Simulates (set_service_observed state) s m h rep =
      wrote _ observed _ _ m _ s
        (set_entry-updated env text faithful _ _ "services" _ "Failed to set observed state" s)
        (text_of-set_service_observed env m state)
        (in_memory-IsLoadable env (set_service_observed state) m h rep.loadable) rep
  in_redis-Simulates (get_service_observed id) s m h rep =
      got _ got_observed _ m s
        (get_entry-dumped env text faithful env.observed_codec _ _ (get m.observed id) s
          (rep.loadable.observed_loads id) (rep.at observed id))
        rep
  in_redis-Simulates (set_placement p) s m h rep =
      wrote _ placement _ _ m _ s
        (set_entry-updated env text faithful _ _ "placements" _ "Failed to set placement" s)
        (text_of-set_placement env m p)
        (in_memory-IsLoadable env (set_placement p) m h rep.loadable) rep
  in_redis-Simulates (get_placement id) s m h rep =
      got _ got_placement _ m s
        (get_entry-dumped env text faithful env.placement_codec _ _ (get m.placement id) s
          (rep.loadable.placement_loads id) (rep.at placement id))
        rep
  in_redis-Simulates (clear_placement id) s m h rep =
      wrote _ placement _ _ m _ s
        (delete_entry-updated env text faithful _ "placements" _ "Failed to clear placement" s)
        (text_of-clear_placement env m id)
        (in_memory-IsLoadable env (clear_placement id) m h rep.loadable) rep
  in_redis-Simulates (set_pending_deployment p) s m h rep =
      wrote _ pending _ _ m _ s
        (set_entry-updated env text faithful _ _ "pending_services" _
          "Failed to set pending deployment" s)
        (text_of-set_pending_deployment env m p)
        (in_memory-IsLoadable env (set_pending_deployment p) m h rep.loadable) rep
  in_redis-Simulates (pop_pending_deployment id) s m h rep =
      wrote _ pending _ _ m _ s
        (delete_entry-updated env text faithful _ "pending_services" _
          "Failed to pop pending deployment" s)
        (text_of-pop_pending_deployment env m id)
        (in_memory-IsLoadable env (pop_pending_deployment id) m h rep.loadable) rep

  run-Simulates :
      (calls : List Call) (s : RedisStateStore R) (m : Store)
      → All (Sets env) calls
      → Represents env (text s.server) m
      → Ends (Simulates (replay calls m)) Any (run env calls) s
  unfolding run replay Simulates
  run-Simulates [] s m h rep = Ends-pure _ _ _ _ (refl, rep)
  run-Simulates (call ∷ calls) s m h rep = Ends-bind _ _ s _ _ (
      Ends-map _ _ _ _
        (λ answer s' e. Ends-bind _ _ s' _ _ (
          Ends-map _ _ _ _ (λ answers s'' e'. Ends-pure _ _ _ _ (ap₂ ◌∷◌ e.0 e'.0, e'.1))
            (run-Simulates calls s' (in_memory call m).1 h.1 e.1)))
        (in_redis-Simulates call s m h.0 rep))

  -- From a server that represents an in-memory store, any sequence of calls that set, get and clear
  -- entries of services, with values that their JSON forms give back, gets the answers that the
  -- in-memory store gives and leaves a server that represents it then, unless Redis fails.
  pub run_refines :
      (calls : List Call) (s s' : RedisStateStore R) (m : Store) (answers : List Answer)
      → All (Sets env) calls
      → Represents env (text s.server) m
      → run env calls s ≡ (returned answers, s')
      → (answers ≡ (replay calls m).0) × Represents env (text s'.server) (replay calls m).1
  unfolding Simulates
  run_refines calls s s' m answers h rep runs =
      Ends-returned (Simulates (replay calls m)) Any (run-Simulates calls s m h rep) runs
