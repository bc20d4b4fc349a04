-- ===== src/Redis/Refinement.antt =====
-- `RedisStateStore` and `InMemoryStateStore` of controller/state_store.py, seen by a client that sets,
-- clears and gets the entries of services.
pub mod Entries
pub mod Texts
pub mod Simulation
use orchestrator_thesis.Prelude.{
  String, Bool, true, false, ◌≡◌, Option, none, some, List, [], ◌∷◌, ◌==◌, if◌then◌else◌,
}
use orchestrator_thesis.Table.{Table, get}
use orchestrator_thesis.Models.{
  ServiceDesiredState, ServiceObservedState, Placement, PendingDeployment,
}
use orchestrator_thesis.Store
use orchestrator_thesis.Store.{Store}
use orchestrator_thesis.Redis.{RedisEnv, RedisStateStore, Codec, Command, StoreFault}
use orchestrator_thesis.Redis.Keys.{Kind, desired, observed, placement, pending, entry_key}
use orchestrator_thesis.Redis.Services
use orchestrator_thesis.Effect.{Effect, Outcome, returned, pure, ◌>>=◌, ◌>>◌}
use orchestrator_thesis.Effect.Ends.{Ends}

-- A call of the client.
pub data Call : Type 0 where
  set_service_desired : ServiceDesiredState → Call
  get_service_desired : String → Call
  set_service_observed : ServiceObservedState → Call
  get_service_observed : String → Call
  set_placement : Placement → Call
  get_placement : String → Call
  clear_placement : String → Call
  set_pending_deployment : PendingDeployment → Call
  pop_pending_deployment : String → Call

-- What it gets.
pub data Answer : Type 0 where
  done : Answer
  got_desired : Option ServiceDesiredState → Answer
  got_observed : Option ServiceObservedState → Answer
  got_placement : Option Placement → Answer

-- The call of the in-memory store.
unfoldable pub in_memory : Call → Store → Answer × Store
in_memory (set_service_desired state) m = (done, Store.set_service_desired state m)
in_memory (get_service_desired id) m = (got_desired (Store.get_service_desired id m), m)
in_memory (set_service_observed state) m = (done, Store.set_service_observed state m)
in_memory (get_service_observed id) m = (got_observed (Store.get_service_observed id m), m)
in_memory (set_placement p) m = (done, Store.set_placement p m)
in_memory (get_placement id) m = (got_placement (Store.get_placement id m), m)
in_memory (clear_placement id) m = (done, Store.clear_placement id m)
in_memory (set_pending_deployment p) m = (done, Store.set_pending_deployment p m)
in_memory (pop_pending_deployment id) m = (done, Store.pop_pending_deployment id m)

unfoldable pub replay : List Call → Store → List Answer × Store
unfolding in_memory
replay [] m = ([], m)
replay (call ∷ calls) m =
    let (answer, m') = in_memory call m in
    let (answers, m'') = replay calls m' in (answer ∷ answers, m'')

module _ {R : Type 0} (env : RedisEnv R) where
  -- The call of the Redis store.
  unfoldable pub in_redis : Call → Command R Answer
  in_redis (set_service_desired state) = Services.set_service_desired env state >> pure done
  in_redis (get_service_desired id) = do
    entry ← Services.get_service_desired env id
    pure (got_desired entry)
  in_redis (set_service_observed state) = Services.set_service_observed env state >> pure done
  in_redis (get_service_observed id) = do
    entry ← Services.get_service_observed env id
    pure (got_observed entry)
  in_redis (set_placement p) = Services.set_placement env p >> pure done
  in_redis (get_placement id) = do entry ← Services.get_placement env id; pure (got_placement entry)
  in_redis (clear_placement id) = Services.clear_placement env id >> pure done
  in_redis (set_pending_deployment p) = Services.set_pending_deployment env p >> pure done
  in_redis (pop_pending_deployment id) = Services.pop_pending_deployment env id >> pure done

  unfoldable pub run : List Call → Command R (List Answer)
  unfolding in_redis
  run [] = pure []
  run (call ∷ calls) = do answer ← in_redis call; answers ← run calls; pure (answer ∷ answers)

-- Nothing is said of a failure.
abbrev pub Any : {S : Type 0} → StoreFault → S → Type 0
Any e s = Unit

abbrev pub updated : String → Option String → (String → Option String) → String → Option String
updated k o f j = if k == j then o else f j

-- `text r k` is the text that Redis has at a key. A command that succeeds does to it what Redis
-- documents; sets are kept apart from texts.
pub record IsFaithful {R : Type 0} (env : RedisEnv R) (text : R → String → Option String)
    : Type 0 where
  pub gets :
      (k : String) (r : R)
      → Ends (λ o r'. (o ≡ text r k) × (text r' ≡ text r)) Any (env.redis.get k) r
  pub sets :
      (k v : String) (r : R)
      → Ends (λ _ r'. text r' ≡ updated k (some v) (text r)) Any (env.redis.set k v) r
  pub deletes :
      (k : String) (r : R)
      → Ends (λ _ r'. text r' ≡ updated k none (text r)) Any (env.redis.delete k) r
  pub sadds : (k v : String) (r : R) → Ends (λ _ r'. text r' ≡ text r) Any (env.redis.sadd k v) r
  pub srems : (k v : String) (r : R) → Ends (λ _ r'. text r' ≡ text r) Any (env.redis.srem k v) r

abbrev pub dumped : {A : Type 0} → (A → String) → Option A → Option String
dumped dump none = none
dumped dump (some a) = some (dump a)

-- The text of an entry of the in-memory store.
abbrev pub text_of : {R : Type 0} → RedisEnv R → Store → Kind → String → Option String
text_of env m desired id = dumped env.desired_codec.dump (get m.desired id)
text_of env m observed id = dumped env.observed_codec.dump (get m.observed id)
text_of env m placement id = dumped env.placement_codec.dump (get m.placement id)
text_of env m pending id = dumped env.pending_codec.dump (get m.pending id)

-- The JSON form of a value gives it back.
abbrev pub Loads : {A : Type 0} → Codec A → A → Type 0
Loads codec a = codec.load (codec.dump a) ≡ returned a

-- That, for the value that a call sets, if it may be got later.
abbrev pub Sets : {R : Type 0} → RedisEnv R → Call → Type 0
Sets env (set_service_desired state) = Loads env.desired_codec state
Sets env (set_service_observed state) = Loads env.observed_codec state
Sets env (set_placement p) = Loads env.placement_codec p
Sets env _ = Unit

-- That, for all values of a table.
abbrev pub AllLoad : {A : Type 0} → Codec A → Table A → Type 0
AllLoad {A} codec d = (id : String) (a : A) → get d id ≡ some a → Loads codec a

-- That, for all values of the in-memory store that may be got.
pub record IsLoadable {R : Type 0} (env : RedisEnv R) (m : Store) : Type 0 where
  pub desired_loads : AllLoad env.desired_codec m.desired
  pub observed_loads : AllLoad env.observed_codec m.observed
  pub placement_loads : AllLoad env.placement_codec m.placement

-- Redis has the text of each entry of the in-memory store.
pub record Represents {R : Type 0} (env : RedisEnv R) (f : String → Option String) (m : Store)
    : Type 0 where
  pub at : (kind : Kind) (id : String) → f (entry_key env kind id) ≡ text_of env m kind id
  pub loadable : IsLoadable env m
