-- ===== src/Redis.antt =====
-- controller/state_store.py, `RedisStateStore`: what its methods share. Redis, on a state `R`, is a
-- parameter, and so is the JSON form of each model, which pydantic and json write and read.
pub mod Nodes
pub mod Heartbeat
pub mod Services
pub mod Logs
pub mod Keys
pub mod Refinement
use orchestrator_thesis.Prelude.{
  ℕ, ◌+◌, String, Bool, true, false, ◌≡◌, Option, none, some, List, [], ◌∷◌, ◌==◌, if◌then◌else◌,
}
use orchestrator_thesis.Decimal.{◌<>◌}
use orchestrator_thesis.Table.{Table, get, put, empty}
use orchestrator_thesis.Names.{sorted}
use orchestrator_thesis.Models.{
  Time, Fraction, NodeState, ServiceDesiredState, ServiceObservedState, Placement,
  PendingDeployment, RecoveryRecord, RestartCounter, EventRecord,
}
use orchestrator_thesis.Effect.{
  Outcome, returned, raised, Effect, pure, raise, gets, modify, ◌>>=◌, ◌>>◌,
}

-- What a method may raise: a `RedisError`, a `StateStoreError`, or the `ValueError` of a text that is
-- no JSON or does not fit the model.
pub data StoreFault : Type 0 where
  redis_error state_store_error value_error : String → StoreFault

pub record Redis (R : Type 0) : Type 0 where
  pub get : String → Effect StoreFault R (Option String)
  pub mget : List String → Effect StoreFault R (List (Option String))
  pub set : String → String → Effect StoreFault R (Unit {0})
  pub delete : String → Effect StoreFault R (Unit {0})
  pub incr : String → Effect StoreFault R ℕ
  pub sadd : String → String → Effect StoreFault R (Unit {0})
  pub srem : String → String → Effect StoreFault R (Unit {0})
  pub smembers : String → Effect StoreFault R (List String)
  pub lpush : String → String → Effect StoreFault R (Unit {0})
  pub ltrim : String → ℕ → ℕ → Effect StoreFault R (Unit {0})
  pub lrange : String → ℕ → ℕ → Effect StoreFault R (List String)

-- `model_dump_json` and `model_validate(self._from_json(raw))`
pub record Codec (A : Type 0) : Type 0 where
  pub dump : A → String
  pub load : String → Outcome StoreFault A

pub record RedisEnv (R : Type 0) : Type 0 where
  pub redis : Redis R
  pub prefix : String
  pub event_log_max_items : ℕ
  pub heartbeat_write_threshold : Time
  pub snapshot_change_threshold : Fraction
  -- `abs(x - y)`
  pub distance : Fraction → Fraction → Fraction
  pub node_codec : Codec NodeState
  pub desired_codec : Codec ServiceDesiredState
  pub observed_codec : Codec ServiceObservedState
  pub placement_codec : Codec Placement
  pub pending_codec : Codec PendingDeployment
  pub counter_codec : Codec RestartCounter
  pub recovery_codec : Codec RecoveryRecord
  pub event_codec : Codec EventRecord

-- Redis, and what the object keeps itself. A lock is the number with which it was made.
pub record RedisStateStore (R : Type 0) : Type 0 where
  pub server : R
  pub service_locks : Table ℕ
  pub locks_made : ℕ
  pub node_last_written : Table Time
  pub node_last_snapshot : Table (Fraction × Fraction)

abbrev pub Command : Type 0 → Type 0 → Type 0
Command R A = Effect StoreFault (RedisStateStore R) A

-- `_k`
abbrev pub key : {R : Type 0} → RedisEnv R → String → String
key env suffix = env.prefix <> ":" <> suffix

abbrev pub service_key : {R : Type 0} → RedisEnv R → String → String → String
service_key env service_id kind = key env ("service:" <> service_id <> ":" <> kind)

-- `except RedisError as exc: raise StateStoreError(message) from exc`
abbrev pub translated : {A : Type 0} → String → Outcome StoreFault A → Outcome StoreFault A
translated message (raised (redis_error reason)) = raised (state_store_error message)
translated message r = r

-- `if existing_raw`
abbrev pub non_empty : Option String → Option String
non_empty none = none
non_empty (some raw) = if raw == "" then none else some raw

abbrev pub keys_of : (String → String) → List String → List String
keys_of key_of [] = []
keys_of key_of (member ∷ members) = key_of member ∷ keys_of key_of members

module _ {R : Type 0} where
  -- `RedisStateStore.__init__`
  unfoldable pub new_redis_store : R → RedisStateStore R
  new_redis_store server = record {
    server = server;
    service_locks = empty;
    locks_made = 0;
    node_last_written = empty;
    node_last_snapshot = empty;
  }

  unfoldable pub acquire_service_lock : String → RedisStateStore R → RedisStateStore R × ℕ
  acquire_service_lock service_id s = elim (get s.service_locks service_id) [
    | some existing ↦ (s, existing)
    | none ↦ (
      record s {
        service_locks = put s.service_locks service_id s.locks_made;
        locks_made = s.locks_made + 1;
      },
      s.locks_made,
    )
  ]

  -- A command to the server.
  unfoldable pub ask : {A : Type 0} → Effect StoreFault R A → Command R A
  ask call s = let (r, server) = call s.server in (r, record s { server = server })

  -- The `try` of a method.
  unfoldable pub trying : {A : Type 0} → String → Command R A → Command R A
  trying message body s = let (r, s') = body s in (translated message r, s')

  unfoldable pub loaded : {A : Type 0} → Outcome StoreFault A → Command R A
  loaded (returned a) = pure a
  loaded (raised e) = raise e

  -- `if raw is None: return None`, else what `raw` stands for
  unfoldable pub load_entry : {A : Type 0} → Codec A → Option String → Command R (Option A)
  unfolding loaded
  load_entry codec none = pure none
  load_entry codec (some raw) = do entry ← loaded (codec.load raw); pure (some entry)

  -- The loop over the texts of a listing.
  unfoldable pub load_each : {A : Type 0} → Codec A → List (Option String) → Command R (List A)
  unfolding load_entry
  load_each codec [] = pure []
  load_each codec (raw ∷ raws) = do
    entry? ← load_entry codec raw
    entries ← load_each codec raws
    pure (elim entry? [ none ↦ entries | some entry ↦ entry ∷ entries ])

  -- A method that gets a key and reads its text.
  unfoldable pub get_entry :
      {A : Type 0} → RedisEnv R → Codec A → String → String → Command R (Option A)
  unfolding ask trying load_entry
  get_entry env codec entry_key message = do
    raw ← trying message (ask (env.redis.get entry_key))
    load_entry codec raw

  -- A method that sets a key, and adds a member to the set of such keys.
  unfoldable pub set_entry :
      RedisEnv R → String → String → String → String → String → Command R (Unit {0})
  unfolding ask trying
  set_entry env entry_key raw index member message =
      trying message
        (ask (env.redis.set entry_key raw) >> ask (env.redis.sadd (key env index) member))

  -- A method that deletes a key, and removes its member.
  unfoldable pub delete_entry :
      RedisEnv R → String → String → String → String → Command R (Unit {0})
  unfolding ask trying
  delete_entry env entry_key index member message =
      trying message
        (ask (env.redis.delete entry_key) >> ask (env.redis.srem (key env index) member))

  unfoldable pub fetch_all :
      RedisEnv R → (String → String) → List String → Command R (List (Option String))
  unfolding ask
  fetch_all env key_of [] = pure []
  fetch_all env key_of (member ∷ members) =
      ask (env.redis.mget (keys_of key_of (sorted (λ id. id) (member ∷ members))))

  -- A method that lists the entries of an index, in the order of their members.
  unfoldable pub list_entries :
      {A : Type 0} → RedisEnv R → Codec A → String → (String → String) → String → Command R (List A)
  unfolding ask trying fetch_all load_each
  list_entries env codec index key_of message = do
    raws ←
        trying message
          (do members ← ask (env.redis.smembers (key env index)); fetch_all env key_of members)
    load_each codec raws
