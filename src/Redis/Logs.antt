-- ===== src/Redis/Logs.antt =====
-- `RedisStateStore` of controller/state_store.py: the recovery history and the event log.
use orchestrator_thesis.Prelude.{ℕ, ◌-◌, String, Option, some, List, [], ◌∷◌}
use orchestrator_thesis.Models.{Time, RecoveryRecord, EventRecord, EventType, Detail}
use orchestrator_thesis.Redis.{RedisEnv, Codec, Command, key, ask, trying, load_each}
use orchestrator_thesis.Effect.{pure, ◌>>=◌, ◌>>◌}

abbrev pub all_some : List String → List (Option String)
all_some [] = []
all_some (raw ∷ raws) = some raw ∷ all_some raws

module _ {R : Type 0} (env : RedisEnv R) where
  -- `lpush` and `ltrim` on a bounded log
  unfoldable pub push_log : String → String → String → Command R (Unit {0})
  unfolding ask trying
  push_log log raw message = trying message (
      ask (env.redis.lpush (key env log) raw)
      >> ask (env.redis.ltrim (key env log) 0 (env.event_log_max_items - 1)))

  -- `lrange` of a log: with a limit of 0 it still reads one.
  unfoldable pub read_log : {A : Type 0} → Codec A → String → ℕ → String → Command R (List A)
  unfolding ask trying load_each
  read_log codec log limit message = do
    raws ← trying message (ask (env.redis.lrange (key env log) 0 (limit - 1)))
    load_each codec (all_some raws)

  unfoldable pub add_recovery_record : RecoveryRecord → Command R (Unit {0})
  unfolding push_log
  add_recovery_record record_ =
      push_log "recovery_history" (env.recovery_codec.dump record_)
        "Failed to append recovery record"

  unfoldable pub list_recovery_records : ℕ → Command R (List RecoveryRecord)
  unfolding read_log
  list_recovery_records limit =
      read_log env.recovery_codec "recovery_history" limit "Failed to list recovery records"

  -- `append_event`, the id drawn and the clock being arguments.
  unfoldable pub append_event :
      String → Time → EventType → String → List (String × Detail) → Command R EventRecord
  unfolding push_log
  append_event event_id now event_type message details = do
    let event : EventRecord = record {
      event_id = event_id;
      event_type = event_type;
      message = message;
      details = details;
      created_at = now;
    }
    push_log "events" (env.event_codec.dump event) "Failed to append event"
    pure event

  unfoldable pub list_events : ℕ → Command R (List EventRecord)
  unfolding read_log
  list_events limit = read_log env.event_codec "events" limit "Failed to list events"
