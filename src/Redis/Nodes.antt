-- ===== src/Redis/Nodes.antt =====
-- `RedisStateStore` of controller/state_store.py: the nodes, with its caches of what was written.
use orchestrator_thesis.Prelude.{
  ◌+◌, String, Bool, false, ◌&&◌, Option, none, some, or_else, List, ltb, if◌then◌else◌,
}
use orchestrator_thesis.Decimal.{◌<>◌}
use orchestrator_thesis.Table.{get, put}
use orchestrator_thesis.Address.{normalize_node_address}
use orchestrator_thesis.Models.{Time, Fraction, NodeState, NodeStatus, ResourceSnapshot, is_healthy}
use orchestrator_thesis.Redis.{
  RedisEnv, Command, state_store_error, key, non_empty, ask, trying, loaded, list_entries,
}
use orchestrator_thesis.Effect.{pure, raise, gets, modify, ◌>>=◌, ◌>>◌}

-- `last_written is not None and (timestamp - last_written) < self._heartbeat_write_threshold`
unfoldable pub is_recent : Time → Time → Option Time → Bool
is_recent threshold timestamp none = false
is_recent threshold timestamp (some last_written) = ltb timestamp (last_written + threshold)

-- The state that a heartbeat writes.
abbrev pub beaten_state : String → String → Option String → Time → Option NodeState → NodeState
beaten_state node_id agent_url incoming_address timestamp none = record {
  node_id = node_id;
  agent_url = agent_url;
  node_address = or_else incoming_address "unknown";
  status = NodeStatus.healthy;
  last_heartbeat_at = timestamp;
  last_resource_snapshot = none;
}
beaten_state node_id agent_url incoming_address timestamp (some existing) = record existing {
  agent_url = agent_url;
  node_address =
      or_else incoming_address
        (or_else (normalize_node_address (some existing.node_address)) "unknown");
  status = NodeStatus.healthy;
  last_heartbeat_at = timestamp;
}

-- Whether a snapshot is within the threshold of the one written last.
unfoldable pub is_unchanged :
    (Fraction → Fraction → Fraction)
    → Fraction
    → ResourceSnapshot
    → Option (Fraction × Fraction)
    → Bool
is_unchanged distance threshold snapshot none = false
is_unchanged distance threshold snapshot (some last) =
    ltb (distance snapshot.cpu_utilization last.0) threshold
    && ltb (distance snapshot.memory_utilization last.1) threshold

module _ {R : Type 0} where
  abbrev pub node_key : RedisEnv R → String → String
  node_key env node_id = key env ("node:" <> node_id)

  -- `existing_raw` and what it stands for, if it is there.
  unfoldable pub existing_node : RedisEnv R → String → Command R (Option NodeState)
  unfolding ask loaded
  existing_node env node_id = do
    raw ← ask (env.redis.get (node_key env node_id))
    elim (non_empty raw) [
      | none ↦ pure none
      | some existing_raw ↦ do
        existing ← loaded (env.node_codec.load existing_raw)
        pure (some existing)
    ]

  unfoldable pub write_node : RedisEnv R → String → NodeState → Command R (Unit {0})
  unfolding ask
  write_node env node_id state =
      ask (env.redis.set (node_key env node_id) (env.node_codec.dump state))

  -- The early return inside the `try` of `upsert_node_heartbeat`
  unfoldable pub is_coalesced : RedisEnv R → Time → Option Time → Option NodeState → Bool
  unfolding is_recent
  is_coalesced env timestamp last_written none = false
  is_coalesced env timestamp last_written (some existing) =
      is_healthy existing.status && is_recent env.heartbeat_write_threshold timestamp last_written

  -- `upsert_node_heartbeat`, past its first return
  unfoldable pub write_heartbeat :
      RedisEnv R → String → String → Option String → Time → Option Time → Command R (Unit {0})
  unfolding existing_node is_coalesced write_node ask
  write_heartbeat env node_id agent_url node_address timestamp last_written = do
    existing ← existing_node env node_id
    if is_coalesced env timestamp last_written existing then pure tt else do
      write_node env node_id
          (beaten_state node_id agent_url (normalize_node_address node_address) timestamp existing)
      ask (env.redis.sadd (key env "nodes") node_id)
      modify (λ s. record s { node_last_written = put s.node_last_written node_id timestamp })

  unfoldable pub upsert_node_heartbeat :
      RedisEnv R → String → String → Option String → Time → Command R (Unit {0})
  unfolding is_recent trying write_heartbeat
  upsert_node_heartbeat env node_id agent_url node_address timestamp = do
    last_written ← gets (λ s. get s.node_last_written node_id)
    if is_recent env.heartbeat_write_threshold timestamp last_written
        then pure tt
        else trying ("Failed to upsert heartbeat for node=" <> node_id)
            (write_heartbeat env node_id agent_url node_address timestamp last_written)

  -- `upsert_node_snapshot`, past its return
  unfoldable pub write_snapshot : RedisEnv R → String → ResourceSnapshot → Command R (Unit {0})
  unfolding existing_node write_node
  write_snapshot env node_id snapshot = do
    existing? ← existing_node env node_id
    elim existing? [
      | none ↦ raise (state_store_error ("Cannot update snapshot for unknown node=" <> node_id))
      | some existing ↦ do
        write_node env node_id (record existing { last_resource_snapshot = some snapshot })
        modify (λ s. record s {
          node_last_snapshot =
              put s.node_last_snapshot node_id
                (snapshot.cpu_utilization, snapshot.memory_utilization);
        })
    ]

  unfoldable pub upsert_node_snapshot :
      RedisEnv R → String → ResourceSnapshot → Command R (Unit {0})
  unfolding is_unchanged trying write_snapshot
  upsert_node_snapshot env node_id snapshot = do
    last ← gets (λ s. get s.node_last_snapshot node_id)
    if is_unchanged env.distance env.snapshot_change_threshold snapshot last
        then pure tt
        else trying ("Failed to upsert snapshot for node=" <> node_id)
            (write_snapshot env node_id snapshot)

  -- The body of the `try` of `mark_node_unavailable`
  unfoldable pub write_unavailable : RedisEnv R → String → Command R (Unit {0})
  unfolding existing_node write_node
  write_unavailable env node_id = do
    existing? ← existing_node env node_id
    elim existing? [
      | none ↦ pure tt
      | some existing ↦ write_node env node_id (record existing { status = NodeStatus.unavailable })
    ]

  unfoldable pub mark_node_unavailable : RedisEnv R → String → Command R (Unit {0})
  unfolding trying write_unavailable
  mark_node_unavailable env node_id =
      trying ("Failed to mark node unavailable node=" <> node_id) (write_unavailable env node_id)

  unfoldable pub list_nodes : RedisEnv R → Command R (List NodeState)
  unfolding list_entries
  list_nodes env = list_entries env env.node_codec "nodes" (node_key env) "Failed to list nodes"
