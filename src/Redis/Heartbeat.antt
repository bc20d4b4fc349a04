-- ===== src/Redis/Heartbeat.antt =====
-- How heartbeats are coalesced by `RedisStateStore` of controller/state_store.py, and what Redis then
-- has of the node.
use orchestrator_thesis.Prelude.{
  ◌+◌, ◌<◌, String, ◌≡◌, refl, sym, ap, ◌∙◌, ◌⊎◌, inl, inr, true, false, Option, none, some, arith,
  eq_refl,
}
use orchestrator_thesis.Table.{get}
use orchestrator_thesis.Models.{Time, NodeState, NodeStatus}
use orchestrator_thesis.Address.{normalize_node_address}
use orchestrator_thesis.Redis.{RedisEnv, RedisStateStore, StoreFault}
use orchestrator_thesis.Redis.Nodes.{
  node_key, beaten_state, is_recent, is_coalesced, write_node, write_heartbeat,
  upsert_node_heartbeat,
}
use orchestrator_thesis.Redis.Refinement.{Any, IsFaithful, updated}
use orchestrator_thesis.Redis.Refinement.Entries.{Ends-map, Ends-ask, Ends-trying}
use orchestrator_thesis.Effect.{Effect, Outcome, returned, raised}
use orchestrator_thesis.Effect.Ends.{
  Ends, Comes, Ends-bind, Ends-gets, Ends-if, Ends-pure, Ends-modify,
}

any :
    {S A : Type 0} {Q : A → S → Type 0} (r : Outcome StoreFault A × S)
    → ((a : A) (s : S) → Q a s)
    → Comes Q Any r
any (returned a, s) h = h a s
any (raised e, s) h = tt

Ends-any :
    {S A : Type 0} {Q : A → S → Type 0} (m : Effect StoreFault S A) (s : S)
    → ((a : A) (s' : S) → Q a s')
    → Ends Q Any m s
Ends-any m s h = record { at = any (m s) h }

module _ {R : Type 0} (env : RedisEnv R) (text : R → String → Option String)
    (faithful : IsFaithful env text) (node_id : String) where
  abbrev k : String
  k = node_key env node_id

  -- Redis has this text for the node, and no heartbeat has been written meanwhile.
  abbrev pub Has : RedisStateStore R → NodeState → RedisStateStore R → Type 0
  Has s node s' =
      (text s'.server k ≡ some (env.node_codec.dump node))
      × (s'.node_last_written ≡ s.node_last_written)

  updated_at : (v : String) (f : String → Option String) → updated k (some v) f k ≡ some v
  updated_at v f = rw (eq_refl k) refl

  write_node-Has :
      (node : NodeState) (s : RedisStateStore R)
      → Ends (λ _ s'. Has s node s') Any (write_node env node_id node) s
  unfolding write_node
  write_node-Has node s = Ends-ask _ s _ (
      Ends-map _ _ _ _
        (λ _ r e. (ap (λ g. g k) e ∙ updated_at (env.node_codec.dump node) (text s.server), refl))
        (faithful.sets k (env.node_codec.dump node) s.server))

  module _ (agent_url : String) (node_address : Option String) (at : Time) where
    -- The heartbeat has been written: Redis has the text of the node, healthy, with its URL and the
    -- time of the heartbeat, which is also kept as that of the last write.
    pub record IsBeaten (s : RedisStateStore R) : Type 0 where
      pub node : NodeState
      pub stored : text s.server (node_key env node_id) ≡ some (env.node_codec.dump node)
      pub has_status : node.status ≡ NodeStatus.healthy
      pub has_url : node.agent_url ≡ agent_url
      pub has_time : node.last_heartbeat_at ≡ at
      pub written : get s.node_last_written node_id ≡ some at

    -- Less than the threshold after the last write, nothing has changed.
    pub record IsSkipped (s s' : RedisStateStore R) : Type 0 where
      pub last : Time
      pub known : get s.node_last_written node_id ≡ some last
      pub soon : at < last + env.heartbeat_write_threshold
      pub same : s' ≡ s

    near :
        (s : RedisStateStore R) (last? : Option Time)
        → get s.node_last_written node_id ≡ last?
        → is_recent env.heartbeat_write_threshold at last? ≡ true
        → IsSkipped s s
    unfolding is_recent
    near s none e h = absurd (cc h)
    near s (some last) e h = record {
      last = last;
      known = e;
      soon = ground (arith, h);
      same = refl;
    }

    coalesced_near :
        (last? : Option Time) (existing : Option NodeState)
        → is_coalesced env at last? existing ≡ true
        → is_recent env.heartbeat_write_threshold at last? ≡ true
    unfolding is_coalesced
    coalesced_near last? none h = absurd (cc h)
    coalesced_near last? (some existing) h = ground (arith, h)

    beaten :
        (address : Option String) (existing : Option NodeState) (s : RedisStateStore R)
        → text s.server k
          ≡ some (env.node_codec.dump (beaten_state node_id agent_url address at existing))
        → get s.node_last_written node_id ≡ some at
        → IsBeaten s
    beaten address none s e h = record {
      node = _;
      stored = e;
      has_status = refl;
      has_url = refl;
      has_time = refl;
      written = h;
    }
    beaten address (some existing) s e h = record {
      node = _;
      stored = e;
      has_status = refl;
      has_url = refl;
      has_time = refl;
      written = h;
    }

    write_heartbeat-IsBeaten :
        (last? : Option Time) (s : RedisStateStore R)
        → is_recent env.heartbeat_write_threshold at last? ≡ false
        → Ends
            (λ _ s'. IsBeaten s')
            Any
            (write_heartbeat env node_id agent_url node_address at last?)
            s
    unfolding write_heartbeat
    write_heartbeat-IsBeaten last? s old = Ends-bind _ _ s _ _ (
        Ends-any _ _ (λ existing s1.
          Ends-if _ _ s1 (is_coalesced env at last? existing) _ _
            (λ e. absurd (cc (sym old ∙ coalesced_near last? existing e)))
            (λ _. Ends-bind _ _ s1 _ _ (
              Ends-map _ _ _ _
                (λ _ s2 h. Ends-bind _ _ s2 _ _ (
                  Ends-ask _ s2 _ (
                    Ends-map _ _ _ _
                      (λ _ r e. Ends-modify _ _ _ _ (
                        beaten (normalize_node_address node_address) existing _
                          (ap (λ g. g k) e ∙ h.0) (rw (eq_refl node_id) refl)))
                      (faithful.sadds _ node_id s2.server))))
                (write_node-Has _ s1)))))

    -- A heartbeat that returns is written, whatever Redis had of the node before, or it is less than
    -- the threshold after the node's last write, and then nothing has changed.
    pub upsert_node_heartbeat-IsBeaten :
        (s : RedisStateStore R)
        → Ends
            (λ _ s'. IsBeaten s' ⊎ IsSkipped s s')
            Any
            (upsert_node_heartbeat env node_id agent_url node_address at)
            s
    unfolding upsert_node_heartbeat
    upsert_node_heartbeat-IsBeaten s = Ends-bind _ _ s _ _ (
        Ends-gets _ _ s _ (
          Ends-if _ _ s
            (is_recent env.heartbeat_write_threshold at (get s.node_last_written node_id)) _ _
            (λ e. Ends-pure _ _ _ _ (inr (near s _ refl e)))
            (λ e. Ends-trying _ s _ _ (
              Ends-map _ _ _ _ (λ _ s' h. inl h)
                (write_heartbeat-IsBeaten (get s.node_last_written node_id) s e)))))
