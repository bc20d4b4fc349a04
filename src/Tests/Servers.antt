-- ===== src/Tests/Servers.antt =====
-- The theorems on the Redis store, applied at a small server.
use orchestrator_thesis.Prelude.{
  ◌+◌, String, ◌≡◌, refl, Option, none, some, List, [], ◌∷◌, ◌==◌, if◌then◌else◌, keep, not, take,
  ltb, ◌-◌, ◌&&◌, ◌⊎◌,
}
use orchestrator_thesis.Table.{empty, put}
use orchestrator_thesis.Models.{Placement, seconds}
use orchestrator_thesis.Store.{new_store}
use orchestrator_thesis.Redis.{Redis, Codec, RedisEnv, RedisStateStore, StoreFault, value_error}
use orchestrator_thesis.Redis.Keys.{Kind, desired, observed, placement, pending}
use orchestrator_thesis.Redis.Services
use orchestrator_thesis.Redis.Refinement.{
  Call, set_placement, get_placement, clear_placement, Answer, done, got_placement, replay, run,
  IsFaithful, text_of, Represents, Any,
}
use orchestrator_thesis.Redis.Refinement.Simulation.{run_refines}
use orchestrator_thesis.Effect.{returned, raised, ◌>>=◌}
use orchestrator_thesis.Models.{NodeState, NodeStatus, is_healthy}
use orchestrator_thesis.Redis.Nodes.{upsert_node_heartbeat}
use orchestrator_thesis.Redis.Heartbeat.{IsBeaten, IsSkipped, upsert_node_heartbeat-IsBeaten}
use orchestrator_thesis.Effect.Ends.{Ends}
use orchestrator_thesis.Tests.{node_of}

-- Texts, members of sets and entries of lists, each with its key.
record Server : Type 0 where
  texts : String → Option String
  sets : List (String × String)
  lists : List (String × String)

abbrev of_key : String → List (String × String) → List String
of_key k [] = []
of_key k (entry ∷ entries) =
    let rest = of_key k entries in if entry.0 == k then entry.1 ∷ rest else rest

abbrev all_texts : Server → List String → List (Option String)
all_texts s [] = []
all_texts s (k ∷ ks) = s.texts k ∷ all_texts s ks

abbrev redis : Redis Server
redis = record {
  get = λ k s. (returned (s.texts k), s);
  mget = λ ks s. (returned (all_texts s ks), s);
  set = λ k v s. (returned tt, record s { texts = λ j. if k == j then some v else s.texts j });
  delete = λ k s. (returned tt, record s { texts = λ j. if k == j then none else s.texts j });
  incr = λ k s. (raised (StoreFault.redis_error "not supported"), s);
  sadd = λ k v s. (returned tt, record s { sets = (k, v) ∷ s.sets });
  srem = λ k v s. (
    returned tt,
    record s { sets = keep (λ (e : String × String). not (e.0 == k && e.1 == v)) s.sets },
  );
  smembers = λ k s. (returned (of_key k s.sets), s);
  lpush = λ k v s. (returned tt, record s { lists = (k, v) ∷ s.lists });
  ltrim = λ k first last s. (returned tt, s);
  lrange = λ k first last s. (returned (take (last + 1) (of_key k s.lists)), s);
}

abbrev web_placement : Placement
web_placement = record { service_id = "web"; node_id = "n1"; placed_at = 90_000_000 }

-- A codec of one value.
abbrev codec_of : {A : Type 0} → A → String → Codec A
codec_of a form = record {
  dump = λ b. form;
  load = λ raw. if raw == form then returned a else raised (value_error raw);
}

abbrev unread : {A : Type 0} → Codec A
unread = record { dump = λ a. "?"; load = λ raw. raised (value_error raw) }

-- Two texts, which tell whether "n1" is healthy.
abbrev node_codec : Codec NodeState
node_codec = record {
  dump = λ n. if is_healthy n.status then "n1" else "n1 unavailable";
  load = λ raw.
      if raw == "n1"
      then returned (node_of "n1" 100_000)
      else if raw == "n1 unavailable"
      then returned (record (node_of "n1" 100_000) { status = NodeStatus.unavailable })
      else raised (value_error raw);
}

abbrev redis_env : RedisEnv Server
redis_env = record {
  redis = redis;
  prefix = "orchestrator";
  event_log_max_items = 200;
  heartbeat_write_threshold = seconds 10;
  snapshot_change_threshold = 50;
  distance = λ a b. if ltb a b then b - a else a - b;
  node_codec = node_codec;
  desired_codec = unread;
  observed_codec = unread;
  placement_codec = codec_of web_placement "web on n1";
  pending_codec = unread;
  counter_codec = unread;
  recovery_codec = unread;
  event_codec = unread;
}

abbrev redis_store : RedisStateStore Server
redis_store = record {
  server = record { texts = λ k. none; sets = []; lists = [] };
  service_locks = empty;
  locks_made = 0;
  node_last_written = put empty "n1" 90_000_000;
  node_last_snapshot = empty;
}

redis-IsFaithful : IsFaithful redis_env (λ (s : Server). s.texts)
redis-IsFaithful = record {
  gets = λ k r. record { at = (refl, refl) };
  sets = λ k v r. record { at = refl };
  deletes = λ k r. record { at = refl };
  sadds = λ k v r. record { at = refl };
  srems = λ k v r. record { at = refl };
}

abbrev calls : List Call
calls =
    set_placement web_placement
    ∷ get_placement "web"
    ∷ clear_placement "web"
    ∷ get_placement "web"
    ∷ []

abbrev answers : List Answer
answers = done ∷ got_placement (some web_placement) ∷ done ∷ got_placement none ∷ []

no_text : (kind : Kind) (id : String) → none ≡ text_of redis_env (new_store 200) kind id
unfolding new_store
no_text desired id = refl
no_text observed id = refl
no_text placement id = refl
no_text pending id = refl

redis-Represents : Represents redis_env redis_store.server.texts (new_store 200)
unfolding new_store
redis-Represents = record {
  at = no_text;
  loadable = record {
    desired_loads = λ id a e. absurd (cc e);
    observed_loads = λ id a e. absurd (cc e);
    placement_loads = λ id a e. absurd (cc e);
  };
}

abbrev ran : RedisStateStore Server
ran = (run redis_env calls redis_store).1

runs : run redis_env calls redis_store ≡ (returned answers, ran)
unfolding run Services.set_placement Services.get_placement Services.clear_placement ◌>>=◌
runs = refl

run_refines_example :
    (answers ≡ (replay calls (new_store 200)).0)
    × Represents redis_env ran.server.texts (replay calls (new_store 200)).1
run_refines_example =
    run_refines redis_env (λ (s : Server). s.texts) redis-IsFaithful calls redis_store ran
      (new_store 200) answers (refl, (tt, (tt, (tt, tt)))) redis-Represents runs

-- "n1" was last written at 90 seconds, and is healthy.
abbrev known_server : RedisStateStore Server
known_server = record redis_store {
  server = record redis_store.server {
    texts = λ k. if k == "orchestrator:node:n1" then some "n1" else none;
  };
}

upsert_node_heartbeat-IsBeaten_example :
    Ends
      (λ _ s'.
        IsBeaten redis_env
          (λ (s : Server). s.texts)
          redis-IsFaithful
          "n1"
          "http://agent:9000"
          none
          101_000_000
          s'
        ⊎ IsSkipped redis_env
            (λ (s : Server). s.texts)
            redis-IsFaithful
            "n1"
            "http://agent:9000"
            none
            101_000_000
            known_server
            s')
      Any
      (upsert_node_heartbeat redis_env "n1" "http://agent:9000" none 101_000_000)
      known_server
upsert_node_heartbeat-IsBeaten_example =
    upsert_node_heartbeat-IsBeaten redis_env (λ (s : Server). s.texts) redis-IsFaithful "n1"
      "http://agent:9000" none 101_000_000 known_server
