-- ===== src/World.antt =====
-- What a controller component runs in: the state that its calls share, the surroundings that are
-- not the controller's code, and the effects of a method as an action that may raise.
--
-- A method of ServiceManager or SelfHealingManager holds the lock of its service, so its body is
-- one action. The surroundings of one call are its clock reading, the answers of the agents to each
-- request (given the requests so far), the answer of nginx to a reload, the errors of the upstream
-- file's operations, the ids that uuid4 draws, and the position at which a store write inside a rolled-back group fails, if one does.
use orchestrator_thesis.Prelude.{ℕ, suc, zero, ◌+◌, String, Bool, Option, none, some, List, [], ◌∷◌}
use orchestrator_thesis.Table.{Table}
use orchestrator_thesis.Models.{Time, Fraction, NodeState, ServiceSpec, EventType, Detail}
use orchestrator_thesis.Scheduler.{ScheduleDecision}
use orchestrator_thesis.Store
use orchestrator_thesis.Store.{Store}

-- `ControllerSettings` from `health_check_retries` on
pub record ControllerSettings : Type 0 where
  pub health_check_retries : ℕ
  pub heartbeat_timeout_seconds : ℕ
  pub reconciliation_interval_seconds : ℕ
  pub agent_deploy_timeout_seconds : ℕ
  pub agent_command_timeout_seconds : ℕ
  pub agent_read_timeout_seconds : ℕ
  pub max_restart_attempts : ℕ
  pub cooldown_intervals_after_recovery : ℕ
  pub startup_grace_period_seconds : ℕ
  pub event_log_max_items : ℕ
  pub heartbeat_write_threshold_seconds : ℕ
  pub snapshot_change_threshold : Fraction
  pub ingress_enabled : Bool
  pub ingress_active_service_id : String
  pub ingress_upstream_file_path : String
  pub ingress_unavailable_target : String
  pub nginx_reload_enabled : Bool

-- `AgentDeployResponse`
pub record AgentDeployResponse : Type 0 where
  pub service_id : String
  pub container_id : String
  pub status : String
  pub node_id : Option String

-- `AgentWorkloadState`, the fields that are read
pub record AgentWorkloadState : Type 0 where
  pub service : ServiceSpec
  pub container_id : Option String
  pub published_port : Option ℕ
  pub container_ip : Option String
  pub status : String

-- `AgentLocalStateResponse`
pub record AgentLocalStateResponse : Type 0 where
  pub node_id : String
  pub node_address : String
  pub workloads : Table AgentWorkloadState

-- A request to an agent, or a reload of nginx.
pub data Call : Type 0 where
  deploy : String → ServiceSpec → Call
  stop restart : String → String → Call
  get_local_state : String → Call
  reload_nginx : Call

-- The exceptions that are told apart; `other_error` is one of another class.
pub data Error : Type 0 where
  agent_client_error value_error runtime_error state_store_error os_error other_error :
      String → Error

pub data Result (A : Type 0) : Type 0 where
  returned : A → Result A
  raised : Error → Result A

-- An answer, or the message of an `AgentClientError`, which the callers catch.
pub data Reply (A : Type 0) : Type 0 where
  answer : A → Reply A
  fault : String → Reply A

-- `AgentClient` with the agents behind it, and the nginx container. The client turns an
-- `httpx.HTTPError` into an `AgentClientError`, the reply `fault`; what else it raises, such as
-- `httpx.InvalidURL`, is `raised`. Any exception of a reload is caught.
pub record Remote : Type 0 where
  pub deploy : List Call → String → ServiceSpec → Result (Reply AgentDeployResponse)
  pub stop : List Call → String → String → Result (Reply (Unit {0}))
  pub restart : List Call → String → String → Result (Reply (Unit {0}))
  pub get_local_state : List Call → String → Result (Reply AgentLocalStateResponse)
  pub reload_nginx : List Call → Reply (Unit {0})

pub record World : Type 0 where
  pub store : Store
  -- `SelfHealingManager._cooldown_until` and `_active_recovery`
  pub cooldown_until : Table Time
  pub active_recovery : Table ℕ
  -- The upstream file of nginx, if it exists.
  pub upstream_file : Option String
  -- Requests made, the latest first, and the number of event ids drawn.
  pub calls : List Call
  pub uuids_drawn : ℕ

-- The file operations of the ingress in a world: the exception of making the directory or of reading
-- the file, and that of writing it with what it leaves there.
pub record Files : Type 0 where
  pub read_error : World → Option Error
  pub write_error : World → Option (Error × Option String)

pub record Env : Type 0 where
  pub settings : ControllerSettings
  pub scheduler : ServiceSpec → List NodeState → ScheduleDecision
  pub has_ingress : Bool
  pub now : Time
  pub uuid4 : ℕ → String
  pub remote : Remote
  pub files : Files
  pub write_fault : Option ℕ

abbrev pub Action : Type 0 → Type 0
Action A = World → Result A × World

abbrev pub None : Type 0
None = Unit

module _ {A : Type 0} where
  unfoldable pub pure : A → Action A
  pure a w = (returned a, w)

  unfoldable pub raise : Error → Action A
  raise e w = (raised e, w)

  -- A method of the store that only reads.
  unfoldable pub reads : (Store → A) → Action A
  reads f w = (returned (f w.store), w)

  -- What is not in the store is read as it stands.
  unfoldable pub gets : (World → A) → Action A
  gets f w = (returned (f w), w)

  -- A method of the store that writes and returns a value.
  unfoldable pub updates : (Store → Store × A) → Action A
  updates f w = let (s, a) = f w.store in (returned a, record w { store = s })

  -- `try: m finally: cleanup`
  unfoldable pub finally : Action A → (World → World) → Action A
  finally m cleanup w = let (r, w') = m w in (r, cleanup w')

-- A method of the store that only writes.
unfoldable pub writes : (Store → Store) → Action None
writes f w = (returned tt, record w { store = f w.store })

unfoldable pub modify : (World → World) → Action None
modify f w = (returned tt, f w)

-- `await self._agent_client.deploy(...)` and its like, with an `AgentClientError` as a value for
-- `except` and any other exception raised.
unfoldable pub request : {A : Type 0} → (List Call → Result (Reply A)) → Call → Action (Reply A)
request ask call w = (ask w.calls, record w { calls = call ∷ w.calls })

-- `a` without a value, and `f` of it where there is one
unfoldable pub on_option : {A B : Type 0} → Option A → Action B → (A → Action B) → Action B
on_option none a f = a
on_option (some v) a f = f v

-- `except` and what follows a normal answer
unfoldable pub on_reply : {A B : Type 0} → Reply A → (String → Action B) → (A → Action B) → Action B
on_reply (fault message) f g = f message
on_reply (answer a) f g = g a

infixl 5 ◌>>=◌ ◌>>◌
-- Opening this opens the actions above.
unfoldable pub ◌>>=◌ : {A B : Type 0} → Action A → (A → Action B) → Action B
unfolding pure raise reads gets updates finally writes modify request on_option on_reply
◌>>=◌ m f w = let (r, w') = m w in elim r [ returned a ↦ f a w' | raised e ↦ (raised e, w') ]

abbrev pub ◌>>◌ : {A B : Type 0} → Action A → Action B → Action B
m >> k = m >>= λ _. k

-- `store.append_event(...)`
unfoldable pub append_event : Env → EventType → String → List (String × Detail) → Action None
append_event env event_type message details w = (
  returned tt,
  record w {
    store =
        Store.append_event
          (record {
            event_id = env.uuid4 w.uuids_drawn;
            event_type = event_type;
            message = message;
            details = details;
            created_at = env.now;
          })
          w.store;
    uuids_drawn = w.uuids_drawn + 1;
  },
)

-- Store writes inside a `try` that rolls back: the one at position `write_fault`, counted from 0,
-- raises, and those after it are not made.
unfoldable pub write_all : Option ℕ → List (Store → Store) → Action None
write_all at [] w = (returned tt, w)
write_all (some zero) (f ∷ fs) w = (raised (Error.state_store_error "write failed"), w)
write_all (some (suc n)) (f ∷ fs) w = write_all (some n) fs (record w { store = f w.store })
write_all none (f ∷ fs) w = write_all none fs (record w { store = f w.store })
