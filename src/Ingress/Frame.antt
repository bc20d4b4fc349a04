-- ===== src/Ingress/Frame.antt =====
-- What a synchronisation of the ingress can change at all: the upstream file, the list of requests,
-- the event log and the number of event ids drawn, and when it returns.
use orchestrator_thesis.Prelude.{
  ℕ, zero, suc, ◌+◌, ◌≤◌, ◌∷◌, String, ◌≡◌, refl, ap, ◌∙◌, ◌⊎◌, inl, inr, Bool, true, false, Option,
  none, some, List, arith, length, length-take, if◌then◌else◌,
}
use orchestrator_thesis.Models.{ServiceSpec, NodeState, EventRecord, EventType, Detail}
use orchestrator_thesis.Store
use orchestrator_thesis.Store.{Store}
use orchestrator_thesis.World.{
  on_option, on_reply, Env, Error, AgentDeployResponse, AgentLocalStateResponse, raise, World,
  Result, returned, raised, Call, Reply, answer, fault, append_event, Action, pure, reads, gets,
  request, ◌>>=◌,
}
use orchestrator_thesis.Ingress.{
  attempts, write_file, resolve_target, write_upstream_config, reload_and_log, sync_ingress,
}

-- The world with another upstream file, other requests and another event log.
abbrev pub outward : World → List Call → Option String → ℕ → List EventRecord → World
outward w calls file uuids events = record w {
  store = record w.store { events = events };
  upstream_file = file;
  calls = calls;
  uuids_drawn = uuids;
}

-- `w'` differs from `w` in these fields only, and its event log is as it was or within its bound.
pub record Outward (w w' : World) : Type 0 where
  pub calls : List Call
  pub file : Option String
  pub uuids : ℕ
  pub events : List EventRecord
  pub same : w' ≡ outward w calls file uuids events
  pub bounded : (events ≡ w.store.events) ⊎ (length events ≤ w.store.event_log_max_items)

Outward-refl : (w : World) → Outward w w
Outward-refl w = record {
  calls = w.calls;
  file = w.upstream_file;
  uuids = w.uuids_drawn;
  events = w.store.events;
  same = refl;
  bounded = inl refl;
}

pub Outward-trans : {u v w : World} → Outward u v → Outward v w → Outward u w
Outward-trans p q = record {
  calls = q.calls;
  file = q.file;
  uuids = q.uuids;
  events = q.events;
  same = cc;
  bounded = ground arith;
}

-- Nothing but an `AgentClientError` comes from the agents' client, and the upstream file can be read
-- and written.
pub record IsOrderly (env : Env) : Type 0 where
  pub deploys :
      (calls : List Call) (url : String) (s : ServiceSpec)
      → (r : Reply AgentDeployResponse) × (env.remote.deploy calls url s ≡ returned r)
  pub stops :
      (calls : List Call) (url id : String)
      → (r : Reply (Unit {0})) × (env.remote.stop calls url id ≡ returned r)
  pub tells :
      (calls : List Call) (url : String)
      → (r : Reply AgentLocalStateResponse) × (env.remote.get_local_state calls url ≡ returned r)
  pub readable : (w : World) → env.files.read_error w ≡ none
  pub writable : (w : World) → env.files.write_error w ≡ none

-- The action changes no more than that, whether it returns or raises, and it returns in orderly
-- surroundings.
pub record Quiet {A : Type 0} (env : Env) (m : Action A) : Type 0 where
  pub at : (w : World) → Outward w (m w).1
  pub returns : IsOrderly env → (w : World) → (a : A) × ((m w).0 ≡ returned a)

pub bind_returned :
    {A B : Type 0} (m : Action A) (f : A → Action B) {a : A} (w : World) {w' : World}
    → m w ≡ (returned a, w')
    → (m >>= f) w ≡ f a w'
unfolding ◌>>=◌
bind_returned {A} m f w e =
    ap (λ (r : Result A × World). elim r.0 [ returned a ↦ f a r.1 | raised x ↦ (raised x, r.1) ]) e

-- One more request.
Outward-call : (call : Call) (w : World) → Outward w (record w { calls = call ∷ w.calls })
Outward-call call w = record {
  calls = call ∷ w.calls;
  file = w.upstream_file;
  uuids = w.uuids_drawn;
  events = w.store.events;
  same = refl;
  bounded = inl refl;
}

-- Another upstream file.
Outward-file : (file : Option String) (w : World) → Outward w (record w { upstream_file = file })
Outward-file file w = record {
  calls = w.calls;
  file = file;
  uuids = w.uuids_drawn;
  events = w.store.events;
  same = refl;
  bounded = inl refl;
}

module _ (env : Env) where
  module _ {A : Type 0} where
    pub Quiet-pure : (a : A) → Quiet env (pure a)
    unfolding pure
    Quiet-pure a = record { at = Outward-refl; returns = λ o w. (a, refl) }

    pub Quiet-reads : (f : Store → A) → Quiet env (reads f)
    unfolding reads
    Quiet-reads f = record { at = Outward-refl; returns = λ o w. (f w.store, refl) }

    pub Quiet-gets : (f : World → A) → Quiet env (gets f)
    unfolding gets
    Quiet-gets f = record { at = Outward-refl; returns = λ o w. (f w, refl) }

    pub Quiet-if :
        (b : Bool) (m n : Action A) → Quiet env m → Quiet env n → Quiet env (if b then m else n)
    Quiet-if true m n p q = p
    Quiet-if false m n p q = q

    Quiet-request :
        (ask : List Call → Result (Reply A)) (call : Call)
        → (IsOrderly env → (calls : List Call) → (r : Reply A) × (ask calls ≡ returned r))
        → Quiet env (request ask call)
    unfolding request
    Quiet-request ask call answers = record {
      at = Outward-call call;
      returns = λ o w. answers o w.calls;
    }

  pub Quiet-stop :
      (url id : String) (call : Call)
      → Quiet env (request (λ calls. env.remote.stop calls url id) call)
  Quiet-stop url id call = Quiet-request _ call (λ o calls. o.stops calls url id)

  pub Quiet-get_local_state :
      (url : String) (call : Call)
      → Quiet env (request (λ calls. env.remote.get_local_state calls url) call)
  Quiet-get_local_state url call = Quiet-request _ call (λ o calls. o.tells calls url)

  pub Quiet-reload_nginx :
      (call : Call) → Quiet env (request (λ calls. returned (env.remote.reload_nginx calls)) call)
  Quiet-reload_nginx call = Quiet-request _ call (λ o calls. (env.remote.reload_nginx calls, refl))

  module _ {A B : Type 0} where
    pub Quiet-option :
        (o : Option A) (f : Action B) (g : A → Action B)
        → Quiet env f
        → ((a : A) → Quiet env (g a))
        → Quiet env (on_option o f g)
    unfolding on_option
    Quiet-option none f g p q = p
    Quiet-option (some a) f g p q = q a

    pub Quiet-reply :
        (r : Reply A) (f : String → Action B) (g : A → Action B)
        → ((message : String) → Quiet env (f message))
        → ((a : A) → Quiet env (g a))
        → Quiet env (on_reply r f g)
    unfolding on_reply
    Quiet-reply (fault message) f g p q = p message
    Quiet-reply (answer a) f g p q = q a

    follow_Outward :
        (f : A → Action B) (w w' : World) (r : Result A)
        → Outward w w'
        → ((a : A) → Quiet env (f a))
        → Outward w
            (elim r as (λ _. Result B × World) [
              | returned a ↦ f a w'
              | raised e ↦ (raised e, w')
            ]).1
    follow_Outward f w w' (returned a) o q = Outward-trans o ((q a).at w')
    follow_Outward f w w' (raised e) o q = o

    pub Quiet-bind :
        (m : Action A) (f : A → Action B)
        → Quiet env m
        → ((a : A) → Quiet env (f a))
        → Quiet env (m >>= f)
    unfolding ◌>>=◌
    Quiet-bind m f p q = record {
      at = λ w. follow_Outward f w (m w).1 (m w).0 (p.at w) q;
      returns = λ o w.
          let (a, e) = p.returns o w in
          let (b, e') = (q a).returns o (m w).1 in
          (b, ap (λ r. r.0) (bind_returned m f w (ap (λ r. (r, (m w).1)) e)) ∙ e');
    }

  pub Quiet-append_event :
      (t : EventType) (message : String) (details : List (String × Detail))
      → Quiet env (append_event env t message details)
  unfolding append_event Store.append_event
  Quiet-append_event t message details = record {
    at = λ w. record {
      calls = w.calls;
      file = w.upstream_file;
      uuids = w.uuids_drawn + 1;
      events = _;
      same = refl;
      bounded = inr (omega (arith, length-take {0}));
    };
    returns = λ o w. (tt, refl);
  }

pub ruleset quiet_rules = (
  Quiet-pure, Quiet-reads, Quiet-gets, Quiet-stop, Quiet-get_local_state, Quiet-reload_nginx,
  Quiet-if, Quiet-bind, Quiet-option, Quiet-reply, Quiet-append_event,
)

attempts-Quiet :
    (left : ℕ) (read : Bool) (env : Env) (service_id : String) (node : NodeState)
    → Quiet env (attempts left read env service_id node)
unfolding attempts
attempts-Quiet zero read env service_id node = Quiet-pure env _
attempts-Quiet (suc left) read env service_id node =
    let again = λ (r : Bool). attempts-Quiet left r env service_id node in
    search (quiet_rules, again) depth 12

resolve_target-Quiet : (env : Env) (service_id : String) → Quiet env (resolve_target env service_id)
unfolding resolve_target
resolve_target-Quiet env service_id = search (quiet_rules, attempts-Quiet) depth 12

-- A write that may fail.
written-Outward :
    (content : String) (w : World) (failure? : Option (Error × Option String))
    → Outward w
        (elim failure? as (λ _. Result (Unit {0}) × World) [
          | none ↦ (returned tt, record w { upstream_file = some content })
          | some failure ↦ (raised failure.0, record w { upstream_file = failure.1 })
        ]).1
written-Outward content w none = Outward-file (some content) w
written-Outward content w (some failure) = Outward-file failure.1 w

write_file-Quiet : (env : Env) (content : String) → Quiet env (write_file env content)
unfolding write_file
write_file-Quiet env content = record {
  at = λ w. written-Outward content w (env.files.write_error w);
  returns = λ o w. (tt, rw (o.writable w, write_file) refl);
}

-- Reading the file, with what follows if that goes well.
read-Quiet :
    (env : Env) (m : Action Bool)
    → Quiet env m
    → Quiet env (gets env.files.read_error >>= λ failure?. on_option failure? m (λ e. raise e))
unfolding gets on_option raise ◌>>=◌
read-Quiet env m q = record {
  at = λ w. read_Outward w (env.files.read_error w);
  returns = λ o w. let (b, e) = q.returns o w in (b, rw (o.readable w) e);
}
  where
    read_Outward :
        (w : World) (failure? : Option Error) → Outward w (on_option failure? m (λ e. raise e) w).1
    read_Outward w none = q.at w
    read_Outward w (some e) = Outward-refl w

write_upstream_config-Quiet :
    (env : Env) (target : Option String) → Quiet env (write_upstream_config env target)
unfolding write_upstream_config
write_upstream_config-Quiet env target =
    read-Quiet env _ (search (quiet_rules, write_file-Quiet) depth 12)

reload_and_log-Quiet :
    (env : Env) (service_id reason : String) (target : Option String)
    → Quiet env (reload_and_log env service_id reason target)
unfolding reload_and_log
reload_and_log-Quiet env service_id reason target = search quiet_rules depth 12

-- A synchronisation of the ingress, whether it returns or raises, changes nothing but the upstream
-- file, the list of requests, the number of event ids drawn and the event log, which stays within its
-- bound if it changes. It returns if the agents' client raises nothing but `AgentClientError` and the
-- upstream file can be read and written.
pub sync_ingress-Quiet :
    (env : Env) (service_id reason : String) → Quiet env (sync_ingress env service_id reason)
unfolding sync_ingress
sync_ingress-Quiet env service_id reason =
    search (quiet_rules, resolve_target-Quiet, write_upstream_config-Quiet, reload_and_log-Quiet)
      depth 12
