-- ===== src/Redis/Refinement/Entries.antt =====
-- Each call that a client makes of the Redis store does what it does to the in-memory store.
use orchestrator_thesis.Prelude.{
  Bool-cases, inl, inr, arith, String, ◌≡◌, refl, sym, ap, ◌∙◌, subst, Option, none, some, ◌==◌,
  if◌then◌else◌,
}
use orchestrator_thesis.Table.{Table, put, pop}
use orchestrator_thesis.Store
use orchestrator_thesis.Store.{Store}
use orchestrator_thesis.Redis.{
  RedisEnv, RedisStateStore, Codec, Command, StoreFault, translated, ask, trying, loaded,
  load_entry, get_entry, set_entry, delete_entry,
}
use orchestrator_thesis.Redis.Keys.{Kind, entry_key, is_same, entry_key-is_same}
use orchestrator_thesis.Redis.Refinement.{
  Call, set_service_desired, get_service_desired, set_service_observed, get_service_observed,
  set_placement, get_placement, clear_placement, set_pending_deployment, pop_pending_deployment,
  in_memory, Any, Sets, updated, IsFaithful, dumped, text_of, Loads, AllLoad, IsLoadable,
  Represents,
}
use orchestrator_thesis.Effect.{Effect, Outcome, returned, raised, pure}
use orchestrator_thesis.Effect.Ends.{Ends, Comes, Ends-bind, Ends-pure}

Comes-map :
    {S A : Type 0} (Q Q' : A → S → Type 0) (r : Outcome StoreFault A × S)
    → ((a : A) (s : S) → Q a s → Q' a s)
    → Comes Q Any r
    → Comes Q' Any r
Comes-map Q Q' (returned a, s) f h = f a s h
Comes-map Q Q' (raised e, s) f h = tt

pub Ends-map :
    {S A : Type 0} (Q Q' : A → S → Type 0) (m : Effect StoreFault S A) (s : S)
    → ((a : A) (s' : S) → Q a s' → Q' a s')
    → Ends Q Any m s
    → Ends Q' Any m s
Ends-map Q Q' m s f h = record { at = Comes-map Q Q' (m s) f h.at }

module _ {R : Type 0} where
  asked :
      {A : Type 0} (Q : A → RedisStateStore R → Type 0) (s : RedisStateStore R)
      (r : Outcome StoreFault A × R)
      → Comes (λ a server. Q a (record s { server = server })) Any r
      → Comes Q Any (r.0, record s { server = r.1 })
  asked Q s (returned a, server) h = h
  asked Q s (raised e, server) h = tt

  pub Ends-ask :
      {A : Type 0} (Q : A → RedisStateStore R → Type 0) (s : RedisStateStore R)
      (call : Effect StoreFault R A)
      → Ends (λ a server. Q a (record s { server = server })) Any call s.server
      → Ends Q Any (ask call) s
  unfolding ask
  Ends-ask Q s call h = record { at = asked Q s (call s.server) h.at }

  tried :
      {A : Type 0} (Q : A → RedisStateStore R → Type 0) (message : String)
      (r : Outcome StoreFault A × RedisStateStore R)
      → Comes Q Any r
      → Comes Q Any (translated message r.0, r.1)
  tried Q message (returned a, s) h = h
  tried Q message (raised (StoreFault.redis_error reason), s) h = tt
  tried Q message (raised (StoreFault.state_store_error reason), s) h = tt
  tried Q message (raised (StoreFault.value_error reason), s) h = tt

  pub Ends-trying :
      {A : Type 0} (Q : A → RedisStateStore R → Type 0) (s : RedisStateStore R) (message : String)
      (body : Command R A)
      → Ends Q Any body s
      → Ends Q Any (trying message body) s
  unfolding trying
  Ends-trying Q s message body h = record { at = tried Q message (body s) h.at }

  loaded_back :
      {A : Type 0} (Q : Option A → RedisStateStore R → Type 0) (a : A) (s : RedisStateStore R)
      → Q (some a) s
      → Ends (λ b s'. Ends Q Any (pure (some b)) s') Any (loaded (returned a)) s
  unfolding loaded
  loaded_back Q a s q = Ends-pure _ _ _ _ (Ends-pure _ _ _ _ q)

  loads_back :
      {A : Type 0} (codec : Codec A) (Q : Option A → RedisStateStore R → Type 0) (o : Option A)
      (s : RedisStateStore R)
      → ((a : A) → o ≡ some a → Loads codec a)
      → Q o s
      → Ends Q Any (load_entry codec (dumped codec.dump o)) s
  unfolding load_entry
  loads_back codec Q none s loads q = Ends-pure _ _ _ _ q
  loads_back codec Q (some a) s loads q = Ends-bind _ _ s _ _ (
      subst (λ r. Ends (λ b s'. Ends Q Any (pure (some b)) s') Any (loaded r) s)
        (sym (loads a refl)) (loaded_back Q a s q))

module _ {R : Type 0} (env : RedisEnv R) (text : R → String → Option String)
    (faithful : IsFaithful env text) where
  pub set_entry-updated :
      (k raw index member message : String) (s : RedisStateStore R)
      → Ends
          (λ _ (s' : RedisStateStore R). text s'.server ≡ updated k (some raw) (text s.server))
          Any
          (set_entry env k raw index member message)
          s
  unfolding set_entry
  set_entry-updated k raw index member message s = Ends-trying _ s message _ (
      Ends-bind _ _ s _ _ (
        Ends-ask _ s _ (
          Ends-map _ _ _ _
            (λ _ r e. Ends-ask _ _ _ (Ends-map _ _ _ _ (λ _ r' e'. e' ∙ e) (faithful.sadds _ _ r)))
            (faithful.sets k raw s.server))))

  pub delete_entry-updated :
      (k index member message : String) (s : RedisStateStore R)
      → Ends
          (λ _ (s' : RedisStateStore R). text s'.server ≡ updated k none (text s.server))
          Any
          (delete_entry env k index member message)
          s
  unfolding delete_entry
  delete_entry-updated k index member message s = Ends-trying _ s message _ (
      Ends-bind _ _ s _ _ (
        Ends-ask _ s _ (
          Ends-map _ _ _ _
            (λ _ r e. Ends-ask _ _ _ (Ends-map _ _ _ _ (λ _ r' e'. e' ∙ e) (faithful.srems _ _ r)))
            (faithful.deletes k s.server))))

  -- A method that reads an entry which Redis has gets that entry, and changes no text.
  pub get_entry-dumped :
      {A : Type 0} (codec : Codec A) (k message : String) (o : Option A) (s : RedisStateStore R)
      → ((a : A) → o ≡ some a → Loads codec a)
      → text s.server k ≡ dumped codec.dump o
      → Ends
          (λ entry (s' : RedisStateStore R). (entry ≡ o) × (text s'.server ≡ text s.server))
          Any
          (get_entry env codec k message)
          s
  unfolding get_entry
  get_entry-dumped codec k message o s loads has = Ends-bind _ _ s _ _ (
      Ends-trying _ s message _ (
        Ends-ask _ s _ (
          Ends-map _ _ _ _
            (λ raw r e.
              subst
                (λ raw.
                  Ends
                    (λ entry (s' : RedisStateStore R).
                      (entry ≡ o) × (text s'.server ≡ text s.server))
                    Any (load_entry codec raw) (record s { server = r }))
                (sym (e.0 ∙ has))
                (loads_back codec _ o (record s { server = r }) loads (refl, e.1)))
            (faithful.gets k s.server))))

  pub mutated :
      (kind : Kind) (id : String) (o : Option String) (f f' : String → Option String) (m m' : Store)
      → Represents env f m
      → f' ≡ updated (entry_key env kind id) o f
      → ((k : Kind) (i : String)
          → text_of env m' k i ≡ (if is_same kind id k i then o else text_of env m k i))
      → IsLoadable env m'
      → Represents env f' m'
  mutated kind id o f f' m m' rep e h loadable = record {
    at = λ k i.
        ap (λ g. g (entry_key env k i)) e
        ∙ ap (λ b. if b then o else f (entry_key env k i)) (entry_key-is_same env kind k id i)
        ∙ ap (λ t. if is_same kind id k i then o else t) (rep.at k i)
        ∙ sym (h k i);
    loadable = loadable;
  }

put-AllLoad :
    {A : Type 0} (codec : Codec A) (d : Table A) (k : String) (v : A)
    → Loads codec v
    → AllLoad codec d
    → AllLoad codec (put d k v)
put-AllLoad codec d k v h rest id a e = elim (Bool-cases (k == id)) [
  | inl f ↦ let same : v ≡ a = ground (arith, e, f) in subst (Loads codec) same h
  | inr f ↦ rest id a (ground (arith, e, f))
]

pop-AllLoad :
    {A : Type 0} (codec : Codec A) (d : Table A) (k : String)
    → AllLoad codec d
    → AllLoad codec (pop d k)
pop-AllLoad codec d k rest id a e = elim (Bool-cases (k == id)) [
  | inl f ↦ absurd (ground (arith, e, f))
  | inr f ↦ rest id a (ground (arith, e, f))
]

-- What a call sets is loadable, and so the store stays so.
pub in_memory-IsLoadable :
    {R : Type 0} (env : RedisEnv R) (call : Call) (m : Store)
    → Sets env call
    → IsLoadable env m
    → IsLoadable env (in_memory call m).1
unfolding in_memory Store.set_service_desired Store.set_service_observed Store.set_placement
    Store.clear_placement Store.set_pending_deployment Store.pop_pending_deployment
in_memory-IsLoadable env (set_service_desired state) m h l = record {
  desired_loads =
      put-AllLoad env.desired_codec m.desired state.service.service_id state h l.desired_loads;
  observed_loads = l.observed_loads;
  placement_loads = l.placement_loads;
}
in_memory-IsLoadable env (set_service_observed state) m h l = record {
  desired_loads = l.desired_loads;
  observed_loads =
      put-AllLoad env.observed_codec m.observed state.service_id state h l.observed_loads;
  placement_loads = l.placement_loads;
}
in_memory-IsLoadable env (set_placement p) m h l = record {
  desired_loads = l.desired_loads;
  observed_loads = l.observed_loads;
  placement_loads = put-AllLoad env.placement_codec m.placement p.service_id p h l.placement_loads;
}
in_memory-IsLoadable env (clear_placement id) m h l = record {
  desired_loads = l.desired_loads;
  observed_loads = l.observed_loads;
  placement_loads = pop-AllLoad env.placement_codec m.placement id l.placement_loads;
}
in_memory-IsLoadable env (get_service_desired id) m h l = l
in_memory-IsLoadable env (get_service_observed id) m h l = l
in_memory-IsLoadable env (get_placement id) m h l = l
in_memory-IsLoadable env (set_pending_deployment p) m h l = record {
  desired_loads = l.desired_loads;
  observed_loads = l.observed_loads;
  placement_loads = l.placement_loads;
}
in_memory-IsLoadable env (pop_pending_deployment id) m h l = record {
  desired_loads = l.desired_loads;
  observed_loads = l.observed_loads;
  placement_loads = l.placement_loads;
}
