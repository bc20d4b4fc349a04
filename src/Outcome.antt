-- ===== src/Outcome.antt =====
-- What an action comes to from one world: that it returns, and what holds of the value and of the
-- world it ends in. One rule for each way to build an action, for `search`.
pub mod Ends
pub mod Stop
pub mod Deploy
pub mod Report
pub mod Restart
use orchestrator_thesis.Prelude.{
  Bool, true, false, ◌≡◌, refl, ap, ◌∙◌, Option, none, some, ◌∷◌, subst, sym, if◌then◌else◌, List,
  String,
}
use orchestrator_thesis.Store
use orchestrator_thesis.Store.{Store}
use orchestrator_thesis.Models.{EventType, Detail}
use orchestrator_thesis.World.{
  Env, World, Action, None, Result, returned, Reply, answer, fault, Call, pure, finally, reads,
  gets, updates, writes, modify, request, on_option, on_reply, append_event, ◌>>=◌,
}
use orchestrator_thesis.Ingress.{sync_ingress}
use orchestrator_thesis.Ingress.Frame.{Quiet, Outward, sync_ingress-Quiet, bind_returned}

-- From `w` the action returns a value, and `Q` holds of the value and of the world in the end.
pub record Yields {A : Type 0} (m : Action A) (w : World) (Q : A → World → Type 0) : Type 0 where
  pub value : A
  pub world : World
  pub runs : m w ≡ (returned value, world)
  pub holds : Q value world

module _ {A : Type 0} (w : World) (Q : A → World → Type 0) where
  pub Yields-pure : (a : A) → Q a w → Yields (pure a) w Q
  unfolding pure
  Yields-pure a q = record { value = a; world = w; runs = refl; holds = q }

  pub Yields-reads :
      {B : Type 0} (f : Store → B) (g : B → Action A)
      → Yields (g (f w.store)) w Q
      → Yields (reads f >>= g) w Q
  unfolding ◌>>=◌
  Yields-reads f g y = record { value = y.value; world = y.world; runs = y.runs; holds = y.holds }

  pub Yields-gets :
      {B : Type 0} (f : World → B) (g : B → Action A)
      → Yields (g (f w)) w Q
      → Yields (gets f >>= g) w Q
  unfolding ◌>>=◌
  Yields-gets f g y = record { value = y.value; world = y.world; runs = y.runs; holds = y.holds }

  pub Yields-writes :
      (f : Store → Store) (g : None → Action A)
      → Yields (g tt) (record w { store = f w.store }) Q
      → Yields (writes f >>= g) w Q
  unfolding ◌>>=◌
  Yields-writes f g y = record { value = y.value; world = y.world; runs = y.runs; holds = y.holds }

  pub Yields-updates :
      {B : Type 0} (f : Store → Store × B) (g : B → Action A)
      → Yields (g (f w.store).1) (record w { store = (f w.store).0 }) Q
      → Yields (updates f >>= g) w Q
  unfolding ◌>>=◌
  Yields-updates f g y = record { value = y.value; world = y.world; runs = y.runs; holds = y.holds }

  pub Yields-modify :
      (f : World → World) (g : None → Action A)
      → Yields (g tt) (f w) Q
      → Yields (modify f >>= g) w Q
  unfolding ◌>>=◌
  Yields-modify f g y = record { value = y.value; world = y.world; runs = y.runs; holds = y.holds }

  pub Yields-if :
      (b : Bool) (m n : Action A)
      → (b ≡ true → Yields m w Q)
      → (b ≡ false → Yields n w Q)
      → Yields (if b then m else n) w Q
  Yields-if true m n p q = p refl
  Yields-if false m n p q = q refl

  pub Yields-on_option :
      {B : Type 0} (o : Option B) (f : Action A) (g : B → Action A)
      → (o ≡ none → Yields f w Q)
      → ((b : B) → o ≡ some b → Yields (g b) w Q)
      → Yields (on_option o f g) w Q
  unfolding on_option
  Yields-on_option none f g p q = p refl
  Yields-on_option (some b) f g p q = q b refl

  pub Yields-on_reply :
      {B : Type 0} (r : Reply B) (f : String → Action A) (g : B → Action A)
      → ((message : String) → Yields (f message) w Q)
      → ((b : B) → Yields (g b) w Q)
      → Yields (on_reply r f g) w Q
  unfolding on_reply
  Yields-on_reply (fault message) f g p q = p message
  Yields-on_reply (answer b) f g p q = q b

  pub Yields-answer :
      {B : Type 0} (b : B) (f : String → Action A) (g : B → Action A)
      → Yields (g b) w Q
      → Yields (on_reply (answer b) f g) w Q
  unfolding on_reply
  Yields-answer b f g y = y

  pub Yields-some :
      {B : Type 0} (b : B) (f : Action A) (g : B → Action A)
      → Yields (g b) w Q
      → Yields (on_option (some b) f g) w Q
  unfolding on_option
  Yields-some b f g y = y

  pub Yields-request :
      {B : Type 0} (ask : List Call → Result (Reply B)) (call : Call) (g : Reply B → Action A)
      (reply : Reply B)
      → ask w.calls ≡ returned reply
      → Yields (g reply) (record w { calls = call ∷ w.calls }) Q
      → Yields (request ask call >>= g) w Q
  unfolding request
  Yields-request ask call g reply e y = record {
    value = y.value;
    world = y.world;
    runs =
        bind_returned (request ask call) g w (ap (λ r. (r, record w { calls = call ∷ w.calls })) e)
        ∙ y.runs;
    holds = y.holds;
  }

  pub Yields-finally :
      (m : Action A) (f : World → World)
      → Yields m w (λ a w'. Q a (f w'))
      → Yields (finally m f) w Q
  unfolding finally
  Yields-finally m f y = record {
    value = y.value;
    world = f y.world;
    runs = rw y.runs refl;
    holds = y.holds;
  }

  -- Any first part that yields something.
  pub Yields-bind :
      {B : Type 0} (R : B → World → Type 0) (m : Action B) (g : B → Action A)
      → Yields m w R
      → ((b : B) (w' : World) → R b w' → Yields (g b) w' Q)
      → Yields (m >>= g) w Q
  Yields-bind R m g y f =
      let z = f y.value y.world y.holds in
      record {
        value = z.value;
        world = z.world;
        runs = bind_returned m g w y.runs ∙ z.runs;
        holds = z.holds;
      }

-- The same world under another name.
pub Yields-in :
    {A : Type 0} {m : Action A} {v w : World} {Q : A → World → Type 0}
    → v ≡ w
    → Yields m w Q
    → Yields m v Q
Yields-in {m = m} {Q = Q} e y = subst (λ v. Yields m v Q) (sym e) y

pub ruleset yields_rules = (
  Yields-pure, Yields-reads, Yields-gets, Yields-writes, Yields-modify, Yields-if, Yields-on_option,
  Yields-on_reply,
)
