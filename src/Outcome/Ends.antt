-- ===== src/Outcome/Ends.antt =====
-- What an action comes to from one world if it returns, and when it cannot raise.
use orchestrator_thesis.Prelude.{
  String, ◌≡◌, refl, Bool, true, false, Option, none, some, List, ◌∷◌, if◌then◌else◌, subst,
}
use orchestrator_thesis.Store.{Store}
use orchestrator_thesis.World.{
  World, Env, Action, None, Result, returned, raised, Call, Reply, answer, fault, pure, reads,
  writes, request, on_option, on_reply, ◌>>=◌,
}
use orchestrator_thesis.Ingress.Frame.{Quiet, IsOrderly, Outward}

-- `Q` holds of what is returned and of the world then; if something is raised, `P` does not hold.
abbrev pub Comes : {A : Type 0} → Type 0 → (A → World → Type 0) → Result A × World → Type 0
Comes P Q (returned a, w) = Q a w
Comes P Q (raised e, w) = ¬ P

pub record Ends {A : Type 0} (P : Type 0) (m : Action A) (w : World) (Q : A → World → Type 0)
    : Type 0 where
  pub at : Comes P Q (m w)

-- Where the action is seen to return, `Q` holds.
pub Ends-returned :
    {P A : Type 0} {m : Action A} {w w' : World} {Q : A → World → Type 0} {a : A}
    → Ends P m w Q
    → m w ≡ (returned a, w')
    → Q a w'
Ends-returned {P} {Q = Q} h e = subst (Comes P Q) e h.at

module _ {P A : Type 0} (w : World) (Q : A → World → Type 0) where
  pub Ends-pure : (a : A) → Q a w → Ends P (pure a) w Q
  unfolding pure
  Ends-pure a q = record { at = q }

  pub Ends-reads :
      {B : Type 0} (f : Store → B) (g : B → Action A)
      → Ends P (g (f w.store)) w Q
      → Ends P (reads f >>= g) w Q
  unfolding ◌>>=◌
  Ends-reads f g y = record { at = y.at }

  pub Ends-writes :
      (f : Store → Store) (g : None → Action A)
      → Ends P (g tt) (record w { store = f w.store }) Q
      → Ends P (writes f >>= g) w Q
  unfolding ◌>>=◌
  Ends-writes f g y = record { at = y.at }

  pub Ends-if :
      (b : Bool) (m n : Action A)
      → (b ≡ true → Ends P m w Q)
      → (b ≡ false → Ends P n w Q)
      → Ends P (if b then m else n) w Q
  Ends-if true m n p q = p refl
  Ends-if false m n p q = q refl

  pub Ends-on_option :
      {B : Type 0} (o : Option B) (f : Action A) (g : B → Action A)
      → (o ≡ none → Ends P f w Q)
      → ((b : B) → o ≡ some b → Ends P (g b) w Q)
      → Ends P (on_option o f g) w Q
  unfolding on_option
  Ends-on_option none f g p q = p refl
  Ends-on_option (some b) f g p q = q b refl

  pub Ends-on_reply :
      {B : Type 0} (r : Reply B) (f : String → Action A) (g : B → Action A)
      → ((message : String) → Ends P (f message) w Q)
      → ((b : B) → Ends P (g b) w Q)
      → Ends P (on_reply r f g) w Q
  unfolding on_reply
  Ends-on_reply (fault message) f g p q = p message
  Ends-on_reply (answer b) f g p q = q b

  follow_Comes :
      {B : Type 0} (R : B → World → Type 0) (g : B → Action A) (r : Result B) (v : World)
      → Comes P R (r, v)
      → ((b : B) (w' : World) → R b w' → Ends P (g b) w' Q)
      → Comes P Q
          (elim r as (λ _. Result A × World) [ returned b ↦ g b v | raised e ↦ (raised e, v) ])
  follow_Comes R g (returned b) v h f = (f b v h).at
  follow_Comes R g (raised e) v h f = h

  pub Ends-bind :
      {B : Type 0} (R : B → World → Type 0) (m : Action B) (g : B → Action A)
      → Ends P m w R
      → ((b : B) (w' : World) → R b w' → Ends P (g b) w' Q)
      → Ends P (m >>= g) w Q
  unfolding ◌>>=◌
  Ends-bind R m g y f = record { at = follow_Comes R g (m w).0 (m w).1 y.at f }

-- What is returned where nothing can be raised.
returned-Comes :
    {P A : Type 0} (Q : A → World → Type 0) (r : Result A) (v : World)
    → (P → (a : A) × (r ≡ returned a))
    → ((a : A) → Q a v)
    → Comes P Q (r, v)
returned-Comes Q (returned a) v h q = q a
returned-Comes Q (raised e) v h q = λ p. let (a, same) = h p in cc same

pub Ends-request :
    {P A B : Type 0} (w : World) (Q : A → World → Type 0) (ask : List Call → Result (Reply B))
    (call : Call) (g : Reply B → Action A)
    → (P → (r : Reply B) × (ask w.calls ≡ returned r))
    → ((r : Reply B) → Ends P (g r) (record w { calls = call ∷ w.calls }) Q)
    → Ends P (request ask call >>= g) w Q
unfolding request
Ends-request {P} w Q ask call g h f =
    let asked = record w { calls = call ∷ w.calls } in
    Ends-bind w Q (λ r w'. Ends P (g r) w' Q) _ _
      (record { at = returned-Comes (λ r w'. Ends P (g r) w' Q) (ask w.calls) asked h f })
      (λ b w' y. y)

pub Ends-Quiet :
    {A B : Type 0} {env : Env} (w : World) (Q : A → World → Type 0) (m : Action B)
    (g : B → Action A)
    → Quiet env m
    → ((b : B) (w' : World) → Outward w w' → Ends (IsOrderly env) (g b) w' Q)
    → Ends (IsOrderly env) (m >>= g) w Q
Ends-Quiet {A} {B} w Q m g q f =
    Ends-bind w Q (λ b w'. Outward w w') m g
      (record {
        at =
            returned-Comes (λ b w'. Outward w w') (m w).0 (m w).1 (λ o. q.returns o w)
              (λ a. q.at w);
      })
      f
