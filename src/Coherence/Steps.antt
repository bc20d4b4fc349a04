-- ===== src/Coherence/Steps.antt =====
-- One rule for each way to build an action, whatever is to be ensured.
use orchestrator_thesis.Prelude.{
  String, ◌≡◌, Bool, true, false, Option, none, some, sym, if◌then◌else◌, subst,
}
use orchestrator_thesis.Store.{Store}
use orchestrator_thesis.World.{
  World, Action, Result, returned, raised, Error, pure, raise, finally, on_option, on_reply, Reply,
  answer, fault, ◌>>=◌,
}
use orchestrator_thesis.Coherence.{Ensures}

module _ {A : Type 0} {P Q : Store → Type 0} where
  pub Ensures-pure : (a : A) → ((s : Store) → P s → Q s) → Ensures P (pure a) Q
  unfolding pure
  Ensures-pure a f = record { at = λ w h. f w.store h }

  pub Ensures-raise : (e : Error) → ((s : Store) → P s → Q s) → Ensures P (raise {A = A} e) Q
  unfolding raise
  Ensures-raise e f = record { at = λ w h. f w.store h }

  pub Ensures-if :
      (b : Bool) (m n : Action A) → Ensures P m Q → Ensures P n Q → Ensures P (if b then m else n) Q
  Ensures-if true m n p q = p
  Ensures-if false m n p q = q

  pub Ensures-finally :
      (m : Action A) (f : World → World)
      → ((w : World) → (f w).store ≡ w.store)
      → Ensures P m Q
      → Ensures P (finally m f) Q
  unfolding finally
  Ensures-finally m f same p = record { at = λ w h. subst Q (sym (same (m w).1)) (p.at w h) }

module _ {A B : Type 0} {P Q : Store → Type 0} where
  pub Ensures-on_option :
      (o : Option A) (f : Action B) (g : A → Action B)
      → Ensures P f Q
      → ((a : A) → Ensures P (g a) Q)
      → Ensures P (on_option o f g) Q
  unfolding on_option
  Ensures-on_option none f g p q = p
  Ensures-on_option (some a) f g p q = q a

  pub Ensures-on_some :
      (a : A) (f : Action B) (g : A → Action B)
      → Ensures P (g a) Q
      → Ensures P (on_option (some a) f g) Q
  unfolding on_option
  Ensures-on_some a f g p = p

  pub Ensures-on_none :
      (f : Action B) (g : A → Action B) → Ensures P f Q → Ensures P (on_option none f g) Q
  unfolding on_option
  Ensures-on_none f g p = p

  pub Ensures-on_reply :
      (r : Reply A) (f : String → Action B) (g : A → Action B)
      → ((message : String) → Ensures P (f message) Q)
      → ((a : A) → Ensures P (g a) Q)
      → Ensures P (on_reply r f g) Q
  unfolding on_reply
  Ensures-on_reply (fault message) f g p q = p message
  Ensures-on_reply (answer a) f g p q = q a

-- What follows a first part that ended at `R`; `Q` must hold there too, since it may have raised.
continue_at :
    {A B : Type 0} (R Q : Store → Type 0) (f : A → Action B)
    → ((s : Store) → R s → Q s)
    → ((a : A) → Ensures R (f a) Q)
    → (r : Result A) (w : World) → R w.store
    → Q
        (elim r as (λ _. Result B × World) [
          | returned a ↦ f a w
          | raised e ↦ (raised e, w)
        ]).1.store
continue_at R Q f sub p (returned a) w h = (p a).at w h
continue_at R Q f sub p (raised e) w h = sub w.store h

pub Ensures-bind :
    {A B : Type 0} {P Q : Store → Type 0} (R : Store → Type 0) (m : Action A) (f : A → Action B)
    → ((s : Store) → R s → Q s)
    → Ensures P m R
    → ((a : A) → Ensures R (f a) Q)
    → Ensures P (m >>= f) Q
unfolding ◌>>=◌
Ensures-bind {Q = Q} R m f sub p q = record {
  at = λ w h. let (r, w') = m w in continue_at R Q f sub q r w' (p.at w h);
}
