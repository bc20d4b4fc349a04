-- ===== src/Effect.antt =====
-- Methods that change a state and may raise: the effects of the agent's code and of the Redis store.
pub mod Keeps
pub mod Ends
use orchestrator_thesis.Prelude.{
  ◌≡◌, refl, ap, Bool, true, false, Option, none, some, List, [], ◌∷◌, if◌then◌else◌,
}

pub data Outcome (E A : Type 0) : Type 0 where
  returned : A → Outcome E A
  raised : E → Outcome E A

module _ {E A : Type 0} where
  pub returned-injective : {r : Outcome E A} {a b : A} → r ≡ returned a → r ≡ returned b → a ≡ b
  returned-injective p q = cc

  pub returned-raised : {r : Outcome E A} {a : A} {e : E} → r ≡ returned a → r ≡ raised e → ⊥
  returned-raised p q = cc

abbrev pub Effect : Type 0 → Type 0 → Type 0 → Type 0
Effect E S A = S → Outcome E A × S

module _ {E S : Type 0} where
  unfoldable pub pure : {A : Type 0} → A → Effect E S A
  pure a s = (returned a, s)

  unfoldable pub raise : {A : Type 0} → E → Effect E S A
  raise e s = (raised e, s)

  unfoldable pub gets : {A : Type 0} → (S → A) → Effect E S A
  gets f s = (returned (f s), s)

  unfoldable pub modify : (S → S) → Effect E S (Unit {0})
  modify f s = (returned tt, f s)

  -- What runs after a call that came to an outcome and a state.
  unfoldable pub follow : {A B : Type 0} → Outcome E A × S → (A → Effect E S B) → Outcome E B × S
  follow (returned a, s) f = f a s
  follow (raised e, s) f = (raised e, s)

  infixl 5 ◌>>=◌ ◌>>◌
  -- Opening this opens the effects above.
  unfoldable pub ◌>>=◌ : {A B : Type 0} → Effect E S A → (A → Effect E S B) → Effect E S B
  unfolding pure raise gets modify follow
  ◌>>=◌ m f s = follow (m s) f

  abbrev pub ◌>>◌ : {A B : Type 0} → Effect E S A → Effect E S B → Effect E S B
  m >> k = m >>= λ _. k

  pub if_apply :
      {A : Type 0} (b : Bool) (m n : Effect E S A) (s : S)
      → (if b then m else n) s ≡ (if b then m s else n s)
  if_apply true m n s = refl
  if_apply false m n s = refl

  pub bind_returned :
      {A B : Type 0} (m : Effect E S A) (f : A → Effect E S B) (s : S) {a : A} {s' : S}
      → m s ≡ (returned a, s')
      → (m >>= f) s ≡ f a s'
  unfolding ◌>>=◌
  bind_returned m f s e = ap (λ r. follow r f) e

  pub bind_raised :
      {A B : Type 0} (m : Effect E S A) (f : A → Effect E S B) (s : S) {e : E} {s' : S}
      → m s ≡ (raised e, s')
      → (m >>= f) s ≡ (raised e, s')
  unfolding ◌>>=◌ follow
  bind_raised m f s e = ap (λ r. follow r f) e
