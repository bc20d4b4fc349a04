-- ===== src/Effect/Keeps.antt =====
-- Effects that keep an invariant of the state, whatever they return or raise, and what holds of the
-- value that they return.
use orchestrator_thesis.Prelude.{◌≡◌, refl, Bool, true, false, Option, none, some, if◌then◌else◌}
use orchestrator_thesis.Effect.{
  Outcome, returned, raised, Effect, pure, raise, gets, modify, follow, ◌>>=◌,
}

abbrev pub Holds : {E A : Type 0} → (A → Type 0) → Outcome E A → Type 0
Holds Q (returned a) = Q a
Holds Q (raised e) = Unit

pub record Keeps {E S A : Type 0} (P : S → Type 0) (m : Effect E S A) (Q : A → Type 0)
    : Type 0 where
  pub at : (s : S) → P s → P (m s).1 × Holds Q (m s).0

module _ {E S : Type 0} (P : S → Type 0) where
  module _ {A : Type 0} (Q : A → Type 0) where
    pub Keeps-pure : (a : A) → Q a → Keeps {E = E} P (pure a) Q
    unfolding pure
    Keeps-pure a q = record { at = λ s p. (p, q) }

    pub Keeps-raise : (e : E) → Keeps P (raise e) Q
    unfolding raise
    Keeps-raise e = record { at = λ s p. (p, tt) }

    pub Keeps-gets : (f : S → A) → ((s : S) → P s → Q (f s)) → Keeps {E = E} P (gets f) Q
    unfolding gets
    Keeps-gets f h = record { at = λ s p. (p, h s p) }

    pub Keeps-if :
        (b : Bool) (m n : Effect E S A)
        → (b ≡ true → Keeps P m Q)
        → (b ≡ false → Keeps P n Q)
        → Keeps P (if b then m else n) Q
    Keeps-if true m n h k = h refl
    Keeps-if false m n h k = k refl

    pub Keeps-option :
        {B : Type 0} (o : Option B) (m : Effect E S A) (f : B → Effect E S A)
        → (o ≡ none → Keeps P m Q)
        → ((b : B) → o ≡ some b → Keeps P (f b) Q)
        → Keeps P (elim o [ none ↦ m | some b ↦ f b ]) Q
    Keeps-option none m f h k = h refl
    Keeps-option (some b) m f h k = k b refl

  pub Keeps-modify :
      (f : S → S) → ((s : S) → P s → P (f s)) → Keeps {E = E} P (modify f) (λ _. Unit)
  unfolding modify
  Keeps-modify f h = record { at = λ s p. (h s p, tt) }

  follow_kept :
      {A B : Type 0} (r : Outcome E A × S) (f : A → Effect E S B) (Q : A → Type 0) (R : B → Type 0)
      → P r.1
      → Holds Q r.0
      → ((a : A) → Q a → Keeps P (f a) R)
      → P (follow r f).1 × Holds R (follow r f).0
  unfolding follow
  follow_kept (returned a, s) f Q R p q h = (h a q).at s p
  follow_kept (raised e, s) f Q R p q h = (p, tt)

  pub Keeps-bind :
      {A B : Type 0} (m : Effect E S A) (f : A → Effect E S B) (Q : A → Type 0) (R : B → Type 0)
      → Keeps P m Q
      → ((a : A) → Q a → Keeps P (f a) R)
      → Keeps P (m >>= f) R
  unfolding ◌>>=◌
  Keeps-bind m f Q R k h = record {
    at = λ s p. let (p', q) = k.at s p in follow_kept (m s) f Q R p' q h;
  }

pub Holds-unit : {E A : Type 0} (r : Outcome E A) → Holds (λ _. Unit) r
Holds-unit (returned a) = tt
Holds-unit (raised e) = tt
