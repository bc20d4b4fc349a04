-- ===== src/Effect/Ends.antt =====
-- What an effect comes to from one state: what holds of the value returned and the state then, and
-- of the exception raised and the state then.
use orchestrator_thesis.Prelude.{
  ◌≡◌, refl, subst, Bool, true, false, Option, none, some, if◌then◌else◌,
}
use orchestrator_thesis.Effect.{
  Outcome, returned, raised, Effect, pure, raise, gets, modify, follow, ◌>>=◌,
}

module _ {E S : Type 0} where
  abbrev pub Comes : {A : Type 0} → (A → S → Type 0) → (E → S → Type 0) → Outcome E A × S → Type 0
  Comes Q F (returned a, s) = Q a s
  Comes Q F (raised e, s) = F e s

  pub record Ends {A : Type 0} (Q : A → S → Type 0) (F : E → S → Type 0) (m : Effect E S A) (s : S)
      : Type 0 where
    pub at : Comes Q F (m s)

  module _ {A : Type 0} (Q : A → S → Type 0) (F : E → S → Type 0) where
    pub Comes-either :
        (r : Outcome E A) (s : S)
        → ((a : A) → r ≡ returned a → Q a s)
        → ((e : E) → r ≡ raised e → F e s)
        → Comes Q F (r, s)
    Comes-either (returned a) s h k = h a refl
    Comes-either (raised e) s h k = k e refl

    pub Ends-returned :
        {m : Effect E S A} {s s' : S} {a : A} → Ends Q F m s → m s ≡ (returned a, s') → Q a s'
    Ends-returned h e = subst (Comes Q F) e h.at

    pub Ends-raised :
        {m : Effect E S A} {s s' : S} {e : E} → Ends Q F m s → m s ≡ (raised e, s') → F e s'
    Ends-raised h e = subst (Comes Q F) e h.at

    module _ (s : S) where
      pub Ends-pure : (a : A) → Q a s → Ends Q F (pure a) s
      unfolding pure
      Ends-pure a h = record { at = h }

      pub Ends-raise : (e : E) → F e s → Ends Q F (raise e) s
      unfolding raise
      Ends-raise e h = record { at = h }

      pub Ends-gets : (f : S → A) → Q (f s) s → Ends Q F (gets f) s
      unfolding gets
      Ends-gets f h = record { at = h }

      pub Ends-option :
          {B : Type 0} (o : Option B) (m : Effect E S A) (f : B → Effect E S A)
          → (o ≡ none → Ends Q F m s)
          → ((b : B) → o ≡ some b → Ends Q F (f b) s)
          → Ends Q F (elim o [ none ↦ m | some b ↦ f b ]) s
      Ends-option none m f h k = h refl
      Ends-option (some b) m f h k = k b refl

      pub Ends-if :
          (b : Bool) (m n : Effect E S A)
          → (b ≡ true → Ends Q F m s)
          → (b ≡ false → Ends Q F n s)
          → Ends Q F (if b then m else n) s
      Ends-if true m n h k = h refl
      Ends-if false m n h k = k refl

  Comes-mono :
      {A : Type 0} {Q Q' : A → S → Type 0} {F F' : E → S → Type 0} (r : Outcome E A × S)
      → Comes Q F r
      → ((a : A) (s : S) → Q a s → Q' a s)
      → ((e : E) (s : S) → F e s → F' e s)
      → Comes Q' F' r
  Comes-mono (returned a, s) h f g = f a s h
  Comes-mono (raised e, s) h f g = g e s h

  pub Ends-mono :
      {A : Type 0} {Q Q' : A → S → Type 0} {F F' : E → S → Type 0} {m : Effect E S A} {s : S}
      → Ends Q F m s
      → ((a : A) (s : S) → Q a s → Q' a s)
      → ((e : E) (s : S) → F e s → F' e s)
      → Ends Q' F' m s
  Ends-mono {m = m} {s} h f g = record { at = Comes-mono (m s) h.at f g }

  pub Ends-modify :
      (Q : Unit → S → Type 0) (F : E → S → Type 0) (s : S) (f : S → S)
      → Q tt (f s)
      → Ends Q F (modify f) s
  unfolding modify
  Ends-modify Q F s f h = record { at = h }

  follow-Comes :
      {A B : Type 0} (r : Outcome E A × S) (f : A → Effect E S B) (Q : B → S → Type 0)
      (F : E → S → Type 0)
      → Comes (λ a s. Ends Q F (f a) s) F r
      → Comes Q F (follow r f)
  unfolding follow
  follow-Comes (returned a, s) f Q F h = h.at
  follow-Comes (raised e, s) f Q F h = h

  pub Ends-bind :
      {A B : Type 0} (Q : B → S → Type 0) (F : E → S → Type 0) (s : S) (m : Effect E S A)
      (f : A → Effect E S B)
      → Ends (λ a s'. Ends Q F (f a) s') F m s
      → Ends Q F (m >>= f) s
  unfolding ◌>>=◌
  Ends-bind Q F s m f h = record { at = follow-Comes (m s) f Q F h.at }
