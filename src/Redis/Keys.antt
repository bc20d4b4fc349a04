-- ===== src/Redis/Keys.antt =====
-- The keys of `RedisStateStore` of controller/state_store.py for the entries of a service keep services
-- and kinds of entries apart, whatever characters the ids have.
use Prim.Native.Char.{code}
use text.Mathlib.TextLemmas.{nil-append, cons-append, append_cancel_left, append_cancel_right}
use orchestrator_thesis.Prelude.{
  ℕ, String, ◌≡◌, refl, sym, ap, ◌∙◌, subst, inl, inr, Bool, true, ◌&&◌, eqb, eq_iff, eq_refl,
  arith, ◌==◌, Bool-cases,
}
use orchestrator_thesis.Decimal.{◌<>◌}
use orchestrator_thesis.Redis.{RedisEnv, service_key}

pub data Kind : Type 0 where
  desired observed placement pending : Kind

abbrev pub kind_text : Kind → String
kind_text desired = "desired"
kind_text observed = "observed"
kind_text placement = "placement"
kind_text pending = "pending"

-- The code of the third character from the end, which tells the kinds apart.
abbrev pub kind_code : Kind → ℕ
kind_code desired = 114
kind_code observed = 118
kind_code placement = 101
kind_code pending = 105

abbrev pub entry_key : {R : Type 0} → RedisEnv R → Kind → String → String
entry_key env kind service_id = service_key env service_id (kind_text kind)

abbrev third_last : ℕ → ℕ → ℕ → String → ℕ
third_last x y z String.[] = x
third_last x y z (String.◌∷◌ c s) = third_last y z (code c) s

third_last-append :
    (v : ℕ) (t : String)
    → ((x y z : ℕ) → third_last x y z t ≡ v)
    → (s : String) (x y z : ℕ) → third_last x y z (s <> t) ≡ v
third_last-append v t h String.[] x y z = ap (third_last x y z) (nil-append t) ∙ h x y z
third_last-append v t h (String.◌∷◌ c s) x y z =
    ap (third_last x y z) (cons-append c s t) ∙ third_last-append v t h s y z (code c)

third_last-kind_text :
    (kind : Kind) (x y z : ℕ) → third_last x y z (":" <> kind_text kind) ≡ kind_code kind
third_last-kind_text desired x y z = refl
third_last-kind_text observed x y z = refl
third_last-kind_text placement x y z = refl
third_last-kind_text pending x y z = refl

kind_code_injective : (j k : Kind) → kind_code j ≡ kind_code k → j ≡ k
kind_code_injective desired desired h = refl
kind_code_injective observed observed h = refl
kind_code_injective placement placement h = refl
kind_code_injective pending pending h = refl
kind_code_injective j k h = absurd (omega (arith, h))

-- Whether two entries are one.
abbrev pub is_same : Kind → String → Kind → String → Bool
is_same j a k b = eqb (kind_code j) (kind_code k) && a == b

is_same-parts : (j k : Kind) (a b : String) → is_same j a k b ≡ true → (j ≡ k) × (a ≡ b)
is_same-parts j k a b h =
    let codes : kind_code j ≡ kind_code k = ground (arith, h) in
    let ids : (a == b) ≡ true = ground (arith, h) in
    (kind_code_injective j k codes, (eq_iff a b).0 ids)

is_same_refl : (k : Kind) (a : String) → is_same k a k a ≡ true
is_same_refl k a =
    let codes : eqb (kind_code k) (kind_code k) ≡ true = ground arith in rw (codes, eq_refl a) refl

module _ {R : Type 0} (env : RedisEnv R) where
  entry_key_injective :
      (j k : Kind) (a b : String) → entry_key env j a ≡ entry_key env k b → (j ≡ k) × (a ≡ b)
  entry_key_injective j k a b h =
      let rest : a <> ":" <> kind_text j ≡ b <> ":" <> kind_text k =
        append_cancel_left "service:" _ _
          (append_cancel_left ":" _ _ (append_cancel_left env.prefix _ _ h)) in
      let codes : kind_code j ≡ kind_code k =
        sym (third_last-append (kind_code j) (":" <> kind_text j) (third_last-kind_text j) a 0 0 0)
        ∙ ap (third_last 0 0 0) rest
        ∙ third_last-append (kind_code k) (":" <> kind_text k) (third_last-kind_text k) b 0 0 0 in
      let kinds = kind_code_injective j k codes in
      let rest' : a <> ":" <> kind_text k ≡ b <> ":" <> kind_text k =
        ap (λ i. a <> ":" <> kind_text i) (sym kinds) ∙ rest in
      (kinds, append_cancel_right a b (":" <> kind_text k) rest')

  -- Two keys are equal as texts exactly for one entry.
  pub entry_key-is_same :
      (j k : Kind) (a b : String) → (entry_key env j a == entry_key env k b) ≡ is_same j a k b
  entry_key-is_same j k a b = elim (Bool-cases (entry_key env j a == entry_key env k b)) [
    | inl e ↦
        let (kinds, ids) =
          entry_key_injective j k a b ((eq_iff (entry_key env j a) (entry_key env k b)).0 e) in
        e
        ∙ sym (
            subst (λ i. is_same j a i b ≡ true) kinds
              (subst (λ c. is_same j a j c ≡ true) ids (is_same_refl j a)))
    | inr e ↦ elim (Bool-cases (is_same j a k b)) [
      | inl f ↦
          let (kinds, ids) = is_same-parts j k a b f in
          let keys : entry_key env j a ≡ entry_key env k b =
            ap (λ i. entry_key env i a) kinds ∙ ap (λ c. entry_key env k c) ids in
          let g = (eq_iff (entry_key env j a) (entry_key env k b)).1 keys in absurd (cc (sym e ∙ g))
      | inr f ↦ e ∙ sym f
    ]
  ]
