-- ===== src/Names.antt =====
-- How Python orders texts: lexicographically by code points. `sorted(..., key=...)` by a text.
use Prim.Native.Char.{code}
use mathlib.Core.Path.{ap₂}
use text.Mathlib.TextEquality.{Char-path}
use orchestrator_thesis.Prelude.{
  ℕ, String, ◌≡◌, refl, ◌⊎◌, inl, inr, Bool, true, false, List, [], ◌∷◌, arith, ltb, eqb,
  if◌then◌else◌, Bool-cases, ◌==◌, eq_iff, All,
}

abbrev pub codes : String → List ℕ
codes String.[] = []
codes (String.◌∷◌ c s) = code c ∷ codes s

codes_le : List ℕ → List ℕ → Bool
codes_le [] t = true
codes_le (a ∷ s) [] = false
codes_le (a ∷ s) (b ∷ t) =
    let rest = codes_le s t in if ltb a b then true else if eqb a b then rest else false

codes_le_total : (s t : List ℕ) → (codes_le s t ≡ true) ⊎ (codes_le t s ≡ true)
unfolding codes_le
codes_le_total [] t = inl refl
codes_le_total (a ∷ s) [] = inr refl
codes_le_total (a ∷ s) (b ∷ t) = ground (arith, codes_le_total s t)

codes_le_trans : (s t u : List ℕ) → codes_le s t ≡ true → codes_le t u ≡ true → codes_le s u ≡ true
unfolding codes_le
codes_le_trans [] t u h k = refl
codes_le_trans (a ∷ s) [] u h k = ground arith
codes_le_trans (a ∷ s) (b ∷ t) [] h k = ground arith
codes_le_trans (a ∷ s) (b ∷ t) (c ∷ u) h k = ground (arith, codes_le_trans s t u)

codes_le_antisymm : (s t : List ℕ) → codes_le s t ≡ true → codes_le t s ≡ true → s ≡ t
unfolding codes_le
codes_le_antisymm [] [] h k = refl
codes_le_antisymm [] (b ∷ t) h k = ground arith
codes_le_antisymm (a ∷ s) [] h k = ground arith
codes_le_antisymm (a ∷ s) (b ∷ t) h k = ground (arith, codes_le_antisymm s t)

codes_injective : (s t : String) → codes s ≡ codes t → s ≡ t
codes_injective String.[] String.[] h = refl
codes_injective String.[] (String.◌∷◌ d t) h = cc
codes_injective (String.◌∷◌ c s) String.[] h = cc
codes_injective (String.◌∷◌ c s) (String.◌∷◌ d t) h =
    ap₂ String.◌∷◌ (Char-path c d (ground arith)) (codes_injective s t (ground arith))

-- `s <= t`
unfoldable pub name_le : String → String → Bool
unfolding codes_le
name_le s t = codes_le (codes s) (codes t)

pub name_le_total : (s t : String) → (name_le s t ≡ true) ⊎ (name_le t s ≡ true)
unfolding name_le
name_le_total s t = codes_le_total (codes s) (codes t)

pub name_le_trans : (s t u : String) → name_le s t ≡ true → name_le t u ≡ true → name_le s u ≡ true
unfolding name_le
name_le_trans s t u = codes_le_trans (codes s) (codes t) (codes u)

pub name_le_antisymm : (s t : String) → name_le s t ≡ true → name_le t s ≡ true → s ≡ t
unfolding name_le
name_le_antisymm s t h k = codes_injective s t (codes_le_antisymm (codes s) (codes t) h k)

module _ {ℓ} {A : Type ℓ} (key : A → String) where
  insert_by : A → List A → List A
  insert_by x [] = x ∷ []
  insert_by x (y ∷ ys) =
      let rest = insert_by x ys in if name_le (key x) (key y) then x ∷ y ∷ ys else y ∷ rest

  -- `sorted(items, key=key)`, which is stable.
  unfoldable pub sorted : List A → List A
  unfolding insert_by
  sorted [] = []
  sorted (x ∷ xs) = insert_by x (sorted xs)

module _ {ℓ} {A : Type ℓ} (key : A → String) (P : A → Type 0) where
  All-insert_by : (x : A) (xs : List A) → P x → All P xs → All P (insert_by key x xs)
  unfolding insert_by
  All-insert_by x [] p h = (p, tt)
  All-insert_by x (y ∷ ys) p h = elim (Bool-cases (name_le (key x) (key y))) [
    | inl e ↦ rw e (p, h)
    | inr e ↦ rw e (h.0, All-insert_by x ys p h.1)
  ]

  pub All-sorted : (xs : List A) → All P xs → All P (sorted key xs)
  unfolding sorted
  All-sorted [] h = tt
  All-sorted (x ∷ xs) h = All-insert_by x (sorted key xs) h.0 (All-sorted xs h.1)

pub String-discrete : Discrete String
String-discrete s t = elim (Bool-cases (s == t)) [
  | inl h ↦ yes ((eq_iff s t).0 h)
  | inr h ↦ no λ p. cc ((eq_iff s t).1 p)
]
