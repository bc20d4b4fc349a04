-- ===== src/Table.antt =====
-- A Python dict with text keys: the value at each key, and the keys in insertion order.
use orchestrator_thesis.Prelude.{
  String, Option, none, some, List, [], ◌∷◌, ◌++◌, ◌==◌, is_some, if◌then◌else◌, keep, not, ◌≡◌,
  All, Option-cases, inl, inr,
}

pub record Table {ℓ} (V : Type ℓ) : Type ℓ where
  pub at : String → Option V
  pub keys : List String

module _ {ℓ} {V : Type ℓ} where
  abbrev pub empty : Table V
  empty = record { at = λ k. none; keys = [] }

  -- `d.get(k)`
  abbrev pub get : Table V → String → Option V
  get d k = d.at k

  -- `d[k] = v`: a new key goes last, an old one keeps its place.
  abbrev pub put : Table V → String → V → Table V
  put d k v = record {
    at = λ j. if k == j then some v else d.at j;
    keys = if is_some (d.at k) then d.keys else d.keys ++ k ∷ [];
  }

  -- `d.pop(k, None)`
  abbrev pub pop : Table V → String → Table V
  pop d k = record {
    at = λ j. if k == j then none else d.at j;
    keys = keep (λ j. not (k == j)) d.keys;
  }

  collect : (String → Option V) → List String → List V
  collect f [] = []
  collect f (k ∷ ks) = let rest = collect f ks in elim (f k) [ none ↦ rest | some v ↦ v ∷ rest ]

  -- `d.values()`
  unfoldable pub values : Table V → List V
  unfolding collect
  values d = collect d.at d.keys

  module _ (P : V → Type 0) where
    All-collect :
        (f : String → Option V) (ks : List String)
        → ((k : String) (v : V) → f k ≡ some v → P v)
        → All P (collect f ks)
    unfolding collect
    All-collect f [] h = tt
    All-collect f (k ∷ ks) h = elim (Option-cases (f k)) [
      | inl e ↦ rw (e, All, collect) (All-collect f ks h)
      | inr (v, e) ↦ rw (e, All, collect) (h k v e, All-collect f ks h)
    ]

    pub All-values :
        (d : Table V) → ((k : String) (v : V) → get d k ≡ some v → P v) → All P (values d)
    unfolding values
    All-values d h = All-collect d.at d.keys h
