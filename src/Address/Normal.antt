-- ===== src/Address/Normal.antt =====
-- Normalised addresses are in normal form.
use Prim.Native.Char.{code}
use orchestrator_thesis.Prelude.{
  String, ◌≡◌, refl, Bool, true, false, not, ◌&&◌, Option, none, some, arith, Bool-cases, inl, inr,
}
use orchestrator_thesis.Address.{
  is_space, lstrip, rstrip, strip, is_empty, is_unknown, normalize_node_address,
}

rstrip_idem : (s : String) → rstrip (rstrip s) ≡ rstrip s
unfolding rstrip
rstrip_idem String.[] = refl
rstrip_idem (String.◌∷◌ c s) = elim (Bool-cases (is_space (code c) && is_empty (rstrip s))) [
  | inl h ↦ rw h
  | inr h ↦ rw (h, rstrip) (rw (rstrip_idem s) (rw h))
]

-- The text is empty or begins with a character that is no space.
starts_clean : String → Bool
starts_clean String.[] = true
starts_clean (String.◌∷◌ c s) = not (is_space (code c))

starts_clean-lstrip : (s : String) → starts_clean (lstrip s) ≡ true
unfolding starts_clean lstrip
starts_clean-lstrip String.[] = refl
starts_clean-lstrip (String.◌∷◌ c s) = elim (Bool-cases (is_space (code c))) [
  | inl h ↦ rw h (starts_clean-lstrip s)
  | inr h ↦ rw h (rw h)
]

lstrip_clean : (s : String) → starts_clean s ≡ true → lstrip s ≡ s
unfolding starts_clean lstrip
lstrip_clean String.[] h = refl
lstrip_clean (String.◌∷◌ c s) h = ground arith

starts_clean-rstrip : (s : String) → starts_clean s ≡ true → starts_clean (rstrip s) ≡ true
unfolding starts_clean rstrip
starts_clean-rstrip String.[] h = refl
starts_clean-rstrip (String.◌∷◌ c s) h = ground arith

strip_idem : (s : String) → strip (strip s) ≡ strip s
unfolding strip
strip_idem s =
    let clean = starts_clean-rstrip (lstrip s) (starts_clean-lstrip s) in
    rw (lstrip_clean (rstrip (lstrip s)) clean) (rstrip_idem (lstrip s))

-- What has been normalised once stays as it is, and it is not blank and not "unknown".
pub normalize_stable :
    (value : Option String) (a : String)
    → normalize_node_address value ≡ some a
    → (normalize_node_address (some a) ≡ some a) × (is_unknown a ≡ false) × (strip a ≡ a)
unfolding normalize_node_address
normalize_stable none a h = cc
normalize_stable (some value) a h = ground (arith, strip_idem value)

-- The word for no address is no address.
pub unknown_none : normalize_node_address (some "unknown") ≡ none
unfolding normalize_node_address strip is_unknown rstrip lstrip is_space
unknown_none = refl
