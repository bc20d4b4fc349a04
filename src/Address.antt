-- ===== src/Address.antt =====
-- `_normalize_node_address` of controller/state_store.py and controller/ingress_manager.py, and
-- `_first_valid_node_address` of the latter. `strip` removes Python's white space; of `lower` only
-- the comparison with "unknown" matters, and the characters with a lower case in that word are the
-- ASCII capitals and the Kelvin sign.
pub mod Normal
use Prim.Native.Char.{Char, code}
use orchestrator_thesis.Prelude.{
  ℕ, ◌+◌, String, Bool, true, false, ◌&&◌, ◌||◌, Option, none, some, List, [], ◌∷◌, leb, eqb,
  if◌then◌else◌,
}

unfoldable pub is_space : ℕ → Bool
is_space c =
    leb 9 c && leb c 13
    || leb 28 c && leb c 32
    || eqb c 133
    || eqb c 160
    || eqb c 5760
    || leb 8192 c && leb c 8202
    || leb 8232 c && leb c 8233
    || eqb c 8239
    || eqb c 8287
    || eqb c 12288

unfoldable pub lower_code : ℕ → ℕ
lower_code c = if leb 65 c && leb c 90 then c + 32 else if eqb c 8490 then 107 else c

unfoldable pub lower_is : List ℕ → String → Bool
unfolding lower_code
lower_is [] String.[] = true
lower_is [] (String.◌∷◌ c s) = false
lower_is (a ∷ w) String.[] = false
lower_is (a ∷ w) (String.◌∷◌ c s) = eqb (lower_code (code c)) a && lower_is w s

-- `value.lower() == "unknown"`
unfoldable pub is_unknown : String → Bool
unfolding lower_is
is_unknown = lower_is (117 ∷ 110 ∷ 107 ∷ 110 ∷ 111 ∷ 119 ∷ 110 ∷ [])

abbrev is_empty : String → Bool
is_empty String.[] = true
is_empty (String.◌∷◌ c s) = false

unfoldable pub lstrip : String → String
lstrip String.[] = String.[]
lstrip (String.◌∷◌ c s) = let rest = lstrip s in if is_space (code c) then rest else String.◌∷◌ c s

unfoldable pub rstrip : String → String
rstrip String.[] = String.[]
rstrip (String.◌∷◌ c s) =
    let rest = rstrip s in
    if is_space (code c) && is_empty rest then String.[] else String.◌∷◌ c rest

unfoldable pub strip : String → String
strip s = rstrip (lstrip s)

unfoldable pub normalize_node_address : Option String → Option String
normalize_node_address none = none
normalize_node_address (some value) =
    let normalized = strip value in
    if is_empty normalized then none else if is_unknown normalized then none else some normalized

unfoldable pub first_valid_node_address : List (Option String) → Option String
first_valid_node_address [] = none
first_valid_node_address (candidate ∷ candidates) =
    let rest = first_valid_node_address candidates in
    elim (normalize_node_address candidate) [ none ↦ rest | some a ↦ some a ]
