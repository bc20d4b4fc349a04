-- ===== src/Agent/Naming.antt =====
-- The container names of agent/app/adapters/docker_adapter.py: `_safe_segment` and
-- `_safe_container_name`. After the substitution a text is ASCII, so that `lower` is that of ASCII.
pub mod Safe
use Prim.Native.Char.{Char, code}
use orchestrator_thesis.Prelude.{
  ℕ, zero, suc, ◌-◌, String, Bool, true, false, ◌&&◌, ◌||◌, leb, eqb, if◌then◌else◌,
}
use orchestrator_thesis.Decimal.{◌<>◌}

-- A digit, `_`, `.` or `-`.
abbrev pub is_mark : ℕ → Bool
is_mark c = leb 48 c && leb c 57 || eqb c 95 || eqb c 46 || eqb c 45

-- `[a-zA-Z0-9_.-]`
abbrev pub is_name_code : ℕ → Bool
is_name_code c = leb 97 c && leb c 122 || leb 65 c && leb c 90 || is_mark c

-- `_safe_name_pattern.sub("-", raw)`, after a character that does not match or does.
unfoldable pub substituted : Bool → String → String
substituted in_match String.[] = String.[]
substituted in_match (String.◌∷◌ c s) =
    let matched = substituted true s in
    let unmatched = substituted false s in
    if is_name_code (code c)
    then String.◌∷◌ c unmatched
    else if in_match
    then matched
    else "-" <> matched

-- `strip("-")`
unfoldable pub lstrip_dashes : String → String
lstrip_dashes String.[] = String.[]
lstrip_dashes (String.◌∷◌ c s) =
    let rest = lstrip_dashes s in if eqb (code c) 45 then rest else String.◌∷◌ c s

unfoldable pub rstrip_dashes : String → String
rstrip_dashes String.[] = String.[]
rstrip_dashes (String.◌∷◌ c s) =
    let rest = rstrip_dashes s in
    elim rest [
      | String.[] ↦ if eqb (code c) 45 then String.[] else String.◌∷◌ c String.[]
      | String.◌∷◌ d t ↦ String.◌∷◌ c (String.◌∷◌ d t)
    ]

-- The character at an index, or a given one past the end.
unfoldable pub nth_char : ℕ → String → Char → Char
nth_char n String.[] default = default
nth_char zero (String.◌∷◌ c s) default = c
nth_char (suc n) (String.◌∷◌ c s) default = nth_char n s default

abbrev pub lower_letters : String
lower_letters = "abcdefghijklmnopqrstuvwxyz"

unfoldable pub lower_char : Char → Char
unfolding nth_char
lower_char c =
    if leb 65 (code c) && leb (code c) 90 then nth_char (code c - 65) lower_letters "a" else c

unfoldable pub lower : String → String
unfolding lower_char
lower String.[] = String.[]
lower (String.◌∷◌ c s) = String.◌∷◌ (lower_char c) (lower s)

-- `safe or fallback`
abbrev pub or_fallback : String → String → String
or_fallback String.[] fallback = fallback
or_fallback (String.◌∷◌ c s) fallback = String.◌∷◌ c s

unfoldable pub safe_segment : String → String → String
unfolding substituted lstrip_dashes rstrip_dashes lower
safe_segment raw fallback =
    or_fallback (lower (rstrip_dashes (lstrip_dashes (substituted false raw)))) fallback

unfoldable pub safe_container_name : String → String → String
unfolding safe_segment
safe_container_name node_id service_id =
    "orchestrator-" <> safe_segment node_id "node" <> "-" <> safe_segment service_id "service"
