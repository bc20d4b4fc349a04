-- ===== src/Agent/Naming/Safe.antt =====
-- Container names of agent/app/adapters/docker_adapter.py are ones that docker takes.
use Prim.Native.Char.{Char, code}
use text.Mathlib.TextLemmas.{nil-append, cons-append}
use orchestrator_thesis.Prelude.{
  ℕ, zero, suc, ◌-◌, String, ◌≡◌, refl, sym, subst, Bool, true, false, ◌&&◌, ◌||◌, leb, eqb, arith,
  if_cases, if◌then◌else◌,
}
use orchestrator_thesis.Decimal.{◌<>◌}
use orchestrator_thesis.Agent.Naming.{
  is_mark, is_name_code, substituted, lstrip_dashes, rstrip_dashes, nth_char, lower_letters,
  lower_char, lower, or_fallback, safe_segment, safe_container_name,
}

-- Each character of a text satisfies a test.
abbrev pub AllChars : (ℕ → Bool) → String → Type 0
AllChars p String.[] = Unit
AllChars p (String.◌∷◌ c s) = (p (code c) ≡ true) × AllChars p s

-- `[a-z0-9_.-]`
abbrev pub is_safe_code : ℕ → Bool
is_safe_code c = leb 97 c && leb c 122 || is_mark c

abbrev all_chars : (ℕ → Bool) → String → Bool
all_chars p String.[] = true
all_chars p (String.◌∷◌ c s) = p (code c) && all_chars p s

and-true : (a b : Bool) → (a && b) ≡ true → (a ≡ true) × (b ≡ true)
and-true true b h = (refl, h)
and-true false b h = absurd (cc h)

all_chars-AllChars : (p : ℕ → Bool) (s : String) → all_chars p s ≡ true → AllChars p s
all_chars-AllChars p String.[] h = tt
all_chars-AllChars p (String.◌∷◌ c s) h =
    let (first, others) = and-true (p (code c)) (all_chars p s) h in
    (first, all_chars-AllChars p s others)

AllChars-append : (p : ℕ → Bool) (s t : String) → AllChars p s → AllChars p t → AllChars p (s <> t)
AllChars-append p String.[] t h k = subst (AllChars p) (sym (nil-append t)) k
AllChars-append p (String.◌∷◌ c s) t h k =
    subst (AllChars p) (sym (cons-append c s t)) (h.0, AllChars-append p s t h.1 k)

substituted-AllChars :
    (in_match : Bool) (s : String) → AllChars is_name_code (substituted in_match s)
unfolding substituted
substituted-AllChars in_match String.[] = tt
substituted-AllChars in_match (String.◌∷◌ c s) =
    if_cases (AllChars is_name_code) (is_name_code (code c)) _ _
      (λ e. (e, substituted-AllChars false s))
      (λ _.
        if_cases (AllChars is_name_code) in_match _ _ (λ _. substituted-AllChars true s)
          (λ _.
            AllChars-append is_name_code "-" (substituted true s) (refl, tt)
              (substituted-AllChars true s)))

module _ (p : ℕ → Bool) where
  lstrip_dashes-AllChars : (s : String) → AllChars p s → AllChars p (lstrip_dashes s)
  unfolding lstrip_dashes
  lstrip_dashes-AllChars String.[] h = tt
  lstrip_dashes-AllChars (String.◌∷◌ c s) h =
      if_cases (AllChars p) (eqb (code c) 45) _ _ (λ _. lstrip_dashes-AllChars s h.1) (λ _. h)

  trimmed-AllChars :
      (rest : String) (c : Char)
      → p (code c) ≡ true
      → AllChars p rest
      → AllChars p (elim rest [
        | String.[] ↦ if eqb (code c) 45 then String.[] else String.◌∷◌ c String.[]
        | String.◌∷◌ d t ↦ String.◌∷◌ c (String.◌∷◌ d t)
      ])
  trimmed-AllChars String.[] c e h =
      if_cases (AllChars p) (eqb (code c) 45) _ _ (λ _. tt) (λ _. (e, tt))
  trimmed-AllChars (String.◌∷◌ d t) c e h = (e, h)

  rstrip_dashes-AllChars : (s : String) → AllChars p s → AllChars p (rstrip_dashes s)
  unfolding rstrip_dashes
  rstrip_dashes-AllChars String.[] h = tt
  rstrip_dashes-AllChars (String.◌∷◌ c s) h =
      trimmed-AllChars (rstrip_dashes s) c h.0 (rstrip_dashes-AllChars s h.1)

nth_char-AllChars :
    (p : ℕ → Bool) (n : ℕ) (s : String) (c : Char)
    → AllChars p s
    → p (code c) ≡ true
    → p (code (nth_char n s c)) ≡ true
unfolding nth_char
nth_char-AllChars p n String.[] c h e = e
nth_char-AllChars p zero (String.◌∷◌ d s) c h e = h.0
nth_char-AllChars p (suc n) (String.◌∷◌ d s) c h e = nth_char-AllChars p n s c h.1 e

letters-AllChars : AllChars is_safe_code lower_letters
letters-AllChars = all_chars-AllChars is_safe_code lower_letters refl

lower_char-safe :
    (c : Char) → is_name_code (code c) ≡ true → is_safe_code (code (lower_char c)) ≡ true
unfolding lower_char
lower_char-safe c e =
    if_cases (λ d. is_safe_code (code d) ≡ true) (leb 65 (code c) && leb (code c) 90) _ c
      (λ _. nth_char-AllChars is_safe_code (code c - 65) lower_letters "a" letters-AllChars refl)
      (λ small. ground (arith, small, e))

lower-AllChars : (s : String) → AllChars is_name_code s → AllChars is_safe_code (lower s)
unfolding lower
lower-AllChars String.[] h = tt
lower-AllChars (String.◌∷◌ c s) h = (lower_char-safe c h.0, lower-AllChars s h.1)

or_fallback-AllChars :
    (p : ℕ → Bool) (s fallback : String)
    → AllChars p s
    → AllChars p fallback
    → AllChars p (or_fallback s fallback)
or_fallback-AllChars p String.[] fallback h k = k
or_fallback-AllChars p (String.◌∷◌ c s) fallback h k = h

safe_segment-AllChars :
    (raw fallback : String)
    → AllChars is_safe_code fallback
    → AllChars is_safe_code (safe_segment raw fallback)
unfolding safe_segment
safe_segment-AllChars raw fallback h =
    or_fallback-AllChars is_safe_code _ fallback
      (lower-AllChars _ (
        rstrip_dashes-AllChars is_name_code _
          (lstrip_dashes-AllChars is_name_code _ (substituted-AllChars false raw))))
      h

-- Whatever the ids of the node and the service are, the container's name is made of lower case
-- letters, digits, underscores, dots and dashes only, after "orchestrator-".
pub safe_container_name-AllChars :
    (node_id service_id : String)
    → (rest : String) × (safe_container_name node_id service_id ≡ "orchestrator-" <> rest)
      × AllChars is_safe_code rest
unfolding safe_container_name
safe_container_name-AllChars node_id service_id = (
  _,
  refl,
  AllChars-append is_safe_code _ _
      (safe_segment-AllChars node_id "node" (all_chars-AllChars is_safe_code "node" refl))
      (AllChars-append is_safe_code _ _ (refl, tt)
        (safe_segment-AllChars service_id "service"
          (all_chars-AllChars is_safe_code "service" refl))),
)
