-- ===== src/Decimal.antt =====
-- Python's f-strings: concatenation, and a number in decimal.
use Prim.Native.Nat.{◌/◌}
use Prim.Native.String.{◌++◌}
use orchestrator_thesis.Prelude.{
  ℕ, zero, suc, ◌%◌, String, ◌≡◌, refl, ltb, eqb, ap, arith, ◌<◌, ◌≤◌, inl, inr, Bool-cases,
  if◌then◌else◌,
}

infixr 65 ◌<>◌
abbrev pub ◌<>◌ : String → String → String
s <> t = s ++ t

digit : ℕ → String
digit d =
    if eqb d 0
    then "0"
    else if eqb d 1
    then "1"
    else if eqb d 2
    then "2"
    else if eqb d 3
    then "3"
    else if eqb d 4
    then "4"
    else if eqb d 5
    then "5"
    else if eqb d 6
    then "6"
    else if eqb d 7
    then "7"
    else if eqb d 8
    then "8"
    else "9"

-- A number has at most one digit more than its value, so the fuel is enough.
pub digits : ℕ → ℕ → String
unfolding digit
digits zero n = ""
digits (suc fuel) n =
    let rest = digits fuel (n / 10) in if ltb n 10 then digit n else rest <> digit (n % 10)

digits-enough : (a b n : ℕ) → n < a → n < b → digits a n ≡ digits b n
unfolding digits
digits-enough zero b n h k = absurd (omega (arith, h))
digits-enough (suc a) zero n h k = absurd (omega (arith, k))
digits-enough (suc a) (suc b) n h k = elim (Bool-cases (ltb n 10)) [
  | inl e ↦ rw e refl
  | inr e ↦
      let big : 10 ≤ n = ground (arith, e) in
      rw e (
        ap (λ s. s <> digit (n % 10))
          (digits-enough a b (n / 10) (omega (arith, big, h)) (omega (arith, big, k))))
]

unfoldable pub show : ℕ → String
unfolding digits
show n = digits (suc n) n

show_20417 : show 20417 ≡ "20417"
unfolding show
show_20417 = refl

-- The decimal text of a number does not depend on the fuel that it is computed with, as long as
-- that is more than the number.
pub show-digits : (fuel n : ℕ) → n < fuel → show n ≡ digits fuel n
unfolding show
show-digits fuel n h = digits-enough (suc n) fuel n (omega arith) h
