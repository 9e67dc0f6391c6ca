-- ===== src/Common/Decimal.antt =====
-- Decimal numbers in texts: `to_string` of an unsigned integer, and the digits that a parser reads.
use mathlib.Core.Bool.{Bool, true, false, ◌&&◌}
use mathlib.Core.List.{[], ◌∷◌, ◌++◌}
use mathlib.Core.Logic.{inl, inr}
use mathlib.Core.Path.{◌≡◌, refl, ap, ◌∙◌}
use native.Mathlib.Omega.{arith}
use Prim.Native.Nat.{ℕ, zero, suc, ◌+◌, ◌-◌, ◌*◌, ◌/◌, ◌%◌, ◌≤◌, ◌<◌}
use mpc_server.Common.Fallible.{Result, ok, err}
use mpc_server.Common.Tests.{ltb, leb, if◌then◌else◌, Bool-cases}
use mpc_server.Common.Texts.{Text}

-- The decimal digits, in front of a text; the fuel is above the number.
unfoldable pub digits : ℕ → ℕ → Text → Text
digits zero n behind = behind
digits (suc fuel) n behind = elim (ltb n 10) [
  | true ↦ (48 + n) ∷ behind
  | false ↦ digits fuel (n / 10) ((48 + n % 10) ∷ behind)
]

unfoldable pub to_string : ℕ → Text
unfolding digits
to_string n = digits (suc n) n []

abbrev pub is_digit : ℕ → Bool
is_digit c = leb 48 c && leb c 57

-- The error of a parser, without its text.
pub data ParseError : Type 0 where
  malformed : ParseError

-- The digits at the start, as a number behind those of `value`, and the rest; an error when the
-- number is above the limit.
unfoldable pub read_digits : ℕ → ℕ → Text → Result ParseError (Text × ℕ)
read_digits limit value [] = ok ([], value)
read_digits limit value (c ∷ cs) =
    if is_digit c
    then (if leb (value * 10 + (c - 48)) limit
        then read_digits limit (value * 10 + (c - 48)) cs
        else err malformed)
    else ok (c ∷ cs, value)

-- A number of at least one digit.
unfoldable pub read_number : ℕ → Text → Result ParseError (Text × ℕ)
unfolding read_digits
read_number limit [] = err malformed
read_number limit (c ∷ cs) = if is_digit c then read_digits limit 0 (c ∷ cs) else err malformed

-- The text does not go on with a digit.
abbrev pub IsEnd : Text → Type 0
IsEnd [] = Unit
IsEnd (c ∷ cs) = is_digit c ≡ false

-- A text that starts with a digit that is at least a given one.
abbrev pub StartsDigit : ℕ → Text → Type 0
StartsDigit d [] = ⊥
StartsDigit d (c ∷ cs) = (48 + d ≤ c) × (c ≤ 57)

read_digit :
    (limit value d : ℕ) (cs : Text)
    → d < 10
    → value * 10 + d ≤ limit
    → read_digits limit value ((48 + d) ∷ cs) ≡ read_digits limit (value * 10 + d) cs
unfolding read_digits
read_digit limit value d cs small fits =
    let e : 48 + d - 48 ≡ d = omega arith in
    let digit : is_digit (48 + d) ≡ true = ground arith in
    let below : leb (value * 10 + d) limit ≡ true = ground arith in rw (e, digit, below) refl

read_digits-digits :
    (limit fuel n : ℕ) (behind : Text)
    → n < fuel
    → n ≤ limit
    → read_digits limit 0 (digits fuel n behind) ≡ read_digits limit n behind
unfolding digits
read_digits-digits limit zero n behind h b = absurd (omega arith)
read_digits-digits limit (suc fuel) n behind h b = elim (Bool-cases (ltb n 10)) [
  | inl e ↦
      rw (e, digits)
        (read_digit limit 0 n behind (ground arith) (omega arith)
          ∙ ap (λ v. read_digits limit v behind) (omega arith))
  | inr e ↦
      let large : 10 ≤ n = ground arith in
      let whole : n / 10 * 10 + n % 10 ≡ n = omega arith in
      rw (e, digits)
        (read_digits-digits limit fuel (n / 10) ((48 + n % 10) ∷ behind) (omega (arith, large))
            (omega arith)
          ∙ read_digit limit (n / 10) (n % 10) behind (omega arith) (omega (arith, whole))
          ∙ ap (λ v. read_digits limit v behind) whole)
]

-- The digits of a number from 1 up start with a digit from 1 up.
pub digits-StartsDigit :
    (fuel n : ℕ) (behind : Text) → n < fuel → 1 ≤ n → StartsDigit 1 (digits fuel n behind)
unfolding digits
digits-StartsDigit zero n behind h b = absurd (omega arith)
digits-StartsDigit (suc fuel) n behind h b = elim (Bool-cases (ltb n 10)) [
  | inl e ↦ rw (e, digits) (omega arith, ground arith)
  | inr e ↦
      let large : 10 ≤ n = ground arith in
      rw (e, digits)
        (digits-StartsDigit fuel (n / 10) ((48 + n % 10) ∷ behind) (omega (arith, large))
          (omega (arith, large)))
]

-- Where no digit follows, the rest is what is left.
read_digits-IsEnd :
    (limit value : ℕ) (behind : Text)
    → IsEnd behind
    → read_digits limit value behind ≡ ok (behind, value)
unfolding read_digits
read_digits-IsEnd limit value [] e = refl
read_digits-IsEnd limit value (c ∷ cs) e = rw e refl

digit_first : (limit : ℕ) (t : Text) → StartsDigit 0 t → read_number limit t ≡ read_digits limit 0 t
unfolding read_number
digit_first limit [] h = absurd h
digit_first limit (c ∷ cs) h = let e : is_digit c ≡ true = ground arith in rw e refl

pub digits_first : (n : ℕ) (behind : Text) → StartsDigit 0 (digits (suc n) n behind)
unfolding digits
digits_first zero behind = (omega arith, omega arith)
digits_first (suc n) behind =
    StartsDigit_weaker (digits (suc (suc n)) (suc n) behind)
      (digits-StartsDigit (suc (suc n)) (suc n) behind (omega arith) (omega arith))
  where
    StartsDigit_weaker : (t : Text) → StartsDigit 1 t → StartsDigit 0 t
    StartsDigit_weaker [] h = absurd h
    StartsDigit_weaker (c ∷ cs) h = (omega arith, h.1)

-- A number within the limit is read back out of its digits, up to what follows them.
pub read_number-digits :
    (limit n : ℕ) (behind : Text)
    → n ≤ limit
    → IsEnd behind
    → read_number limit (digits (suc n) n behind) ≡ ok (behind, n)
read_number-digits limit n behind b e =
    digit_first limit (digits (suc n) n behind) (digits_first n behind)
    ∙ read_digits-digits limit (suc n) n behind (omega arith) b
    ∙ read_digits-IsEnd limit n behind e

digits-append :
    (fuel n : ℕ) (behind rest : Text)
    → digits fuel n behind ++ rest ≡ digits fuel n (behind ++ rest)
unfolding digits
digits-append zero n behind rest = refl
digits-append (suc fuel) n behind rest = elim (Bool-cases (ltb n 10)) [
  | inl e ↦ rw (e, digits) refl
  | inr e ↦ rw (e, digits) (digits-append fuel (n / 10) ((48 + n % 10) ∷ behind) rest)
]

pub to_string-append : (n : ℕ) (rest : Text) → to_string n ++ rest ≡ digits (suc n) n rest
unfolding to_string
to_string-append n rest = digits-append (suc n) n [] rest
