-- ===== src/Float/Fixed/Text.antt =====
-- How the fixed-point values are printed and read: the thousandths as a decimal number.
use thalamic_relay.Prelude.{
  ℕ, zero, suc, ◌+◌, ◌-◌, ◌*◌, ◌<◌, ◌≡◌, ◌≢◌, refl, ◌&&◌, List, [], ◌∷◌, ◌++◌, Option, some, none,
  arith, true, leb, if◌then◌else◌, and_then, Chars, codes, digits, value_of, ten_to,
  value_of-digits, written, digits_small, written_chars, written-ne-nil, All, All-weaken,
}
use mathlib.Core.List.{append_assoc, append-nil}
use thalamic_relay.Float.Printed.{FloatText, IsFloatText, IsFieldChar}
use thalamic_relay.Float.Fixed.{Fixed, fixed, infinity, nan, fixed_float}

abbrev number : ℕ → Chars → Option ℕ
number n [] = some n
number n (c ∷ s) = if leb 48 c && leb c 57 then number (10 * n + (c - 48)) s else none

abbrev parse_fixed : Chars → Option Fixed
parse_fixed [] = none
parse_fixed (c ∷ s) = and_then (number 0 (c ∷ s)) λ n. some (fixed n)

abbrev thousandths : ℕ → Chars
thousandths n = written (digits (suc n) n)

abbrev show_fixed : Fixed → Chars
show_fixed (fixed n) = thousandths n
show_fixed infinity = codes "inf"
show_fixed nan = codes "NaN"

instance abbrev pub fixed_text : FloatText Fixed
fixed_text = record { parse_f32 = parse_fixed; show_f32 = show_fixed }

number-written :
    (ds : List ℕ) (rest : Chars)
    → All (λ d. d < 10) ds
    → number 0 (written ds ++ rest) ≡ number (value_of ds) rest
number-written [] rest _ = refl
number-written (d ∷ ds) rest (h, hs) =
    ground (
      arith,
      append_assoc (written ds) ((48 + d) ∷ []) rest,
      number-written ds ((48 + d) ∷ rest) hs,
    )

lt-ten_to : (n : ℕ) → n < ten_to (suc n)
lt-ten_to zero = omega arith
lt-ten_to (suc n) = omega (arith, lt-ten_to n)

number-thousandths : (n : ℕ) → number 0 (thousandths n) ≡ some n
number-thousandths n =
    let small = digits_small (suc n) n in
    ground (
      arith,
      append-nil (thousandths n),
      value_of-digits (suc n) n (lt-ten_to n),
      number-written (digits (suc n) n) [] small,
    )

parse-of_number :
    (s : Chars) (n : ℕ) → s ≢ [] → number 0 s ≡ some n → parse_fixed s ≡ some (fixed n)
parse-of_number [] n ne h = absurd (ne refl)
parse-of_number (c ∷ s) n ne h = rw h refl

read_back : (x : Fixed) → fixed_float.is_finite x ≡ true → parse_fixed (show_fixed x) ≡ some x
read_back (fixed n) h =
    parse-of_number (thousandths n) n (written-ne-nil n n) (number-thousandths n)
read_back infinity h = cc
read_back nan h = cc

shown : (x : Fixed) → fixed_float.is_finite x ≡ true → All IsFieldChar (show_fixed x)
shown (fixed n) h = All-weaken _ (λ c d. ground arith) (written_chars _ (digits_small (suc n) n))
shown infinity h = cc
shown nan h = cc

pub Fixed-IsFloatText : IsFloatText Fixed
Fixed-IsFloatText = record { parse-show = read_back; show_chars = shown }
