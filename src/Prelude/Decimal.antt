-- ===== src/Prelude/Decimal.antt =====
-- `to_string` on a u64: the decimal digits, most significant first. Twenty digits are enough.
use Prim.Native.Nat.{ℕ, zero, suc, ◌+◌, ◌*◌, ◌/◌, ◌%◌, ◌<◌}
use Prim.Native.String.{String, ◌++◌}
use mathlib.Core.Path.{◌≡◌}
use native.Mathlib.Omega.{arith}
use thalamic_relay.Prelude.Tests.{ltb, if◌then◌else◌}
use mathlib.Core.List.{List, [], ◌∷◌}
use thalamic_relay.Prelude.Words.{u64_max}

-- The digits of a number, least significant first.
abbrev pub digits : (fuel n : ℕ) → List ℕ
digits zero n = []
digits (suc fuel) n = if ltb n 10 then n ∷ [] else n % 10 ∷ digits fuel (n / 10)

abbrev pub value_of : List ℕ → ℕ
value_of [] = 0
value_of (d ∷ ds) = d + 10 * value_of ds

abbrev pub ten_to : ℕ → ℕ
ten_to zero = 1
ten_to (suc k) = 10 * ten_to k

pub value_of-digits : (fuel n : ℕ) → n < ten_to fuel → value_of (digits fuel n) ≡ n
value_of-digits zero n h = omega arith
value_of-digits (suc fuel) n h =
    let rest = value_of-digits fuel (n / 10) (omega arith) in ground (arith, rest)

-- Twenty digits give every u64 back.
pub value_of-digits_u64 : (n : ℕ) → n < u64_max + 1 → value_of (digits 20 n) ≡ n
value_of-digits_u64 n h = value_of-digits 20 n (omega arith)

-- The text at an index, and the last one for every larger index.
abbrev text_at : String → List String → ℕ → String
text_at last [] n = last
text_at last (s ∷ rest) zero = s
text_at last (s ∷ rest) (suc n) = text_at last rest n

abbrev digit : ℕ → String
digit d = text_at "9" ("0" ∷ "1" ∷ "2" ∷ "3" ∷ "4" ∷ "5" ∷ "6" ∷ "7" ∷ "8" ∷ []) d

abbrev text_of : List ℕ → String
text_of [] = ""
text_of (d ∷ ds) = text_of ds ++ digit d

abbrev pub show_u64 : ℕ → String
show_u64 n = text_of (digits 20 n)
