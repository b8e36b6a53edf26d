-- ===== src/Prelude/Str.antt =====
-- Texts that the program walks through, as lists of code points, and what it calls of Rust's `str`:
-- `trim`, `split` at a character, `lines`, `parse` to an unsigned word, `to_string` of one.
use Prim.Native.Nat.{ℕ, ◌+◌, ◌-◌, ◌*◌}
use Prim.Native.Char.{code}
use Prim.Native.String.{String}
use mathlib.Core.Bool.{Bool, true, false, ◌&&◌, ◌||◌}
use mathlib.Core.List.{List, [], ◌∷◌, ◌++◌}
use mathlib.Core.Option.{Option, none, some}
use thalamic_relay.Prelude.Decimal.{digits}
use thalamic_relay.Prelude.Tests.{leb, ◌==◌, if◌then◌else◌}

abbrev pub Chars : Type 0
Chars = List ℕ

-- The code points of a literal.
abbrev pub codes : String → Chars
codes String.[] = []
codes (String.◌∷◌ c s) = code c ∷ codes s

module _ {ℓ} {A : Type ℓ} where
  abbrev pub is_empty : List A → Bool
  is_empty [] = true
  is_empty (x ∷ xs) = false

-- Rust's `==` on texts.
abbrev pub same_chars : Chars → Chars → Bool
same_chars [] [] = true
same_chars (c ∷ s) (d ∷ t) = c == d && same_chars s t
same_chars _ _ = false

abbrev within : (lo hi c : ℕ) → Bool
within lo hi c = leb lo c && leb c hi

-- `char::is_whitespace`: the property White_Space of Unicode.
unfoldable pub is_whitespace : ℕ → Bool
is_whitespace c =
    within 9 13 c
    || c == 32
    || c == 0x85
    || c == 0xa0
    || c == 0x1680
    || within 0x2000 0x200a c
    || within 0x2028 0x2029 c
    || c == 0x202f
    || c == 0x205f
    || c == 0x3000

abbrev pub trim_start : Chars → Chars
trim_start [] = []
trim_start (c ∷ s) = if is_whitespace c then trim_start s else c ∷ s

abbrev pub trim_end : Chars → Chars
trim_end [] = []
trim_end (c ∷ s) =
    let rest = trim_end s in if is_whitespace c && is_empty rest then [] else c ∷ rest

abbrev pub trim : Chars → Chars
trim s = trim_end (trim_start s)

abbrev pub onto_first : ℕ → List Chars → List Chars
onto_first c [] = (c ∷ []) ∷ []
onto_first c (f ∷ fs) = (c ∷ f) ∷ fs

-- `s.split(sep)`: one part more than there are separators.
abbrev pub split : (sep : ℕ) → Chars → List Chars
split sep [] = [] ∷ []
split sep (c ∷ s) = let rest = split sep s in if c == sep then [] ∷ rest else onto_first c rest

-- A line ends before "\n" or "\r\n".
abbrev pub strip_cr : Chars → Chars
strip_cr [] = []
strip_cr (c ∷ s) = let rest = strip_cr s in if c == 13 && is_empty s then [] else c ∷ rest

-- `str::lines`; the first text is the part read of the line that is begun.
abbrev pub lines_onto : Chars → Chars → List Chars
lines_onto line [] = if is_empty line then [] else line ∷ []
lines_onto line (c ∷ s) = elim (c == 10) [
  | true ↦ strip_cr line ∷ lines_onto [] s
  | false ↦ lines_onto (line ++ c ∷ []) s
]

abbrev pub lines : Chars → List Chars
lines = lines_onto []

-- `from_str_radix(10)` of an unsigned word whose largest value is `top`: digits one after another,
-- with an error for any other character and for a value that does not fit.
abbrev pub digits_onto : (top n : ℕ) → Chars → Option ℕ
digits_onto top n [] = some n
digits_onto top n (c ∷ s) =
    if within 48 57 c && leb (10 * n + (c - 48)) top
    then digits_onto top (10 * n + (c - 48)) s
    else none

unsigned : (top : ℕ) → Chars → Option ℕ
unsigned top [] = none
unsigned top (c ∷ s) = digits_onto top 0 (c ∷ s)

-- One plus sign may stand in front.
unfoldable pub parse_unsigned : (top : ℕ) → Chars → Option ℕ
unfolding unsigned
parse_unsigned top [] = none
parse_unsigned top (c ∷ s) = if c == 43 then unsigned top s else unsigned top (c ∷ s)

-- The digits that `digits` lists, least significant first, in the order of writing.
abbrev pub written : List ℕ → Chars
written [] = []
written (d ∷ ds) = written ds ++ (48 + d) ∷ []

abbrev pub u64_chars : ℕ → Chars
u64_chars n = written (digits 20 n)
