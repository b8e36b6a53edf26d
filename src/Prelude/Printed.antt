-- ===== src/Prelude/Printed.antt =====
-- What Rust's `str` operations give back of texts that were printed: lines, fields and numbers.
use Prim.Native.Nat.{ℕ, zero, suc, ◌+◌, ◌/◌, ◌≤◌, ◌<◌}
use mathlib.Core.Path.{◌≡◌, refl, ◌∙◌}
use mathlib.Core.Logic.{◌≢◌}
use mathlib.Core.Bool.{true, false}
use mathlib.Core.List.{List, [], ◌∷◌, ◌++◌, append_assoc, append-nil, concat-ne-nil}
use mathlib.Core.Option.{none, some}
use native.Mathlib.Omega.{arith}
use thalamic_relay.Prelude.Decimal.{digits, value_of, value_of-digits_u64}
use thalamic_relay.Prelude.Lists.{All, All-append}
use thalamic_relay.Prelude.Str.{
  Chars, is_empty, is_whitespace, trim, trim_end, split, strip_cr, lines, lines_onto, digits_onto,
  parse_unsigned, written, u64_chars,
}
use thalamic_relay.Prelude.Words.{u64_max}

pub is_empty-append : (s : Chars) (c : ℕ) (rest : Chars) → is_empty (s ++ c ∷ rest) ≡ false
is_empty-append [] c rest = refl
is_empty-append (x ∷ s) c rest = refl

not_empty : (s : Chars) → s ≢ [] → is_empty s ≡ false
not_empty [] h = absurd (h refl)
not_empty (c ∷ s) h = refl

-- A visible ASCII character.
abbrev pub IsInk : ℕ → Type 0
IsInk c = (33 ≤ c) × (c ≤ 126)

ink_not_whitespace : (c : ℕ) → IsInk c → is_whitespace c ≡ false
unfolding is_whitespace
ink_not_whitespace c h = ground arith

trim_end-ink : (s : Chars) → All IsInk s → trim_end s ≡ s
trim_end-ink [] _ = refl
trim_end-ink (c ∷ s) (h, hs) = ground (arith, ink_not_whitespace c h, trim_end-ink s hs)

pub trim-ink : (s : Chars) → All IsInk s → trim s ≡ s
trim-ink [] _ = refl
trim-ink (c ∷ s) (h, hs) = ground (arith, ink_not_whitespace c h, trim_end-ink (c ∷ s) (h, hs))

newline_is_whitespace : is_whitespace 10 ≡ true
unfolding is_whitespace
newline_is_whitespace = refl

trim_end-newline : (s : Chars) → All IsInk s → trim_end (s ++ 10 ∷ []) ≡ s
trim_end-newline [] _ = ground (arith, newline_is_whitespace)
trim_end-newline (c ∷ s) (h, hs) = ground (arith, ink_not_whitespace c h, trim_end-newline s hs)

pub trim-newline : (s : Chars) → All IsInk s → trim (s ++ 10 ∷ []) ≡ s
trim-newline [] _ = ground (arith, newline_is_whitespace)
trim-newline (c ∷ s) (h, hs) =
    ground (arith, ink_not_whitespace c h, trim_end-newline (c ∷ s) (h, hs))

module _ (sep : ℕ) where
  pub split_at_sep :
      (s rest : Chars) → All (λ c. c ≢ sep) s → split sep (s ++ sep ∷ rest) ≡ s ∷ split sep rest
  split_at_sep [] rest _ = ground arith
  split_at_sep (c ∷ s) rest (h, hs) = ground (arith, split_at_sep s rest hs)

  pub split_last : (s : Chars) → All (λ c. c ≢ sep) s → split sep s ≡ s ∷ []
  split_last [] _ = refl
  split_last (c ∷ s) (h, hs) = ground (arith, split_last s hs)

-- Not '\r', '\n' or another control character below them.
abbrev pub IsLineChar : ℕ → Type 0
IsLineChar c = 14 ≤ c

strip_cr_id : (s : Chars) → All IsLineChar s → strip_cr s ≡ s
strip_cr_id [] _ = refl
strip_cr_id (c ∷ s) (h, hs) = ground (arith, strip_cr_id s hs)

lines_onto_line :
    (line s rest : Chars)
    → All IsLineChar s
    → lines_onto line (s ++ 10 ∷ rest) ≡ strip_cr (line ++ s) ∷ lines rest
lines_onto_line line [] rest _ = rw append-nil
lines_onto_line line (c ∷ s) rest (h, hs) =
    ground (arith, lines_onto_line (line ++ c ∷ []) s rest hs, append_assoc line (c ∷ []) s)

pub lines-cons : (s rest : Chars) → All IsLineChar s → lines (s ++ 10 ∷ rest) ≡ s ∷ lines rest
lines-cons s rest h = rw (lines_onto_line [] s rest h, strip_cr_id s h)

abbrev pub IsDigitChar : ℕ → Type 0
IsDigitChar c = (48 ≤ c) × (c ≤ 57)

pub digits_small : (fuel n : ℕ) → All (λ d. d < 10) (digits fuel n)
digits_small zero n = tt
digits_small (suc fuel) n = ground (arith, digits_small fuel (n / 10))

pub written_chars : (ds : List ℕ) → All (λ d. d < 10) ds → All IsDigitChar (written ds)
written_chars [] _ = tt
written_chars (d ∷ ds) (h, hs) =
    All-append IsDigitChar (written ds) _ (written_chars ds hs) (omega arith, tt)

pub u64_chars-IsDigitChar : (n : ℕ) → All IsDigitChar (u64_chars n)
u64_chars-IsDigitChar n = written_chars (digits 20 n) (digits_small 20 n)

pub written-ne-nil : (fuel n : ℕ) → written (digits (suc fuel) n) ≢ []
written-ne-nil fuel n = grind (arith, concat-ne-nil)

digits_onto-written :
    (top : ℕ) (ds : List ℕ) (rest : Chars)
    → All (λ d. d < 10) ds
    → value_of ds ≤ top
    → digits_onto top 0 (written ds ++ rest) ≡ digits_onto top (value_of ds) rest
digits_onto-written top [] rest _ fits = refl
digits_onto-written top (d ∷ ds) rest (h, hs) fits = ground (
  arith,
  append_assoc (written ds) ((48 + d) ∷ []) rest,
  digits_onto-written top ds ((48 + d) ∷ rest) hs,
)

parse_unsigned_digits :
    (top : ℕ) (s : Chars) → s ≢ [] → All IsDigitChar s → parse_unsigned top s ≡ digits_onto top 0 s
unfolding parse_unsigned
parse_unsigned_digits top [] h _ = absurd (h refl)
parse_unsigned_digits top (c ∷ s) h (hc, _) = ground arith

pub u64_chars-not_empty : (n : ℕ) → is_empty (u64_chars n) ≡ false
u64_chars-not_empty n = not_empty _ (written-ne-nil 19 n)

pub parse_unsigned-nil : (top : ℕ) → parse_unsigned top [] ≡ none
unfolding parse_unsigned
parse_unsigned-nil top = refl

-- `parse` to an unsigned word reads back every u64 that fits in it and that `to_string` prints.
pub parse_unsigned-u64_chars_word :
    (top n : ℕ) → n ≤ top → n < u64_max + 1 → parse_unsigned top (u64_chars n) ≡ some n
parse_unsigned-u64_chars_word top n fits h =
    parse_unsigned_digits top _ (written-ne-nil 19 n) (u64_chars-IsDigitChar n)
    ∙ ground (
      arith,
      append-nil (u64_chars n),
      value_of-digits_u64 n h,
      digits_onto-written top (digits 20 n) [] (digits_small 20 n),
    )

pub parse_unsigned-u64_chars :
    (n : ℕ) → n < u64_max + 1 → parse_unsigned u64_max (u64_chars n) ≡ some n
parse_unsigned-u64_chars n h = parse_unsigned-u64_chars_word u64_max n (omega arith) h
