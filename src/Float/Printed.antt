-- ===== src/Float/Printed.antt =====
-- Rust's `parse::<f32>` and `to_string` on f32, which the language builds in, as an interface.
use thalamic_relay.Prelude.{ℕ, ◌≤◌, ◌≡◌, true, Option, some, Chars, All}
use thalamic_relay.Float.{Float}

pub record FloatText (F : Type 0) : Type 0 where
  pub parse_f32 : Chars → Option F
  pub show_f32 : F → Chars

-- '-', '.' and the digits lie in this range, and no comma or white space does.
abbrev pub IsFieldChar : ℕ → Type 0
IsFieldChar c = (45 ≤ c) × (c ≤ 57)

-- What the reference of Rust says: a finite value is printed with digits, a point and a sign, and is
-- read back as the same value.
pub record IsFloatText (F : Type 0) ⦃float : Float F⦄ ⦃text : FloatText F⦄ : Type 0 where
  pub parse-show : (x : F) → float.is_finite x ≡ true → text.parse_f32 (text.show_f32 x) ≡ some x
  pub show_chars : (x : F) → float.is_finite x ≡ true → All IsFieldChar (text.show_f32 x)
