-- ===== src/Float/Fixed.antt =====
-- Fixed-point values that meet the laws of `IsFloat`: thousandths, an infinity and a NaN. They show
-- that the laws can hold, and the examples compute with them.
pub mod Text
use thalamic_relay.Prelude.{
  ℕ, ◌-◌, ◌+◌, ◌*◌, ◌/◌, Bool, true, false, arith, ltb, leb, ◌==◌, if◌then◌else◌,
}
use thalamic_relay.Float.{Float, IsFloat}

pub data Fixed : Type 0 where
  fixed : ℕ → Fixed
  infinity : Fixed
  nan : Fixed

abbrev lt_fixed : Fixed → Fixed → Bool
lt_fixed (fixed a) (fixed b) = ltb a b
lt_fixed (fixed a) infinity = true
lt_fixed _ _ = false

abbrev le_fixed : Fixed → Fixed → Bool
le_fixed (fixed a) (fixed b) = leb a b
le_fixed (fixed a) infinity = true
le_fixed infinity infinity = true
le_fixed _ _ = false

abbrev is_finite_fixed : Fixed → Bool
is_finite_fixed (fixed a) = true
is_finite_fixed _ = false

abbrev on_fixed : (ℕ → ℕ → ℕ) → Fixed → Fixed → Fixed
on_fixed f (fixed a) (fixed b) = fixed (f a b)
on_fixed f nan _ = nan
on_fixed f _ nan = nan
on_fixed f infinity (fixed b) = infinity
on_fixed f (fixed a) infinity = infinity
on_fixed f infinity infinity = infinity

abbrev div_fixed : Fixed → Fixed → Fixed
div_fixed (fixed a) (fixed b) = if b == 0 then nan else fixed (a * 1000 / b)
div_fixed infinity (fixed b) = infinity
div_fixed (fixed a) infinity = fixed 0
div_fixed _ _ = nan

abbrev to_u32_fixed : Fixed → ℕ
to_u32_fixed (fixed a) = a / 1000
to_u32_fixed infinity = 4294967295
to_u32_fixed nan = 0

instance abbrev pub fixed_float : Float Fixed
fixed_float = record {
  lt = lt_fixed;
  le = le_fixed;
  is_finite = is_finite_fixed;
  sub = on_fixed (λ a b. a - b);
  mul = on_fixed (λ a b. a * b / 1000);
  add = on_fixed (λ a b. a + b);
  div = div_fixed;
  abs = λ x. x;
  epsilon = fixed 1;
  milli = fixed;
  from_u32 = λ n. fixed (n * 1000);
  to_u32 = to_u32_fixed;
  show_rounded = λ x. "value";
}

pub Fixed-IsFloat : IsFloat Fixed
Fixed-IsFloat = ground arith
