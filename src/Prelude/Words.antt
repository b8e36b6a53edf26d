-- ===== src/Prelude/Words.antt =====
-- Unsigned machine words as numbers: the largest values, and Rust's saturating operations.
use Prim.Native.Nat.{ℕ, ◌+◌, ◌-◌, ◌*◌}
use thalamic_relay.Prelude.Tests.{leb, if◌then◌else◌}

abbrev pub u32_max : ℕ
u32_max = 4294967295

abbrev pub u64_max : ℕ
u64_max = 18446744073709551615

-- `saturating_add` of a word type whose largest value is `top`.
abbrev pub saturating_add : (top a b : ℕ) → ℕ
saturating_add top a b = if leb (a + b) top then a + b else top

abbrev pub saturating_mul : (top a b : ℕ) → ℕ
saturating_mul top a b = if leb (a * b) top then a * b else top

-- `-` on ℕ stops at 0, as `saturating_sub` does.
abbrev pub saturating_sub : ℕ → ℕ → ℕ
saturating_sub a b = a - b

abbrev pub abs_diff : ℕ → ℕ → ℕ
abs_diff a b = if leb b a then a - b else b - a
