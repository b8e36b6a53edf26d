-- ===== src/Float.antt =====
-- Rust's `f32`, which the language builds in: the operations that the program applies to it, as an
-- interface. `milli n` is the literal n / 1000, and `from_u32` and `to_u32` are the `as` casts.
-- `show_rounded` is the format `{:.0}`.
use thalamic_relay.Prelude.{
  ℕ, ◌≤◌, ◌<◌, ◌≡◌, ◌⊎◌, Bool, true, false, not, ◌&&◌, String, if◌then◌else◌,
}
pub mod Fixed
pub mod Printed

pub record Float (F : Type 0) : Type 0 where
  pub lt : F → F → Bool
  pub le : F → F → Bool
  pub is_finite : F → Bool
  pub sub : F → F → F
  pub mul : F → F → F
  pub add : F → F → F
  pub div : F → F → F
  pub abs : F → F
  pub epsilon : F
  pub milli : ℕ → F
  pub from_u32 : ℕ → F
  pub to_u32 : F → ℕ
  pub show_rounded : F → String

module _ {F : Type 0} ⦃float : Float F⦄ where
  -- `x < y`, `x <= y`, and `x > y`, `x >= y` with the sides swapped.
  infix 50 ◌≺◌ ◌≼◌
  abbrev pub ◌≺◌ : F → F → Bool
  ◌≺◌ = float.lt

  abbrev pub ◌≼◌ : F → F → Bool
  ◌≼◌ = float.le

  -- `f32::clamp`, as the standard library defines it for `min <= max`.
  abbrev pub clamp : F → F → F → F
  clamp lo hi x = let y = if x ≺ lo then lo else x in if hi ≺ y then hi else y

  -- Not NaN: the values that are `<=` themselves.
  abbrev pub IsNumber : F → Type 0
  IsNumber x = (x ≼ x) ≡ true

-- What IEEE 754 and Rust's reference say of these operations, as far as the proofs use it.
pub record IsFloat (F : Type 0) ⦃float : Float F⦄ : Type 0 where
  pub number_of_finite : (x : F) → float.is_finite x ≡ true → IsNumber x
  pub numbers_of_le : (x y : F) → (x ≼ y) ≡ true → IsNumber x × IsNumber y
  pub le_of_lt : (x y : F) → (x ≺ y) ≡ true → (x ≼ y) ≡ true
  pub le_trans : (x y z : F) → (x ≼ y) ≡ true → (y ≼ z) ≡ true → (x ≼ z) ≡ true
  pub lt_iff_not_le : (x y : F) → IsNumber x → IsNumber y → (x ≺ y) ≡ not (y ≼ x)
  -- A difference of finite values is no NaN, nor is a number divided by a finite value that is not 0.
  pub sub_number :
      (x y : F) → float.is_finite x ≡ true → float.is_finite y ≡ true → IsNumber (float.sub x y)
  pub div_number :
      (x y : F)
      → IsNumber x
      → float.is_finite y ≡ true
      → (float.abs y ≺ float.epsilon) ≡ false
      → IsNumber (float.div x y)
  -- Rounding of literals keeps their order, and small literals are finite.
  pub milli_le : (a b : ℕ) → a ≤ b → (float.milli a ≼ float.milli b) ≡ true
  pub milli_finite : (a : ℕ) → a ≤ 16000000 → float.is_finite (float.milli a) ≡ true
