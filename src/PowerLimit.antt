-- ===== src/PowerLimit.antt =====
-- The power limit of the device: src/safety.rs (its classification at process start) and src/gpu.rs
-- (the plans of apply and release). Watts are u32.
use thalamic_relay.Prelude.{
  ℕ, ◌-◌, ◌*◌, ◌+◌, Bool, true, false, ◌&&◌, ◌||◌, not, ltb, leb, ◌==◌, if◌then◌else◌, Option, none,
  some, is_none, String, Result, ok, err, ◌>>=◌, ◌>>◌, ok_or, refuse_if, u32_max, saturating_add,
  abs_diff,
}
use mathlib.Core.Bool.{cond}
use thalamic_relay.Float.{Float, ◌≺◌, ◌≼◌}
pub mod Ownership
pub mod Fake
pub mod Leftover

abbrev pub brake_match_tolerance_w : ℕ
brake_match_tolerance_w = 2

pub data ActuatorError : Type 0 where
  power_limit_unavailable : ActuatorError
  command_failed : String → ActuatorError

pub record BrakeMatch : Type 0 where
  pub current_w : ℕ
  pub default_w : ℕ
  pub expected_w : ℕ

pub data PowerLimitObservation : Type 0 where
  unreadable : PowerLimitObservation
  at_or_above_default : (current_w default_w : ℕ) → PowerLimitObservation
  relay_owned_brake : BrakeMatch → PowerLimitObservation
  foreign_sub_default_cap : (current_w default_w expected_brake_w : ℕ) → PowerLimitObservation

unfoldable pub should_seed_leftover_brake : PowerLimitObservation → Bool
should_seed_leftover_brake (relay_owned_brake m) = true
should_seed_leftover_brake _ = false

-- `Option::filter` by `w > 0`.
abbrev positive : Option ℕ → Option ℕ
positive none = none
positive (some w) = if ltb 0 w then some w else none

-- The comparisons of `classify_power_limit`, once the limits and the target are known.
observe : (current_w default_w expected_brake_w : ℕ) → PowerLimitObservation
observe current_w default_w expected_brake_w =
    if leb (abs_diff current_w expected_brake_w) brake_match_tolerance_w
    then relay_owned_brake
        (record { current_w = current_w; default_w = default_w; expected_w = expected_brake_w })
    else if leb default_w (saturating_add u32_max current_w brake_match_tolerance_w)
    then at_or_above_default current_w default_w
    else foreign_sub_default_cap current_w default_w expected_brake_w

-- `plan_brake_apply`, once both limits are readable: `some target` is the limit to set, `none` that
-- nothing is to be done.
plan_readable : (current default target : ℕ) → Result (Option ℕ) ActuatorError
plan_readable current default target = do
  refuse_if (ltb current (target - brake_match_tolerance_w))
      (command_failed "power limit is below relay target; preserving operator/device cap")
  cond (leb (abs_diff current target) brake_match_tolerance_w) (ok none) (
      refuse_if (ltb current (default - brake_match_tolerance_w))
        (command_failed "foreign sub-default power cap; refusing relay ownership")
      >> ok (some target))

release_of : PowerLimitObservation → Result ℕ ActuatorError
release_of (relay_owned_brake m) =
    if ltb 0 m.default_w && ltb 0 m.current_w
    then ok m.default_w
    else err (command_failed "current power limit does not match relay brake; refusing restore")
release_of _ =
    err (command_failed "current power limit does not match relay brake; refusing restore")

module _ {F : Type 0} ⦃float : Float F⦄ where
  -- `BRAKE_FRACTION`.
  abbrev pub brake_fraction : F
  brake_fraction = float.milli 500

  unfoldable pub unambiguous_brake_target : (default_w : ℕ) → (pct : F) → Option ℕ
  unambiguous_brake_target default_w pct =
      if not (float.is_finite pct) || not ((float.milli 100 ≼ pct) && (pct ≺ float.milli 1000))
      then none
      else (let target = float.to_u32 (float.mul (float.from_u32 default_w) pct) in
          if ltb 0 target && ltb (2 * brake_match_tolerance_w) (default_w - target)
          then some target
          else none)

  unfoldable pub classify_power_limit :
      (current_w default_w : Option ℕ) → (brake_fraction : F) → PowerLimitObservation
  unfolding observe
  classify_power_limit (some current_w) (some default_w) pct =
      elim (unambiguous_brake_target default_w pct) [
        | none ↦ unreadable
        | some expected_brake_w ↦ observe current_w default_w expected_brake_w
      ]
  classify_power_limit _ _ pct = unreadable

  -- `SafetyActuator::detect_engaged_brake`, over the limits that the backend reports.
  unfoldable pub detect_engaged_brake :
      (limits : Option ℕ × Option ℕ) → (pct : F) → Option BrakeMatch
  unfolding classify_power_limit
  detect_engaged_brake (current_w, default_w) pct =
      elim (classify_power_limit current_w default_w pct) [
        | relay_owned_brake m ↦ some m
        | _ ↦ none
      ]

  -- `pct != BRAKE_FRACTION` is neither `<` nor `>` nor unordered.
  unfoldable pub plan_brake_apply :
      (current default : Option ℕ) → (pct : F) → Result (Option ℕ) ActuatorError
  unfolding plan_readable
  plan_brake_apply current default pct = do
    refuse_if (not ((pct ≼ brake_fraction) && (brake_fraction ≼ pct)))
        (command_failed "unsupported brake fraction")
    current ← ok_or (positive current) power_limit_unavailable
    default ← ok_or (positive default) power_limit_unavailable
    target ← ok_or (unambiguous_brake_target default pct) power_limit_unavailable
    plan_readable current default target

unfoldable pub plan_brake_release :
    (F : Type 0) ⦃float : Float F⦄ → (current default : Option ℕ) → Result ℕ ActuatorError
unfolding classify_power_limit release_of
plan_brake_release F current default = do
  refuse_if (is_none (positive current) || is_none (positive default)) power_limit_unavailable
  release_of (classify_power_limit current default (brake_fraction {F = F}))
