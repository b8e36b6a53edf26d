-- ===== src/Policy.antt =====
-- src/safety/policy.rs: the operator's limits, and the policy that they resolve to.
use thalamic_relay.Prelude.{
  ℕ, Bool, true, false, ◌&&◌, ◌||◌, not, ltb, ◌==◌, if◌then◌else◌, Option, none, some, is_some_and,
  String, Result, ok, err, ◌>>=◌, ◌>>◌, refuse_if,
}
use thalamic_relay.Float.{Float, ◌≺◌, ◌≼◌}
use thalamic_relay.Telemetry.{safety_stale_after_ms, default_acquisition_cadence_ms}
pub mod Limits

abbrev pub release_ok_streak : ℕ
release_ok_streak = 3

pub record SafetyPolicyConfig (F : Type 0) : Type 0 where
  pub temp_warn_c : F
  pub temp_critical_c : F
  pub power_warn_w : Option F
  pub power_critical_w : Option F
  pub release_ok_streak : ℕ
  pub max_sample_age_ms : ℕ
  pub max_acquisition_interval_ms : ℕ

pub record SafetyPolicy (F : Type 0) : Type 0 where
  pub config : SafetyPolicyConfig F
  pub power_limits_w : Option (F × F)
  pub power_limit_source : String

pub data PolicyError : Type 0 where
  policy_error : String → PolicyError

-- The warning and critical watts, and where they come from.
abbrev pub PowerLimits : Type 0 → Type 0
PowerLimits F = Option (F × F) × String

module _ {F : Type 0} ⦃float : Float F⦄ where
  -- `SafetyPolicyConfig::default`.
  unfoldable pub default : SafetyPolicyConfig F
  default = record {
    temp_warn_c = float.milli 75000;
    temp_critical_c = float.milli 85000;
    power_warn_w = none;
    power_critical_w = none;
    release_ok_streak = release_ok_streak;
    max_sample_age_ms = safety_stale_after_ms;
    max_acquisition_interval_ms = default_acquisition_cadence_ms;
  }

  -- The closure `ordered_positive` of `resolve`.
  abbrev pub ordered_positive : F → F → Bool
  ordered_positive a b = float.is_finite a && float.is_finite b && (float.milli 0 ≺ a) && (a ≺ b)

  -- The arm of `resolve` for two explicit limits.
  operator_limits : (warn critical : F) → Option F → Result (PowerLimits F) PolicyError
  operator_limits warn critical device_default_w = do
    refuse_if (not (ordered_positive warn critical) || (float.milli 2000000 ≺ critical))
        (policy_error "power limits must be finite: 0 < warning < critical <= 2000 W")
    refuse_if (is_some_and device_default_w (λ cap. cap ≺ critical))
        (policy_error "explicit critical power exceeds the device default power limit")
    ok (some (warn, critical), "operator")

  -- The arm for none.
  device_limits : Option F → Result (PowerLimits F) PolicyError
  device_limits none = ok (none, "unavailable")
  device_limits (some w) =
      let warn = float.mul w (float.milli 850) in
      if ordered_positive warn w
      then ok (some (warn, w), "device_default")
      else err (policy_error "device default is too small to derive power limits")

  unfoldable pub power_limits :
      (warn critical device_default_w : Option F) → Result (PowerLimits F) PolicyError
  unfolding operator_limits device_limits
  power_limits (some warn) (some critical) device_default_w =
      operator_limits warn critical device_default_w
  power_limits none none device_default_w = device_limits device_default_w
  power_limits _ _ device_default_w =
      err (policy_error "power warning and critical overrides must be supplied together")

  -- `SafetyPolicyConfig::resolve`.
  unfoldable pub resolve : SafetyPolicyConfig F → Option F → Result (SafetyPolicy F) PolicyError
  unfolding power_limits
  resolve c device_default_w = do
    refuse_if
        (not (ordered_positive c.temp_warn_c c.temp_critical_c)
          || (float.milli 125000 ≺ c.temp_critical_c))
        (policy_error "temperature limits must be finite: 0 < warning < critical <= 125 C")
    refuse_if (c.release_ok_streak == 0) (policy_error "release Ok streak must be positive")
    refuse_if (c.max_sample_age_ms == 0 || ltb safety_stale_after_ms c.max_sample_age_ms)
        (policy_error "maximum sample age must be in 1..=2000 ms")
    refuse_if
        (c.max_acquisition_interval_ms == 0
          || ltb c.max_sample_age_ms c.max_acquisition_interval_ms)
        (policy_error
          "maximum acquisition interval must be positive and no greater than maximum sample age")
    refuse_if
        (is_some_and device_default_w
          (λ w. not (float.is_finite w) || (w ≼ float.milli 0) || (float.milli 2000000 ≺ w)))
        (policy_error "device default power limit must be finite and in (0, 2000] W")
    limits ← power_limits c.power_warn_w c.power_critical_w device_default_w
    ok (record { config = c; power_limits_w = limits.0; power_limit_source = limits.1 })
