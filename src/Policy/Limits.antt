-- ===== src/Policy/Limits.antt =====
-- What a resolved policy guarantees.
use thalamic_relay.Prelude.{
  ℕ, ◌≤◌, ◌≡◌, true, false, Option, none, some, is_some_and, not, ◌||◌, ok, inl, inr, Result-cases,
  arith,
}
use thalamic_relay.Float.{Float, IsFloat, ◌≺◌, ◌≼◌}
use thalamic_relay.Telemetry.{safety_stale_after_ms}
use thalamic_relay.Policy.{SafetyPolicyConfig, SafetyPolicy, PowerLimits, power_limits, resolve}

module _ {F : Type 0} ⦃float : Float F⦄ where
  -- Two finite limits, positive and in order, the upper one within `top` thousandths.
  pub record IsBand (top : ℕ) (warn critical : F) : Type 0 where
    pub warn_finite : float.is_finite warn ≡ true
    pub critical_finite : float.is_finite critical ≡ true
    pub positive : (float.milli 0 ≺ warn) ≡ true
    pub ordered : (warn ≺ critical) ≡ true
    pub capped : (float.milli top ≺ critical) ≡ false

  -- The power limits are missing only where neither the operator nor the device gives any; the
  -- critical one is never above the device default.
  abbrev pub HasPowerBand : (warn critical device_default_w : Option F) → Option (F × F) → Type 0
  HasPowerBand warn critical device none = (warn ≡ none) × (critical ≡ none) × (device ≡ none)
  HasPowerBand warn critical device (some (w, c)) =
      IsBand 2000000 w c × (is_some_and device (λ cap. cap ≺ c) ≡ false)

  pub record IsResolved (device_default_w : Option F) (p : SafetyPolicy F) : Type 0 where
    pub thermal : IsBand 125000 p.config.temp_warn_c p.config.temp_critical_c
    pub streak : 1 ≤ p.config.release_ok_streak
    pub age : p.config.max_sample_age_ms ≤ safety_stale_after_ms
    pub interval_positive : 1 ≤ p.config.max_acquisition_interval_ms
    pub interval : p.config.max_acquisition_interval_ms ≤ p.config.max_sample_age_ms
    pub power :
        HasPowerBand p.config.power_warn_w p.config.power_critical_w device_default_w
          p.power_limits_w

  -- The test that `resolve` makes of the device's own limit.
  abbrev IsSaneDefault : Option F → Type 0
  IsSaneDefault device =
      is_some_and device
        (λ w. not (float.is_finite w) || (w ≼ float.milli 0) || (float.milli 2000000 ≺ w))
      ≡ false

  module _ (laws : IsFloat F) where
    not-lt_self : (w : F) → float.is_finite w ≡ true → (w ≺ w) ≡ false
    not-lt_self w f =
        let n = laws.number_of_finite w f in ground (arith, laws.lt_iff_not_le w w n n)

    power_limits-HasPowerBand :
        (warn critical device : Option F) {l : PowerLimits F}
        → IsSaneDefault device
        → power_limits warn critical device ≡ ok l
        → HasPowerBand warn critical device l.0
    unfolding power_limits
    power_limits-HasPowerBand (some w) (some c) device sane h = ground arith
    power_limits-HasPowerBand none none none sane h = ground arith
    power_limits-HasPowerBand none none (some d) sane h = ground (arith, not-lt_self d)
    power_limits-HasPowerBand none (some c) device sane h = cc
    power_limits-HasPowerBand (some w) none device sane h = cc

    -- Whatever `resolve` accepts, it keeps the configuration, and every limit is finite, positive, in
    -- order and under its cap; the streak and the acquisition interval are at least 1, the interval is
    -- at most the sample age and the sample age at most 2000 ms. Power limits are missing only where
    -- neither the operator nor the device gives any, and never exceed a known device default.
    pub resolve-IsResolved :
        (c : SafetyPolicyConfig F) (device_default_w : Option F) {p : SafetyPolicy F}
        → resolve c device_default_w ≡ ok p
        → (p.config ≡ c) × IsResolved device_default_w p
    unfolding resolve
    resolve-IsResolved c device {p} h =
        elim (Result-cases (power_limits c.power_warn_w c.power_critical_w device)) [
          | inl (l, e) ↦
              let same : p.config ≡ c = ground arith in
              let limits : p.power_limits_w ≡ l.0 = ground arith in
              let sane : IsSaneDefault device = ground arith in
              (
                same,
                rw (same, limits)
                    (record {
                      thermal = ground arith;
                      streak = ground arith;
                      age = ground arith;
                      interval_positive = ground arith;
                      interval = ground arith;
                      power = power_limits-HasPowerBand _ _ device sane e;
                    }),
              )
          | inr (x, e) ↦ absurd (ground (arith, e))
        ]
