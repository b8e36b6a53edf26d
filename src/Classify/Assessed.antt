-- ===== src/Classify/Assessed.antt =====
-- From raw readings to a classification: what a healthy frame says of the device.
use thalamic_relay.Prelude.{
  ℕ, ◌-◌, ◌≤◌, ◌<◌, ◌≡◌, refl, ◌∙◌, sym, ap, subst, ◌≢◌, true, Option, some, ok, inl, inr,
  unwrap_or, arith,
}
use mathlib.Core.Option.{some-injective}
use thalamic_relay.Float.{Float, IsFloat, ◌≺◌, ◌≼◌}
use thalamic_relay.Time.{UnixMillis, SampleClock}
use thalamic_relay.Telemetry.{TelemetrySource, valid, SignalId, stale_after_ms}
use thalamic_relay.Telemetry.Sample.{TelemetrySample, from_raw_with_stale_after}
use thalamic_relay.Telemetry.Sample.Usable.{from_raw-valid_iff, from_raw-value}
use thalamic_relay.Telemetry.Frame.{
  RawTelemetry, TelemetryFrame, value, sample_of, from_raw_with_clock,
}
use thalamic_relay.Telemetry.Frame.Assembled.{from_raw_with_clock_frame}
use thalamic_relay.Policy.{SafetyPolicyConfig, SafetyPolicy, resolve}
use thalamic_relay.Policy.Limits.{IsResolved, HasPowerBand, resolve-IsResolved}
use thalamic_relay.Classify.{AssessmentKind, classify_frame_with_policy}
use thalamic_relay.Classify.Grade.{classify_frame_with_policy-Grade}

module _ {F : Type 0} ⦃float : Float F⦄ where
  sample_observed_at :
      (id : SignalId) (v : Option F) (observed : UnixMillis) (source : TelemetrySource)
      (now : UnixMillis) (limit : ℕ)
      → (from_raw_with_stale_after id v observed source now limit).observed_at ≡ observed
  unfolding from_raw_with_stale_after
  sample_observed_at id v observed source now limit = refl

module _ {F : Type 0} ⦃float : Float F⦄ (laws : IsFloat F) where
  lt_of_not_le :
      (x limit : F)
      → float.is_finite x ≡ true
      → float.is_finite limit ≡ true
      → ¬ ((limit ≼ x) ≡ true)
      → (x ≺ limit) ≡ true
  lt_of_not_le x limit fx fl h = ground (
    arith,
    laws.lt_iff_not_le x limit (laws.number_of_finite x fx) (laws.number_of_finite limit fl),
  )

  sample_of-usable :
      (raw : RawTelemetry F) (now : UnixMillis) (cadence_ms : ℕ) (id : SignalId) {v : F}
      → (sample_of raw now cadence_ms id).validity ≡ valid
      → (sample_of raw now cadence_ms id).value ≡ some v
      → let observed = unwrap_or raw.source_unix_ms now in
        (value raw id ≡ some v)
        × (float.is_finite v ≡ true)
        × (observed ≤ now)
        × ((sample_of raw now cadence_ms id).observed_at ≡ observed)
  unfolding sample_of
  sample_of-usable raw now cadence_ms id e is =
      let observed = unwrap_or raw.source_unix_ms now in
      let limit = stale_after_ms F id cadence_ms in
      let (v', is', finite, low, high, past, fresh) =
        (from_raw-valid_iff laws id (value raw id) observed raw.source now limit).0 e in
      let (kept, same) = from_raw-value laws id (value raw id) observed raw.source now limit e in
      let same_value = some-injective _ _ (sym is' ∙ sym kept ∙ is) in
      (
        sym kept ∙ is,
        rw (← same_value) finite,
        past,
        sample_observed_at id _ observed raw.source now limit,
      )

  warn_finite_of :
      {device : Option F} {policy : SafetyPolicy F} {pw pc : F}
      → IsResolved device policy
      → policy.power_limits_w ≡ some (pw, pc)
      → float.is_finite pw ≡ true
  warn_finite_of {device} {policy} resolved e =
      let power =
        subst (λ l. HasPowerBand policy.config.power_warn_w policy.config.power_critical_w device l)
          e resolved.power in
      power.0.warn_finite

  -- What the raw readings behind a healthy frame are: from a real source, both present and finite, not
  -- from the future, younger than the policy's limit, and strictly below both warning limits.
  abbrev pub IsSafe : RawTelemetry F → UnixMillis → SafetyPolicy F → Type 0
  IsSafe raw now policy =
      let observed = unwrap_or raw.source_unix_ms now in
      (raw.source ≢ TelemetrySource.software_fallback)
      × ((t : F) × (p : F) × (power_warn : F) × (power_critical : F) × (raw.gpu_temp_c ≡ some t)
          × (raw.power_w ≡ some p)
          × (policy.power_limits_w ≡ some (power_warn, power_critical))
          × (float.is_finite t ≡ true)
          × (float.is_finite p ≡ true)
          × (observed ≤ now)
          × (now - observed < policy.config.max_sample_age_ms)
          × ((t ≺ policy.config.temp_warn_c) ≡ true)
          × ((p ≺ power_warn) ≡ true))

  -- Under a policy that `resolve` accepted, a frame that was assessed from raw readings is classified
  -- as healthy only if those readings are safe: a real source, both present, finite, not from the
  -- future, young enough, and strictly below both warning limits. (`laws` are those of f32.)
  pub classify_frame_with_policy-IsSafe :
      (c : SafetyPolicyConfig F) (device_default_w : Option F) (raw : RawTelemetry F)
      (now : UnixMillis) (cadence_ms : ℕ) (clock : SampleClock) {policy : SafetyPolicy F}
      {f : TelemetryFrame F} {clock' : SampleClock}
      → resolve c device_default_w ≡ ok policy
      → from_raw_with_clock raw now cadence_ms clock ≡ some (f, clock')
      → (classify_frame_with_policy f policy).kind ≡ AssessmentKind.ok
      → IsSafe raw now policy
  unfolding value
  classify_frame_with_policy-IsSafe c device raw now cadence_ms clock {policy} {f} resolved made
        healthy =
      let (same, limits) = resolve-IsResolved laws c device resolved in
      let (source, at, received, interval, all, ft, fp) =
        from_raw_with_clock_frame raw now cadence_ms clock made in
      let (t, p, pw, pc, live, grade) =
        (classify_frame_with_policy-Grade f policy AssessmentKind.ok refl).0 healthy in
      let (vt, it, vp, ip) = live.readings in
      let (rt, finite_t, past, ot) =
        sample_of-usable raw now cadence_ms SignalId.gpu_temp_c
          (ap (λ (s : TelemetrySample F). s.validity) (sym ft) ∙ vt)
          (ap (λ (s : TelemetrySample F). s.value) (sym ft) ∙ it) in
      let (rp, finite_p, past_p, op) =
        sample_of-usable raw now cadence_ms SignalId.power_w
          (ap (λ (s : TelemetrySample F). s.validity) (sym fp) ∙ vp)
          (ap (λ (s : TelemetrySample F). s.value) (sym fp) ∙ ip) in
      let observed_at : f.gpu_temp_c.observed_at ≡ unwrap_or raw.source_unix_ms now =
        ap (λ (s : TelemetrySample F). s.observed_at) ft ∙ ot in
      let age = live.temp_age in
      (
        λ sim. live.real (source ∙ sim),
        (
          t,
          p,
          pw,
          pc,
          rt,
          rp,
          live.limits,
          finite_t,
          finite_p,
          past,
          omega arith,
          lt_of_not_le t _ finite_t limits.thermal.warn_finite (λ e. grade.1 (inl e)),
          lt_of_not_le p pw finite_p (warn_finite_of limits live.limits) (λ e. grade.1 (inr e)),
        ),
      )
