-- ===== src/Classify/Grade.antt =====
-- The frames whose kind comes from their readings, and the kind that the limits give them.
use thalamic_relay.Prelude.{
  ◌-◌, ◌≤◌, ◌<◌, ◌≡◌, ◌≢◌, ◌↔◌, ◌⊎◌, inl, inr, true, some, Option-cases, ap, ◌∙◌, sym, arith,
}
use thalamic_relay.Float.{Float, ◌≺◌, ◌≼◌}
use thalamic_relay.Telemetry.{TelemetrySource}
use thalamic_relay.Telemetry.Frame.{TelemetryFrame}
use thalamic_relay.Policy.{SafetyPolicy}
use thalamic_relay.Classify.{
  AssessmentKind, FrameAssessment, too_old, against_limits, classify_frame_with_policy,
}
use thalamic_relay.Classify.Sound.{
  HasReadings, safety_readings_no_fault, no_fault_of_readings, worst_safety_fault-severity,
  is_measured,
}

module _ {F : Type 0} ⦃float : Float F⦄ where
  -- What has to hold before readings are compared with limits: a real source, two valid samples, an
  -- acquisition interval and two sample ages that the policy allows, and power limits.
  pub record IsLive (f : TelemetryFrame F) (policy : SafetyPolicy F)
      (t p power_warn power_critical : F) : Type 0 where
    pub real : f.source ≢ TelemetrySource.software_fallback
    pub readings : HasReadings f t p
    pub interval : f.acquisition_cadence_ms ≤ policy.config.max_acquisition_interval_ms
    pub temp_age : f.acquired_at - f.gpu_temp_c.observed_at < policy.config.max_sample_age_ms
    pub power_age : f.acquired_at - f.power_w.observed_at < policy.config.max_sample_age_ms
    pub limits : policy.power_limits_w ≡ some (power_warn, power_critical)

  abbrev IsAboveCritical : SafetyPolicy F → (t p power_critical : F) → Type 0
  IsAboveCritical policy t p power_critical =
      ((policy.config.temp_critical_c ≺ t) ≡ true) ⊎ ((power_critical ≺ p) ≡ true)

  abbrev IsAtWarning : SafetyPolicy F → (t p power_warn : F) → Type 0
  IsAtWarning policy t p power_warn =
      ((policy.config.temp_warn_c ≼ t) ≡ true) ⊎ ((power_warn ≼ p) ≡ true)

  -- Critical above a critical limit, a warning at or above a warning limit, healthy below both.
  abbrev pub Grade : AssessmentKind → SafetyPolicy F → (t p power_warn power_critical : F) → Type 0
  Grade AssessmentKind.critical policy t p pw pc = IsAboveCritical policy t p pc
  Grade AssessmentKind.warn policy t p pw pc =
      (¬ IsAboveCritical policy t p pc) × IsAtWarning policy t p pw
  Grade AssessmentKind.ok policy t p pw pc =
      (¬ IsAboveCritical policy t p pc) × (¬ IsAtWarning policy t p pw)
  Grade _ policy t p pw pc = ⊥

  against_limits-Grade :
      (policy : SafetyPolicy F) (t p pw pc : F) (k : AssessmentKind)
      → ((against_limits policy t p (some (pw, pc))).kind ≡ k) ↔ Grade k policy t p pw pc
  unfolding against_limits
  against_limits-Grade policy t p pw pc AssessmentKind.critical =
      (λ e. ground arith, λ h. ground arith)
  against_limits-Grade policy t p pw pc AssessmentKind.warn = (λ e. ground arith, λ h. ground arith)
  against_limits-Grade policy t p pw pc AssessmentKind.ok = (λ e. ground arith, λ h. ground arith)
  against_limits-Grade policy t p pw pc _ = (λ e. ground arith, λ h. elim h [ ])

  classify_live :
      (f : TelemetryFrame F) (policy : SafetyPolicy F) (t p pw pc : F)
      → IsLive f policy t p pw pc
      → classify_frame_with_policy f policy ≡ against_limits policy t p (some (pw, pc))
  unfolding classify_frame_with_policy
  classify_live f policy t p pw pc live = ground (arith, no_fault_of_readings f t p live.readings)

  IsLive-of_measured :
      (f : TelemetryFrame F) (policy : SafetyPolicy F)
      → is_measured (classify_frame_with_policy f policy).kind ≡ true
      → (t : F) × (p : F) × (pw : F) × (pc : F) × IsLive f policy t p pw pc
  unfolding classify_frame_with_policy too_old
  IsLive-of_measured f policy m = elim (worst_safety_fault-severity f) [
    | inr (a, e, same, pos) ↦ absurd (ground arith)
    | inl (e, usable) ↦
        let (t, p, er, readings) = safety_readings_no_fault f e in
        elim (Option-cases policy.power_limits_w) [
          | inl el ↦ absurd (ground arith)
          | inr ((pw, pc), el) ↦ (
            t,
            p,
            pw,
            pc,
            record {
              real = λ sim. ground arith;
              readings = readings;
              interval = ground arith;
              temp_age = ground arith;
              power_age = ground arith;
              limits = el;
            },
          )
        ]
  ]

  -- A frame is critical, a warning or healthy exactly when it is live (a real source, two valid
  -- samples, ages and interval within the policy, power limits known) and its readings have that
  -- grade: critical strictly above a critical limit, else a warning at or above a warning limit, else
  -- healthy. In every other case it is simulated, missing, invalid or stale.
  pub classify_frame_with_policy-Grade :
      (f : TelemetryFrame F) (policy : SafetyPolicy F) (k : AssessmentKind)
      → is_measured k ≡ true
      → ((classify_frame_with_policy f policy).kind ≡ k) ↔ (
          (t : F) × (p : F) × (pw : F) × (pc : F) × IsLive f policy t p pw pc
          × Grade k policy t p pw pc)
  classify_frame_with_policy-Grade f policy k m = (
    λ e.
        let (t, p, pw, pc, live) = IsLive-of_measured f policy (rw e m) in
        (
          t,
          p,
          pw,
          pc,
          live,
          (against_limits-Grade policy t p pw pc k).0 (
              ap (λ (a : FrameAssessment). a.kind) (sym (classify_live f policy t p pw pc live))
              ∙ e),
        ),
    λ (t, p, pw, pc, live, g).
        ap (λ (a : FrameAssessment). a.kind) (classify_live f policy t p pw pc live)
        ∙ (against_limits-Grade policy t p pw pc k).1 g,
  )
