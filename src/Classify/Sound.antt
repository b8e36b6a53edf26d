-- ===== src/Classify/Sound.antt =====
-- When a frame is classified as healthy, as a warning or as critical.
use thalamic_relay.Prelude.{
  ℕ, ◌<◌, ◌≡◌, refl, ◌⊎◌, inl, inr, Option, none, some, Result, Option-cases, Bool, true, false, ap,
  arith, String,
}
use Prim.Native.Nat.{max}
use native.Mathlib.Decide.{dec_le}
use thalamic_relay.Telemetry.{SampleValidity}
use thalamic_relay.Telemetry.Sample.{TelemetrySample}
use thalamic_relay.Telemetry.Frame.{TelemetryFrame}
use thalamic_relay.Classify.{
  AssessmentKind, FrameAssessment, safety_readings, rank_of_validity, sample_fault_rank, worse,
  worst_safety_fault,
}

module _ {F : Type 0} where
  -- Both safety samples are valid and have a value.
  abbrev pub HasReadings : TelemetryFrame F → F → F → Type 0
  HasReadings f t p =
      (f.gpu_temp_c.validity ≡ SampleValidity.valid)
      × (f.gpu_temp_c.value ≡ some t)
      × (f.power_w.validity ≡ SampleValidity.valid)
      × (f.power_w.value ≡ some p)

  -- Where no fault is found, the readings are there: the error arm of `safety_readings` is dead code.
  pub safety_readings_no_fault :
      (f : TelemetryFrame F)
      → worst_safety_fault f ≡ none
      → (t : F) × (p : F) × (safety_readings f ≡ Result.ok (t, p)) × HasReadings f t p
  unfolding safety_readings worst_safety_fault
  safety_readings_no_fault f h = elim (Option-cases f.gpu_temp_c.value) [
    | inl e ↦ absurd (ground arith)
    | inr (t, et) ↦ elim (Option-cases f.power_w.value) [
      | inl e ↦ absurd (ground arith)
      | inr (p, ep) ↦ (t, p, ground arith, ground arith)
    ]
  ]

  pub no_fault_of_readings :
      (f : TelemetryFrame F) (t p : F)
      → HasReadings f t p
      → (worst_safety_fault f ≡ none) × (safety_readings f ≡ Result.ok (t, p))
  unfolding safety_readings worst_safety_fault
  no_fault_of_readings f t p h = ground arith

  -- How bad a sample is: missing, or valid with no value, before invalid before stale before usable.
  abbrev severity_of : SampleValidity → Option F → ℕ
  severity_of SampleValidity.valid none = 3
  severity_of SampleValidity.valid (some v) = 0
  severity_of SampleValidity.stale _ = 1
  severity_of SampleValidity.invalid _ = 2
  severity_of SampleValidity.missing _ = 3

  abbrev pub severity : TelemetrySample F → ℕ
  severity s = severity_of s.validity s.value

abbrev pub severity_of_kind : AssessmentKind → ℕ
severity_of_kind AssessmentKind.stale = 1
severity_of_kind AssessmentKind.invalid = 2
severity_of_kind AssessmentKind.missing = 3
severity_of_kind _ = 0

-- The kinds that come from a comparison of two readings with the limits.
abbrev pub is_measured : AssessmentKind → Bool
is_measured AssessmentKind.critical = true
is_measured AssessmentKind.warn = true
is_measured AssessmentKind.ok = true
is_measured _ = false

module _ {F : Type 0} where
  fault_severity :
      (s : TelemetrySample F) (name : String)
      → ((sample_fault_rank s name ≡ none) × (severity s ≡ 0))
        ⊎ ((a : FrameAssessment) × (sample_fault_rank s name ≡ some (severity s, a))
            × (severity_of_kind a.kind ≡ severity s)
            × (0 < severity s))
  unfolding sample_fault_rank
  fault_severity s name = go s.validity s.value
    where
      go :
          (y : SampleValidity) (v : Option F)
          → ((rank_of_validity y name v ≡ none) × (severity_of y v ≡ 0))
            ⊎ ((a : FrameAssessment) × (rank_of_validity y name v ≡ some (severity_of y v, a))
                × (severity_of_kind a.kind ≡ severity_of y v)
                × (0 < severity_of y v))
      go SampleValidity.valid none = inr (_, refl, refl, omega arith)
      go SampleValidity.valid (some v) = inl (refl, refl)
      go SampleValidity.stale v = inr (_, refl, refl, omega arith)
      go SampleValidity.invalid v = inr (_, refl, refl, omega arith)
      go SampleValidity.missing v = inr (_, refl, refl, omega arith)

  -- The worst fault wins. A fault is reported exactly when one of the two samples is unusable, and its
  -- kind has the greater of their severities: missing before invalid before stale.
  pub worst_safety_fault-severity :
      (f : TelemetryFrame F)
      → let worst = max (severity f.gpu_temp_c) (severity f.power_w) in
        ((worst_safety_fault f ≡ none) × (worst ≡ 0))
        ⊎ ((a : FrameAssessment) × (worst_safety_fault f ≡ some a)
            × (severity_of_kind a.kind ≡ worst)
            × (0 < worst))
  unfolding worst_safety_fault worse
  worst_safety_fault-severity f = elim (fault_severity f.gpu_temp_c "gpu_temp_c") [
    | inl (et, zt) ↦ elim (fault_severity f.power_w "power_w") [
      | inl (ep, zp) ↦ inl (ground arith, omega arith)
      | inr (ap, ep, kp, lp) ↦ inr (ap, ground arith, omega arith, omega arith)
    ]
    | inr (at, et, kt, lt) ↦ elim (fault_severity f.power_w "power_w") [
      | inl (ep, zp) ↦ inr (at, ground arith, omega arith, omega arith)
      | inr (ap, ep, kp, lp) ↦ elim (dec_le (severity f.power_w) (severity f.gpu_temp_c)) [
        | yes h ↦ inr (at, ground arith, omega arith, omega arith)
        | no h ↦ inr (ap, ground arith, omega arith, omega arith)
      ]
    ]
  ]
