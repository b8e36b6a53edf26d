-- ===== src/Classify.antt =====
-- src/safety.rs: the classification of one frame, without state. The two safety signals are the die
-- temperature and the board power.
use thalamic_relay.Prelude.{
  ℕ, ◌-◌, Bool, true, false, ◌&&◌, ◌||◌, not, ltb, leb, if◌then◌else◌, Option, none, some, is_none,
  String, Result, ◌>>=◌, ok_or, concat, contains, List, [], ◌∷◌,
}
use thalamic_relay.Float.{Float, ◌≺◌, ◌≼◌}
use thalamic_relay.Telemetry.{TelemetrySource, SampleValidity}
use thalamic_relay.Telemetry.Sample.{TelemetrySample}
use thalamic_relay.Telemetry.Frame.{TelemetryFrame}
use thalamic_relay.Policy.{SafetyPolicy}
pub mod Sound
pub mod Grade
pub mod Assessed

pub data SafetyStatus : Type 0 where
  ok : SafetyStatus
  warn critical : String → SafetyStatus

pub data AssessmentKind : Type 0 where
  simulated missing invalid stale critical warn ok : AssessmentKind

pub record FrameAssessment : Type 0 where
  pub kind : AssessmentKind
  pub reason : String

abbrev assessment : AssessmentKind → String → FrameAssessment
assessment kind reason = record { kind = kind; reason = reason }

unfoldable pub kind_from_critical_status : SafetyStatus → AssessmentKind
kind_from_critical_status (SafetyStatus.critical msg) =
    if contains msg "missing"
    then AssessmentKind.missing
    else if contains msg "invalid"
    then AssessmentKind.invalid
    else if contains msg "stale"
    then AssessmentKind.stale
    else AssessmentKind.critical
kind_from_critical_status (SafetyStatus.warn msg) = AssessmentKind.warn
kind_from_critical_status SafetyStatus.ok = AssessmentKind.ok

unfoldable pub status_reason : SafetyStatus → String
status_reason SafetyStatus.ok = "ok"
status_reason (SafetyStatus.warn msg) = msg
status_reason (SafetyStatus.critical msg) = msg

-- The text `Invalid telemetry: {name} {label}`.
abbrev fault_text : String → String → String
fault_text name label = concat ("Invalid telemetry: " ∷ name ∷ " " ∷ label ∷ [])

-- The `match` on the faults of the two signals.
worse : Option (ℕ × FrameAssessment) → Option (ℕ × FrameAssessment) → Option FrameAssessment
worse none none = none
worse (some (r, a)) none = some a
worse none (some (r, a)) = some a
worse (some (rt, at)) (some (rp, ap)) = if leb rp rt then some at else some ap

-- The `match` of `instant_status_with_policy`.
status_of : FrameAssessment → AssessmentKind → SafetyStatus × Bool
status_of a AssessmentKind.simulated = (SafetyStatus.ok, true)
status_of a AssessmentKind.warn = (SafetyStatus.warn a.reason, false)
status_of a AssessmentKind.ok = (SafetyStatus.ok, false)
status_of a _ = (SafetyStatus.critical a.reason, false)

module _ {F : Type 0} where
  value_of_validity : SampleValidity → String → Option F → Result F SafetyStatus
  value_of_validity SampleValidity.missing name v =
      Result.err (SafetyStatus.critical (fault_text name "missing"))
  value_of_validity SampleValidity.invalid name v =
      Result.err (SafetyStatus.critical (fault_text name "invalid"))
  value_of_validity SampleValidity.stale name v =
      Result.err (SafetyStatus.critical (fault_text name "stale"))
  value_of_validity SampleValidity.valid name v =
      ok_or v (SafetyStatus.critical (fault_text name "missing"))

  unfoldable pub safety_value : String → TelemetrySample F → Result F SafetyStatus
  unfolding value_of_validity
  safety_value name s = value_of_validity s.validity name s.value

  unfoldable pub safety_readings : TelemetryFrame F → Result (F × F) SafetyStatus
  unfolding safety_value
  safety_readings f = do
    t ← safety_value "gpu_temp_c" f.gpu_temp_c
    p ← safety_value "power_w" f.power_w
    Result.ok (t, p)

  rank_of_validity : SampleValidity → String → Option F → Option (ℕ × FrameAssessment)
  rank_of_validity SampleValidity.valid name v =
      if is_none v
      then some (3, assessment AssessmentKind.missing (fault_text name "missing"))
      else none
  rank_of_validity SampleValidity.stale name v =
      some (1, assessment AssessmentKind.stale (fault_text name "stale"))
  rank_of_validity SampleValidity.invalid name v =
      some (2, assessment AssessmentKind.invalid (fault_text name "invalid"))
  rank_of_validity SampleValidity.missing name v =
      some (3, assessment AssessmentKind.missing (fault_text name "missing"))

  unfoldable pub sample_fault_rank : TelemetrySample F → String → Option (ℕ × FrameAssessment)
  unfolding rank_of_validity
  sample_fault_rank s name = rank_of_validity s.validity name s.value

  unfoldable pub worst_safety_fault : TelemetryFrame F → Option FrameAssessment
  unfolding worse sample_fault_rank
  worst_safety_fault f =
      worse (sample_fault_rank f.gpu_temp_c "gpu_temp_c") (sample_fault_rank f.power_w "power_w")

is_simulated : TelemetrySource → Bool
is_simulated TelemetrySource.software_fallback = true
is_simulated _ = false

module _ {F : Type 0} ⦃float : Float F⦄ where
  -- The comparisons of the readings with the four limits.
  against_limits : SafetyPolicy F → (gpu_temp_c power_w : F) → Option (F × F) → FrameAssessment
  against_limits policy t p none =
      assessment AssessmentKind.missing
        "power policy unavailable: provide device default or explicit limits"
  against_limits policy t p (some (power_warn_w, power_critical_w)) =
      let temp_critical_c = policy.config.temp_critical_c in
      if temp_critical_c ≺ t
      then assessment AssessmentKind.critical (
          concat (
            "GPU thermal: "
            ∷ float.show_rounded t
            ∷ "°C exceeds "
            ∷ float.show_rounded temp_critical_c
            ∷ "°C"
            ∷ []))
      else if power_critical_w ≺ p
      then assessment AssessmentKind.critical (
          concat (
            "GPU power: "
            ∷ float.show_rounded p
            ∷ "W exceeds "
            ∷ float.show_rounded power_critical_w
            ∷ "W safety limit"
            ∷ []))
      else if policy.config.temp_warn_c ≼ t
      then assessment AssessmentKind.warn (
          concat (
            "GPU thermal: "
            ∷ float.show_rounded t
            ∷ "°C approaching "
            ∷ float.show_rounded temp_critical_c
            ∷ "°C limit"
            ∷ []))
      else if power_warn_w ≼ p
      then assessment AssessmentKind.warn
          (concat ("GPU power: " ∷ float.show_rounded p ∷ "W approaching safety limit" ∷ []))
      else assessment AssessmentKind.ok "healthy real telemetry"

  -- The age and interval limits of the policy.
  too_old : TelemetryFrame F → SafetyPolicy F → Bool
  too_old f policy =
      ltb policy.config.max_acquisition_interval_ms f.acquisition_cadence_ms
      || leb policy.config.max_sample_age_ms (f.acquired_at - f.gpu_temp_c.observed_at)
      || leb policy.config.max_sample_age_ms (f.acquired_at - f.power_w.observed_at)

  judge_readings : TelemetryFrame F → SafetyPolicy F → Result (F × F) SafetyStatus → FrameAssessment
  unfolding too_old against_limits kind_from_critical_status status_reason
  judge_readings f policy (Result.err status) =
      assessment (kind_from_critical_status status) (status_reason status)
  judge_readings f policy (Result.ok (t, p)) =
      if too_old f policy
      then assessment AssessmentKind.stale
          "sample age or acquisition interval exceeds safety policy"
      else against_limits policy t p policy.power_limits_w

  -- `classify_frame_with_policy`.
  unfoldable pub classify_frame_with_policy : TelemetryFrame F → SafetyPolicy F → FrameAssessment
  unfolding is_simulated worst_safety_fault safety_readings judge_readings
  classify_frame_with_policy f policy =
      if is_simulated f.source
      then assessment AssessmentKind.simulated "telemetry source is SoftwareFallback"
      else elim (worst_safety_fault f) [
        | some fault ↦ fault
        | none ↦ judge_readings f policy (safety_readings f)
      ]

  unfoldable pub instant_status_with_policy :
      TelemetryFrame F → SafetyPolicy F → SafetyStatus × Bool
  unfolding status_of classify_frame_with_policy
  instant_status_with_policy f policy =
      let a = classify_frame_with_policy f policy in status_of a a.kind
