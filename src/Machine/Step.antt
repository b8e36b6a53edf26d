-- ===== src/Machine/Step.antt =====
-- What one evaluation asks for, in every state of the machine, and the invariant of all operations.
use thalamic_relay.Prelude.{
  ◌+◌, ◌≤◌, ◌≡◌, ◌≢◌, ◌↔◌, ◌⊎◌, Bool, true, false, none, arith, u32_max, u64_max,
}
use thalamic_relay.Float.{Float}
use thalamic_relay.Telemetry.Frame.{TelemetryFrame}
use thalamic_relay.Policy.{SafetyPolicy}
use thalamic_relay.Classify.{AssessmentKind, FrameAssessment, classify_frame_with_policy}
use thalamic_relay.Machine.{
  actuator_failure, apply, release, ActuatorOutcome, SafetyMachine, with_policy, seed_brake_applied,
  reported_state, evaluate_assessment, evaluate, record_actuator,
}

-- The kinds on which the machine fails closed.
abbrev pub is_unsafe : AssessmentKind → Bool
is_unsafe AssessmentKind.missing = true
is_unsafe AssessmentKind.invalid = true
is_unsafe AssessmentKind.stale = true
is_unsafe AssessmentKind.critical = true
is_unsafe _ = false

module _ {F : Type 0} where
  pub evaluate_assessment-apply_iff :
      (m : SafetyMachine F) (a : FrameAssessment)
      → ((evaluate_assessment m a).0.intent ≡ apply) ↔ (
          (m.brake_engaged ≡ false)
          × ((is_unsafe a.kind ≡ true)
              ⊎ ((a.kind ≡ AssessmentKind.warn) × (m.just_released ≡ true))))
  unfolding evaluate_assessment
  evaluate_assessment-apply_iff m a = (λ e. (ground arith, ground arith), λ h. ground arith)

  pub evaluate_assessment-release_iff :
      (m : SafetyMachine F) (a : FrameAssessment)
      → m.policy.config.release_ok_streak ≤ u32_max
      → ((evaluate_assessment m a).0.intent ≡ release) ↔ (
          (m.brake_engaged ≡ true)
          × (a.kind ≡ AssessmentKind.ok)
          × (m.policy.config.release_ok_streak ≤ m.ok_count + 1))
  unfolding evaluate_assessment
  evaluate_assessment-release_iff m a h =
      (λ e. (ground arith, ground arith, ground arith), λ k. ground arith)

  -- An evaluation moves neither the claimed brake nor the policy nor the failure count, and clears the
  -- mark of a release.
  pub evaluate_assessment_frame :
      (m : SafetyMachine F) (a : FrameAssessment)
      → let m' = (evaluate_assessment m a).1 in
        (m'.brake_engaged ≡ m.brake_engaged)
        × (m'.policy ≡ m.policy)
        × (m'.just_released ≡ false)
        × (m'.actuator_failures_total ≡ m.actuator_failures_total)
  unfolding evaluate_assessment
  evaluate_assessment_frame m a = (ground arith, ground arith, ground arith, ground arith)

  -- Between two calls the stored state is the one reported, no policy state is the overlay, and every
  -- counter fits its word.
  pub record IsCoherent (m : SafetyMachine F) : Type 0 where
    pub shown : m.state ≡ reported_state m
    pub plain : m.last_policy_state ≢ actuator_failure
    pub ok_fits : m.ok_count ≤ u32_max
    pub transitions_fit : m.transitions_total ≤ u64_max
    pub failures_fit : m.actuator_failures_total ≤ u64_max

  pub with_policy-IsCoherent : (p : SafetyPolicy F) → IsCoherent (with_policy p)
  unfolding with_policy reported_state
  with_policy-IsCoherent p = ground arith

  pub evaluate_assessment-IsCoherent :
      (m : SafetyMachine F) (a : FrameAssessment)
      → IsCoherent m
      → IsCoherent (evaluate_assessment m a).1
  unfolding evaluate_assessment
  evaluate_assessment-IsCoherent m a c = ground arith

  -- Whatever a command ends in, recording it keeps the machine coherent.
  pub record_actuator-IsCoherent :
      (m : SafetyMachine F) (o : ActuatorOutcome)
      → IsCoherent m
      → IsCoherent (record_actuator m o).1
  unfolding record_actuator
  record_actuator-IsCoherent m o c = ground arith

  pub seed_brake_applied-IsCoherent :
      (m : SafetyMachine F)
      → m.last_actuator_error ≡ none
      → IsCoherent m
      → IsCoherent (seed_brake_applied m)
  unfolding seed_brake_applied reported_state
  seed_brake_applied-IsCoherent m e c = ground arith

module _ {F : Type 0} ⦃float : Float F⦄ where
  -- An evaluation asks for the brake exactly when it is not engaged and the frame is missing, invalid,
  -- stale or critical, or a warning directly after a release.
  pub evaluate-apply_iff :
      (m : SafetyMachine F) (f : TelemetryFrame F)
      → let kind = (classify_frame_with_policy f m.policy).kind in
        ((evaluate m f).0.intent ≡ apply) ↔ (
          (m.brake_engaged ≡ false)
          × ((is_unsafe kind ≡ true) ⊎ ((kind ≡ AssessmentKind.warn) × (m.just_released ≡ true))))
  unfolding evaluate
  evaluate-apply_iff m f = evaluate_assessment-apply_iff m (classify_frame_with_policy f m.policy)

  -- An evaluation asks for a release exactly when the brake is engaged, the frame is healthy, and it
  -- completes the streak of the policy. (A streak fits u32.)
  pub evaluate-release_iff :
      (m : SafetyMachine F) (f : TelemetryFrame F)
      → m.policy.config.release_ok_streak ≤ u32_max
      → ((evaluate m f).0.intent ≡ release) ↔ (
          (m.brake_engaged ≡ true)
          × ((classify_frame_with_policy f m.policy).kind ≡ AssessmentKind.ok)
          × (m.policy.config.release_ok_streak ≤ m.ok_count + 1))
  unfolding evaluate
  evaluate-release_iff m f h =
      evaluate_assessment-release_iff m (classify_frame_with_policy f m.policy) h

  -- Whatever the frame, an evaluation keeps the machine coherent: the stored state is the one reported,
  -- the policy state is never the failure overlay, and every counter fits its word.
  pub evaluate-IsCoherent :
      (m : SafetyMachine F) (f : TelemetryFrame F) → IsCoherent m → IsCoherent (evaluate m f).1
  unfolding evaluate
  evaluate-IsCoherent m f c =
      evaluate_assessment-IsCoherent m (classify_frame_with_policy f m.policy) c
