-- ===== src/Machine/Release.antt =====
-- What the machine reports after an evaluation and after a command, beside what the call returned.
use thalamic_relay.Prelude.{◌≡◌, ◌↔◌, true, false, arith}
use thalamic_relay.Float.{Float}
use thalamic_relay.Telemetry.Frame.{TelemetryFrame}
use thalamic_relay.Classify.{AssessmentKind, FrameAssessment, classify_frame_with_policy}
use thalamic_relay.Machine.{
  healthy_real, hold, apply, release, applied, released, SafetyMachine, snapshot,
  evaluate_assessment, evaluate, record_actuator,
}

module _ {F : Type 0} where
  snapshot-evaluate_assessment :
      (m : SafetyMachine F) (a : FrameAssessment)
      → let (snap, m') = evaluate_assessment m a in
        ((snapshot m').desired_brake ≡ snap.desired_brake) ↔ (
          ¬ ((m.brake_engaged ≡ false) × (m.just_released ≡ true) × (a.kind ≡ AssessmentKind.warn)))
  unfolding snapshot evaluate_assessment
  snapshot-evaluate_assessment m a = (λ e h. ground arith, λ h. ground arith)

  record_released :
      (m : SafetyMachine F)
      → let m' = (record_actuator m released).1 in
        (m'.brake_engaged ≡ false) × (m'.just_released ≡ true) × (m'.policy ≡ m.policy)
  unfolding record_actuator
  record_released m = (ground arith, ground arith, ground arith)

  evaluate_assessment_rebrake :
      (m : SafetyMachine F) (a : FrameAssessment)
      → m.brake_engaged ≡ false
      → m.just_released ≡ true
      → a.kind ≡ AssessmentKind.warn
      → let (snap, m') = evaluate_assessment m a in
        (snap.intent ≡ apply) × ((snapshot m').intent ≡ hold)
  unfolding snapshot evaluate_assessment
  evaluate_assessment_rebrake m a e j k = (ground arith, ground arith)

  -- A brake whose application is recorded after a healthy evaluation is reported for release at once,
  -- whatever the streak of the policy.
  pub record_actuator-applied_healthy :
      (m : SafetyMachine F)
      → m.last_policy_state ≡ healthy_real
      → let snap = (record_actuator m applied).0 in
        (snap.brake_engaged ≡ true)
        × (snap.intent ≡ release)
        × (snap.hysteresis_ok_count ≡ m.ok_count)
  unfolding record_actuator
  record_actuator-applied_healthy m e = (ground arith, ground arith, ground arith)

module _ {F : Type 0} ⦃float : Float F⦄ where
  -- After an evaluation the machine still reports the brake wish that the evaluation returned, exactly
  -- unless the frame was a warning directly after a release: then the wish is lost.
  pub snapshot-evaluate_iff :
      (m : SafetyMachine F) (f : TelemetryFrame F)
      → let (snap, m') = evaluate m f in
        ((snapshot m').desired_brake ≡ snap.desired_brake) ↔ (
          ¬ (
            (m.brake_engaged ≡ false)
            × (m.just_released ≡ true)
            × ((classify_frame_with_policy f m.policy).kind ≡ AssessmentKind.warn)))
  unfolding evaluate
  snapshot-evaluate_iff m f = snapshot-evaluate_assessment m (classify_frame_with_policy f m.policy)

  -- For every machine that records a successful release and then evaluates a warning frame: the
  -- evaluation asks to brake again, and the machine's own snapshot asks for nothing.
  pub snapshot_loses_rebrake :
      (m : SafetyMachine F) (f : TelemetryFrame F)
      → (classify_frame_with_policy f m.policy).kind ≡ AssessmentKind.warn
      → let (snap, m') = evaluate (record_actuator m released).1 f in
        (snap.intent ≡ apply) × ((snapshot m').intent ≡ hold)
  unfolding evaluate
  snapshot_loses_rebrake m f k =
      let (free, just, same) = record_released m in
      evaluate_assessment_rebrake _ (classify_frame_with_policy f _) free just (rw same k)
