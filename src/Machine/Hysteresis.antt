-- ===== src/Machine/Hysteresis.antt =====
-- Histories of a machine: no release before the streak, and a release after it.
use thalamic_relay.Prelude.{
  ℕ, suc, ◌+◌, ◌≤◌, ◌≡◌, refl, ◌↔◌, Bool, true, false, List, [], ◌∷◌, map, arith, u32_max, length,
  All, if◌then◌else◌, ◌∙◌,
}
use thalamic_relay.Float.{Float}
use thalamic_relay.Telemetry.Frame.{TelemetryFrame}
use thalamic_relay.Policy.{SafetyPolicy}
use thalamic_relay.Classify.{AssessmentKind, FrameAssessment, classify_frame_with_policy}
use thalamic_relay.Machine.{
  release, ActuatorOutcome, applied, released, apply_failed, release_failed, SafetyMachine,
  evaluate_assessment, evaluate, record_actuator,
}
use thalamic_relay.Machine.Step.{evaluate-release_iff, evaluate_assessment_frame}

is_ok : AssessmentKind → Bool
is_ok AssessmentKind.ok = true
is_ok _ = false

-- A call of the machine.
pub data Call (F : Type 0) : Type 0 where
  evaluates : TelemetryFrame F → Call F
  records : ActuatorOutcome → Call F

module _ {F : Type 0} ⦃float : Float F⦄ where
  unfoldable pub after : SafetyMachine F → Call F → SafetyMachine F
  after m (evaluates f) = (evaluate m f).1
  after m (records o) = (record_actuator m o).1

  -- A history, newest call first.
  unfoldable pub run : SafetyMachine F → List (Call F) → SafetyMachine F
  run m [] = m
  run m (c ∷ past) = after (run m past) c

  -- How many evaluations at the end of a history found a healthy frame, one after the other. Commands
  -- in between do not break the row, but for a successful release.
  unfoldable pub trailing_ok : SafetyPolicy F → List (Call F) → ℕ
  unfolding is_ok
  trailing_ok p [] = 0
  trailing_ok p (evaluates f ∷ past) =
      if is_ok (classify_frame_with_policy f p).kind then suc (trailing_ok p past) else 0
  trailing_ok p (records released ∷ past) = 0
  trailing_ok p (records _ ∷ past) = trailing_ok p past

  evaluate_ok_count :
      (m : SafetyMachine F) (a : FrameAssessment)
      → (evaluate_assessment m a).1.ok_count ≤ (if is_ok a.kind then suc m.ok_count else 0)
  unfolding evaluate_assessment is_ok
  evaluate_ok_count m a = ground arith

  record_actuator_frame :
      (m : SafetyMachine F) (o : ActuatorOutcome)
      → ((record_actuator m o).1.ok_count ≤ m.ok_count)
        × ((record_actuator m o).1.policy ≡ m.policy)
        × (o ≡ released → (record_actuator m o).1.ok_count ≡ 0)
  unfolding record_actuator
  record_actuator_frame m o = (ground arith, ground arith, ground arith)

  pub after_ok_count :
      (m : SafetyMachine F) (p : SafetyPolicy F) (c : Call F) (past : List (Call F))
      → m.policy ≡ p
      → m.ok_count ≤ trailing_ok p past
      → ((after m c).policy ≡ p) × ((after m c).ok_count ≤ trailing_ok p (c ∷ past))
  unfolding after trailing_ok evaluate
  after_ok_count m p (evaluates f) past same h =
      let a = classify_frame_with_policy f m.policy in
      let count = rw same at (evaluate_ok_count m (classify_frame_with_policy f m.policy)) in
      (ground (arith, evaluate_assessment_frame m a), ground (arith, evaluate_ok_count m a))
  after_ok_count m p (records applied) past same h = ground (arith, record_actuator_frame m applied)
  after_ok_count m p (records released) past same h =
      ground (arith, record_actuator_frame m released)
  after_ok_count m p (records (apply_failed e)) past same h =
      ground (arith, record_actuator_frame m (apply_failed e))
  after_ok_count m p (records (release_failed e)) past same h =
      ground (arith, record_actuator_frame m (release_failed e))

  -- The streak that the machine holds never exceeds the healthy frames at the end of the history.
  run_ok_count :
      (m : SafetyMachine F) (past : List (Call F))
      → m.ok_count ≡ 0
      → ((run m past).policy ≡ m.policy) × ((run m past).ok_count ≤ trailing_ok m.policy past)
  unfolding run trailing_ok
  run_ok_count m [] z = (refl, omega arith)
  run_ok_count m (c ∷ past) z =
      let (same, bound) = run_ok_count m past z in
      after_ok_count (run m past) m.policy c past same bound

  -- No early release: however evaluations and commands are interleaved from a machine with no streak
  -- (a new one, or one with a leftover brake), an evaluation asks for a release only if the last
  -- frames, at least as many as the policy's streak and that one included, were all healthy, with no
  -- successful release among them.
  pub evaluate-run_streak :
      (m : SafetyMachine F) (past : List (Call F)) (f : TelemetryFrame F)
      → m.ok_count ≡ 0
      → m.policy.config.release_ok_streak ≤ u32_max
      → (evaluate (run m past) f).0.intent ≡ release
      → m.policy.config.release_ok_streak ≤ trailing_ok m.policy (evaluates f ∷ past)
  unfolding trailing_ok
  evaluate-run_streak m past f z small asks =
      let (same, bound) = run_ok_count m past z in
      let (engaged, healthy, complete) =
        (evaluate-release_iff (run m past) f (rw same small)).0 asks in
      let now_healthy = rw same at healthy in let now_complete = rw same at complete in ground arith

  abbrev pub IsHealthy : SafetyPolicy F → TelemetryFrame F → Type 0
  IsHealthy p f = (classify_frame_with_policy f p).kind ≡ AssessmentKind.ok

  evaluate_healthy :
      (m : SafetyMachine F) (a : FrameAssessment)
      → m.brake_engaged ≡ true
      → a.kind ≡ AssessmentKind.ok
      → m.ok_count + 1 ≤ u32_max
      → (evaluate_assessment m a).1.ok_count ≡ m.ok_count + 1
  unfolding evaluate_assessment
  evaluate_healthy m a e k h = ground arith

  run_healthy :
      (m : SafetyMachine F) (frames : List (TelemetryFrame F))
      → m.brake_engaged ≡ true
      → m.ok_count + length frames ≤ u32_max
      → All (IsHealthy m.policy) frames
      → let m' = run m (map evaluates frames) in
        (m'.policy ≡ m.policy)
        × (m'.brake_engaged ≡ true)
        × (m'.ok_count ≡ m.ok_count + length frames)
  unfolding run after evaluate
  run_healthy m [] e fits h = (refl, e, omega arith)
  run_healthy m (f ∷ frames) e fits (now, before) =
      let (same, engaged, count) = run_healthy m frames e (omega arith) before in
      let m' = run m (map evaluates frames) in
      let a = classify_frame_with_policy f m'.policy in
      let (kept, policy, cleared, failures) = evaluate_assessment_frame m' a in
      let one = evaluate_healthy m' a engaged (rw same now) (omega arith) in
      (policy ∙ same, kept ∙ engaged, omega arith)

  -- A release comes in time: over healthy frames alone, a machine whose brake is engaged and whose
  -- streak is empty asks for a release exactly at the frame that completes the policy's streak, and at
  -- every later one while no command is recorded. (Counts stay inside u32.)
  pub evaluate-run_recovers :
      (m : SafetyMachine F) (frames : List (TelemetryFrame F)) (f : TelemetryFrame F)
      → m.brake_engaged ≡ true
      → m.ok_count ≡ 0
      → length (f ∷ frames) ≤ u32_max
      → m.policy.config.release_ok_streak ≤ u32_max
      → All (IsHealthy m.policy) (f ∷ frames)
      → ((evaluate (run m (map evaluates frames)) f).0.intent ≡ release)
        ↔ (m.policy.config.release_ok_streak ≤ length (f ∷ frames))
  evaluate-run_recovers m frames f e z fits small (now, before) =
      let (same, engaged, count) = run_healthy m frames e (omega arith) before in
      let m' = run m (map evaluates frames) in
      let asks = evaluate-release_iff m' f (rw same small) in
      (
        λ r.
            let (brake, healthy, complete) = asks.0 r in
            let reached = rw same at complete in omega arith,
        λ r. asks.1 (engaged, rw same now, rw same (omega arith)),
      )
