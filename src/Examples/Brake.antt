-- ===== src/Examples/Brake.antt =====
-- Examples for the safety machine, the power limits and the shutdown plan.
use thalamic_relay.Prelude.{
  ℕ, ◌+◌, ◌≤◌, ◌≡◌, refl, ◌↔◌, ◌⊎◌, true, false, Option, some, [], ◌∷◌, ok, arith, map, length,
}
use thalamic_relay.Float.Fixed.{Fixed, fixed_float, fixed}
use thalamic_relay.Telemetry.{signal_spec, stale_after_ms}
use thalamic_relay.Telemetry.Sample.{from_raw_with_stale_after}
use thalamic_relay.Telemetry.Frame.{sample_of}
use thalamic_relay.Classify.{AssessmentKind, classify_frame_with_policy}
use thalamic_relay.Machine.{
  SafetyMachine, with_policy, apply, release, hold, released, evaluate, record_actuator, snapshot,
}
use thalamic_relay.Machine.Step.{is_unsafe, evaluate-apply_iff, evaluate-release_iff}
use thalamic_relay.Machine.Hysteresis.{
  evaluates, run, after, trailing_ok, evaluate-run_streak, evaluate-run_recovers,
}
use thalamic_relay.Machine.Release.{snapshot_loses_rebrake}
use thalamic_relay.PowerLimit.{
  unambiguous_brake_target, classify_power_limit, plan_brake_apply, plan_brake_release,
  detect_engaged_brake,
}
use thalamic_relay.PowerLimit.Ownership.{
  Observed, brake_at, classify_power_limit-Observed, plan_brake_release-apply,
}
use thalamic_relay.Examples.Data.{policy, cool, warm, hot, braked}
use thalamic_relay.Examples.Readings.{cool_ok, warm_warns}

abbrev fresh : SafetyMachine Fixed
fresh = with_policy policy

evaluate-apply_iff_example :
    let kind = (classify_frame_with_policy hot fresh.policy).kind in
    ((evaluate fresh hot).0.intent ≡ apply) ↔ (
      (fresh.brake_engaged ≡ false)
      × ((is_unsafe kind ≡ true) ⊎ ((kind ≡ AssessmentKind.warn) × (fresh.just_released ≡ true))))
evaluate-apply_iff_example = evaluate-apply_iff fresh hot

evaluate-release_iff_example : ((evaluate braked cool).0.intent ≡ release) ↔ (
    (braked.brake_engaged ≡ true)
    × ((classify_frame_with_policy cool braked.policy).kind ≡ AssessmentKind.ok)
    × (braked.policy.config.release_ok_streak ≤ braked.ok_count + 1))
unfolding braked
evaluate-release_iff_example = evaluate-release_iff braked cool (omega arith)

third_ok : (evaluate (run braked (evaluates cool ∷ evaluates cool ∷ [])) cool).0.intent ≡ release
unfolding run evaluate braked classify_frame_with_policy cool sample_of from_raw_with_stale_after
    signal_spec stale_after_ms after
third_ok = refl

evaluate-run_streak_example :
    braked.policy.config.release_ok_streak
    ≤ trailing_ok braked.policy (evaluates cool ∷ evaluates cool ∷ evaluates cool ∷ [])
unfolding braked
evaluate-run_streak_example =
    evaluate-run_streak braked (evaluates cool ∷ evaluates cool ∷ []) cool refl (omega arith)
      third_ok

evaluate-run_recovers_example :
    ((evaluate (run braked (map evaluates (cool ∷ cool ∷ []))) cool).0.intent ≡ release)
    ↔ (braked.policy.config.release_ok_streak ≤ length (cool ∷ cool ∷ cool ∷ []))
unfolding braked
evaluate-run_recovers_example =
    evaluate-run_recovers braked (cool ∷ cool ∷ []) cool refl refl (omega arith) (omega arith)
      (cool_ok, (cool_ok, (cool_ok, tt)))

snapshot_loses_rebrake_example :
    let (snap, m') = evaluate (record_actuator braked released).1 warm in
    (snap.intent ≡ apply) × ((snapshot m').intent ≡ hold)
unfolding braked
snapshot_loses_rebrake_example = snapshot_loses_rebrake braked warm warm_warns

half : unambiguous_brake_target 300 (fixed 500) ≡ some 150
unfolding unambiguous_brake_target
half = refl

classify_power_limit-Observed_example :
    Observed 151 300
      (unambiguous_brake_target 300 (fixed 500))
      (classify_power_limit (some 151) (some 300) (fixed 500))
classify_power_limit-Observed_example =
    classify_power_limit-Observed 151 300 (fixed 500) (omega arith)

applies : plan_brake_apply (some 300) (some 300) (fixed 500) ≡ ok (some 150)
unfolding plan_brake_apply unambiguous_brake_target
applies = refl

abbrev planned : Option ℕ
planned = some 150

releases : plan_brake_release Fixed (some 151) (some 300) ≡ ok 300
unfolding plan_brake_release unambiguous_brake_target
releases = refl

abbrev restored : ℕ
restored = 300

plan_brake_release-apply_example :
    (detect_engaged_brake (some 150, some 300) (fixed 500) ≡ some (brake_at 150 300 150))
    × (plan_brake_release Fixed (some 150) (some 300) ≡ ok 300)
plan_brake_release-apply_example = plan_brake_release-apply Fixed 300 300 applies
