-- ===== src/Machine.antt =====
-- src/safety.rs: the safety machine. A method that mutates the machine returns the new one.
use thalamic_relay.Prelude.{
  ℕ, ◌+◌, Bool, true, false, ◌&&◌, ◌||◌, not, ltb, ◌==◌, if◌then◌else◌, Option, none, some, is_some,
  String, u32_max, u64_max, saturating_add,
}
use thalamic_relay.Telemetry.Frame.{TelemetryFrame}
use thalamic_relay.Float.{Float}
use thalamic_relay.Policy.{SafetyPolicy}
use thalamic_relay.Classify.{AssessmentKind, FrameAssessment, classify_frame_with_policy}
pub mod Step
pub mod Hysteresis
pub mod Release
pub mod Default

pub data SafetyState : Type 0 where
  healthy_real warning critical_braked recovering telemetry_missing : SafetyState
  telemetry_stale telemetry_invalid simulated_software_only actuator_failure : SafetyState

unfoldable pub as_id : SafetyState → ℕ
as_id healthy_real = 0
as_id warning = 1
as_id critical_braked = 2
as_id recovering = 3
as_id telemetry_missing = 4
as_id telemetry_stale = 5
as_id telemetry_invalid = 6
as_id simulated_software_only = 7
as_id actuator_failure = 8

-- The derived `==`: the ids are distinct.
unfoldable pub same_state : SafetyState → SafetyState → Bool
unfolding as_id
same_state a b = as_id a == as_id b

unfoldable pub as_str : SafetyState → String
as_str healthy_real = "healthy_real"
as_str warning = "warning"
as_str critical_braked = "critical_braked"
as_str recovering = "recovering"
as_str telemetry_missing = "telemetry_missing"
as_str telemetry_stale = "telemetry_stale"
as_str telemetry_invalid = "telemetry_invalid"
as_str simulated_software_only = "simulated_software_only"
as_str actuator_failure = "actuator_failure"

pub data BrakeIntent : Type 0 where
  hold apply release : BrakeIntent

pub data ActuatorOutcome : Type 0 where
  applied released : ActuatorOutcome
  apply_failed release_failed : String → ActuatorOutcome

pub record SafetySnapshot : Type 0 where
  pub state : SafetyState
  pub policy_state : SafetyState
  pub brake_engaged : Bool
  pub desired_brake : Bool
  pub intent : BrakeIntent
  pub hysteresis_ok_count : ℕ
  pub last_reason : String
  pub last_actuator_error : Option String
  pub transition : Option (SafetyState × SafetyState)
  pub actuator_failed : Bool

unfoldable pub intent_from : (desired_brake brake_engaged : Bool) → BrakeIntent
intent_from true false = apply
intent_from false true = release
intent_from _ _ = hold

pub record SafetyMachine (F : Type 0) : Type 0 where
  pub policy : SafetyPolicy F
  pub brake_engaged : Bool
  pub ok_count : ℕ
  pub just_released : Bool
  pub last_actuator_error : Option String
  pub last_policy_state : SafetyState
  pub state : SafetyState
  pub last_reason : String
  pub transitions_total : ℕ
  pub actuator_failures_total : ℕ

-- What `policy_for` gives: the state, the desired brake, and the machine.
abbrev pub Verdict : Type 0 → Type 0
Verdict F = SafetyState × Bool × SafetyMachine F

module _ {F : Type 0} where
  unfoldable pub with_policy : SafetyPolicy F → SafetyMachine F
  with_policy policy = record {
    policy = policy;
    brake_engaged = false;
    ok_count = 0;
    just_released = false;
    last_actuator_error = none;
    last_policy_state = telemetry_missing;
    state = telemetry_missing;
    last_reason = "no telemetry evaluated yet";
    transitions_total = 0;
    actuator_failures_total = 0;
  }

  unfoldable pub seed_brake_applied : SafetyMachine F → SafetyMachine F
  seed_brake_applied m = record m {
    brake_engaged = true;
    ok_count = 0;
    just_released = false;
    last_policy_state = recovering;
    state = recovering;
    last_reason = "leftover emergency brake detected at startup";
  }

  desired_for : SafetyState → SafetyMachine F → Bool
  desired_for healthy_real m = false
  desired_for simulated_software_only m = m.brake_engaged
  desired_for warning m = m.brake_engaged || m.just_released
  desired_for recovering m = ltb m.ok_count m.policy.config.release_ok_streak
  desired_for _ m = true

  unfoldable pub desired_from_last_policy : SafetyMachine F → Bool
  unfolding desired_for
  desired_from_last_policy m = desired_for m.last_policy_state m

  -- The state that is reported: the overlay, if the last command failed.
  unfoldable pub reported_state : SafetyMachine F → SafetyState
  reported_state m = if is_some m.last_actuator_error then actuator_failure else m.last_policy_state

  unfoldable pub compose_and_store :
      SafetyMachine F → (desired_brake actuator_failed : Bool) → SafetySnapshot × SafetyMachine F
  unfolding reported_state same_state intent_from
  compose_and_store m desired_brake actuator_failed =
      let reported = reported_state m in
      let moved = not (same_state m.state reported) in
      (
        record {
          state = reported;
          policy_state = m.last_policy_state;
          brake_engaged = m.brake_engaged;
          desired_brake = desired_brake;
          intent = intent_from desired_brake m.brake_engaged;
          hysteresis_ok_count = m.ok_count;
          last_reason = m.last_reason;
          last_actuator_error = m.last_actuator_error;
          transition = if moved then some (m.state, reported) else none;
          actuator_failed = actuator_failed;
        },
        record m {
          state = reported;
          transitions_total =
              if moved then saturating_add u64_max m.transitions_total 1 else m.transitions_total;
        },
      )

  -- `snapshot`, which calls `compose_snapshot(false, None)`.
  unfoldable pub snapshot : SafetyMachine F → SafetySnapshot
  unfolding desired_from_last_policy intent_from
  snapshot m =
      let desired = desired_from_last_policy m in
      record {
        state = m.state;
        policy_state = m.last_policy_state;
        brake_engaged = m.brake_engaged;
        desired_brake = desired;
        intent = intent_from desired m.brake_engaged;
        hysteresis_ok_count = m.ok_count;
        last_reason = m.last_reason;
        last_actuator_error = m.last_actuator_error;
        transition = none;
        actuator_failed = false;
      }

  fail_closed : SafetyMachine F → SafetyState → Verdict F
  fail_closed m state = (state, true, record m { ok_count = 0 })

  -- The arms of `Ok`: with the brake engaged, and without.
  on_ok : Bool → SafetyMachine F → Verdict F
  on_ok true m =
      let count = saturating_add u32_max m.ok_count 1 in
      (recovering, ltb count m.policy.config.release_ok_streak, record m { ok_count = count })
  on_ok false m = (healthy_real, false, record m { ok_count = 0 })

  unfoldable pub policy_for : SafetyMachine F → AssessmentKind → (just_released : Bool) → Verdict F
  unfolding fail_closed on_ok
  policy_for m AssessmentKind.simulated just_released =
      (simulated_software_only, m.brake_engaged, record m { ok_count = 0 })
  policy_for m AssessmentKind.missing just_released = fail_closed m telemetry_missing
  policy_for m AssessmentKind.invalid just_released = fail_closed m telemetry_invalid
  policy_for m AssessmentKind.stale just_released = fail_closed m telemetry_stale
  policy_for m AssessmentKind.critical just_released = fail_closed m critical_braked
  policy_for m AssessmentKind.warn just_released =
      (warning, m.brake_engaged || just_released, record m { ok_count = 0 })
  policy_for m AssessmentKind.ok just_released = on_ok m.brake_engaged m

  -- `evaluate`, from the assessment on.
  unfoldable pub evaluate_assessment :
      SafetyMachine F → FrameAssessment → SafetySnapshot × SafetyMachine F
  unfolding policy_for compose_and_store same_state
  evaluate_assessment m a =
      let (policy_state, desired_brake, m') =
        policy_for (record m { just_released = false }) a.kind m.just_released in
      let cleared = same_state policy_state healthy_real && not desired_brake in
      compose_and_store
        (record m' {
          last_actuator_error = if cleared then none else m'.last_actuator_error;
          last_policy_state = policy_state;
          last_reason = a.reason;
        })
        desired_brake false

  -- The `match` of `record_actuator`: the machine, and whether the command failed.
  on_outcome : SafetyMachine F → ActuatorOutcome → SafetyMachine F × Bool
  on_outcome m applied =
      (record m { brake_engaged = true; last_actuator_error = none; just_released = false }, false)
  on_outcome m (apply_failed err) = (
    record m {
      brake_engaged = false;
      last_actuator_error = some err;
      actuator_failures_total = saturating_add u64_max m.actuator_failures_total 1;
    },
    true,
  )
  on_outcome m released = (
    record m {
      brake_engaged = false;
      ok_count = 0;
      just_released = true;
      last_actuator_error = none;
      last_policy_state = healthy_real;
      last_reason = "brake released";
    },
    false,
  )
  on_outcome m (release_failed err) = (
    record m {
      last_actuator_error = some err;
      actuator_failures_total = saturating_add u64_max m.actuator_failures_total 1;
    },
    true,
  )

  unfoldable pub record_actuator :
      SafetyMachine F → ActuatorOutcome → SafetySnapshot × SafetyMachine F
  unfolding on_outcome desired_from_last_policy compose_and_store
  record_actuator m outcome =
      let (m', failed) = on_outcome m outcome in
      compose_and_store m' (desired_from_last_policy m') failed

module _ {F : Type 0} ⦃float : Float F⦄ where
  unfoldable pub evaluate : SafetyMachine F → TelemetryFrame F → SafetySnapshot × SafetyMachine F
  unfolding evaluate_assessment
  evaluate m frame = evaluate_assessment m (classify_frame_with_policy frame m.policy)
