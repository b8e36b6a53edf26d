-- ===== src/PowerLimit/Fake.antt =====
-- src/safety.rs: the trait of the actuators, and the fake one of the tests. A method returns the new
-- state. The call counters are u32 and panic on overflow in a debug build; they are numbers here.
use thalamic_relay.Prelude.{ℕ, ◌+◌, Bool, true, false, Option, none, some, Result, ok, err}
use thalamic_relay.PowerLimit.{ActuatorError, BrakeMatch}

pub record SafetyActuator (F S : Type 0) : Type 0 where
  pub apply_emergency_brake : S → F → Result (Unit {0}) ActuatorError × S
  pub release_emergency_brake : S → Result (Unit {0}) ActuatorError × S
  pub query_power_limits_w : S → Option ℕ × Option ℕ

-- `FakeActuator`, the state behind its mutex.
pub record FakeState : Type 0 where
  pub engaged : Bool
  pub apply_calls : ℕ
  pub release_calls : ℕ
  pub fail_apply : Option ActuatorError
  pub fail_release : Option ActuatorError
  pub current_w : Option ℕ
  pub default_w : Option ℕ

unfoldable pub new_fake : FakeState
new_fake = record {
  engaged = false;
  apply_calls = 0;
  release_calls = 0;
  fail_apply = none;
  fail_release = none;
  current_w = none;
  default_w = none;
}

abbrev pub set_apply_failure : Option ActuatorError → FakeState → FakeState
set_apply_failure e s = record s { fail_apply = e }

abbrev pub set_release_failure : Option ActuatorError → FakeState → FakeState
set_release_failure e s = record s { fail_release = e }

abbrev pub set_power_limits : (current_w default_w : Option ℕ) → FakeState → FakeState
set_power_limits current_w default_w s = record s { current_w = current_w; default_w = default_w }

abbrev pub set_detected_brake : Option BrakeMatch → FakeState → FakeState
set_detected_brake none s = set_power_limits none none s
set_detected_brake (some m) s = set_power_limits (some m.current_w) (some m.default_w) s

-- The end of a call that is counted: the set failure, or the brake as the call leaves it.
fake_result :
    (engaged : Bool)
    → Option ActuatorError
    → FakeState
    → Result (Unit {0}) ActuatorError × FakeState
fake_result engaged (some e) s = (err e, s)
fake_result engaged none s = (ok tt, record s { engaged = engaged })

instance unfoldable pub fake_actuator : {F : Type 0} → SafetyActuator F FakeState
unfolding fake_result
fake_actuator = record {
  apply_emergency_brake =
      λ s pct. fake_result true s.fail_apply (record s { apply_calls = s.apply_calls + 1 });
  release_emergency_brake =
      λ s. fake_result false s.fail_release (record s { release_calls = s.release_calls + 1 });
  query_power_limits_w = λ s. (s.current_w, s.default_w);
}
