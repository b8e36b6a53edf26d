-- ===== src/Metrics.antt =====
-- src/cpu.rs: the state that the supervisor shares with the metrics collector, and from src/time.rs the
-- age that the collector exports. Instants are counted in nanoseconds.
pub mod Gauges
use thalamic_relay.Prelude.{ℕ, ◌-◌, Bool, false, Option, none, some, String}
use thalamic_relay.Time.{UnixMillis}
use thalamic_relay.Machine.{SafetyState, telemetry_missing, SafetySnapshot}
use thalamic_relay.Shutdown.{ShutdownPlan, reason_as_str}

pub record RelayMetrics : Type 0 where
  pub telemetry_acquired_at : Option UnixMillis
  pub telemetry_received_instant : Option ℕ
  pub safety_state : SafetyState
  pub policy_state : SafetyState
  pub brake_engaged : Bool
  pub hysteresis_ok_count : ℕ
  pub shutdown_reason : Option String
  pub shutdown_unresolved_brake : Bool
  pub shutdown_unresolved_actuator : Bool

unfoldable pub default_metrics : RelayMetrics
default_metrics = record {
  telemetry_acquired_at = none;
  telemetry_received_instant = none;
  safety_state = telemetry_missing;
  policy_state = telemetry_missing;
  brake_engaged = false;
  hysteresis_ok_count = 0;
  shutdown_reason = none;
  shutdown_unresolved_brake = false;
  shutdown_unresolved_actuator = false;
}

unfoldable pub record_safety_snapshot : RelayMetrics → SafetySnapshot → RelayMetrics
record_safety_snapshot metrics snap = record metrics {
  safety_state = snap.state;
  policy_state = snap.policy_state;
  brake_engaged = snap.brake_engaged;
  hysteresis_ok_count = snap.hysteresis_ok_count;
}

unfoldable pub record_shutdown : RelayMetrics → ShutdownPlan → RelayMetrics
unfolding reason_as_str
record_shutdown metrics plan = record metrics {
  shutdown_reason = some (reason_as_str plan.reason);
  shutdown_unresolved_brake = plan.unresolved_brake;
  shutdown_unresolved_actuator = plan.unresolved_actuator;
}

-- In milliseconds of the wall clock.
unfoldable pub freshness_seconds : (received_at : Option UnixMillis) → (now : UnixMillis) → ℕ
freshness_seconds none now = 0
freshness_seconds (some ts) now = now - ts

unfoldable pub freshness_seconds_monotonic : (received_at : Option ℕ) → (now : ℕ) → ℕ
freshness_seconds_monotonic none now = 0
freshness_seconds_monotonic (some ts) now = now - ts
