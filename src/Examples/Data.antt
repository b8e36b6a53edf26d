-- ===== src/Examples/Data.antt =====
-- The policy, the readings and the frames of the examples.
use thalamic_relay.Prelude.{ℕ, none, some}
use thalamic_relay.Float.Fixed.{Fixed, fixed_float, fixed}
use thalamic_relay.Time.{UnixMillis, live_acquire, in_order, FrameTiming, SampleClock}
use thalamic_relay.Telemetry.{TelemetrySource}
use thalamic_relay.Telemetry.Frame.{RawTelemetry, TelemetryFrame, frame_of}
use thalamic_relay.Policy.{SafetyPolicyConfig, SafetyPolicy}
use thalamic_relay.Machine.{SafetyMachine, with_policy, seed_brake_applied}

abbrev pub config : SafetyPolicyConfig Fixed
config = record {
  temp_warn_c = fixed 75000;
  temp_critical_c = fixed 85000;
  power_warn_w = none;
  power_critical_w = none;
  release_ok_streak = 3;
  max_sample_age_ms = 2000;
  max_acquisition_interval_ms = 100;
}

abbrev pub policy : SafetyPolicy Fixed
policy = record {
  config = config;
  power_limits_w = some (fixed 255000, fixed 300000);
  power_limit_source = "device_default";
}

abbrev pub reading_at : (temp_c : ℕ) → UnixMillis → RawTelemetry Fixed
reading_at temp_c at = record {
  source_unix_ms = some at;
  timestamp_origin = live_acquire;
  source = TelemetrySource.nvml;
  gpu_temp_c = some (fixed temp_c);
  vram_temp_c = none;
  power_w = some (fixed 120000);
  vddcr_gfx_v = some (fixed 700);
  gpu_clock_mhz = some (fixed 210000);
  mem_clock_mhz = some (fixed 405000);
  fan_speed_pct = some (fixed 30000);
  mem_util_pct = some (fixed 0);
}

abbrev pub clock : SampleClock
clock = record { session_id = "boot"; next_batch_id = 0; last_source_unix_ms = none }

abbrev pub timing : UnixMillis → FrameTiming
timing at = record {
  session_id = "boot";
  batch_id = 0;
  source_unix_ms = some at;
  received_at_unix_ms = at;
  timestamp_origin = live_acquire;
  source_time_status = in_order;
}

unfoldable pub frame_at : (temp_c : ℕ) → UnixMillis → TelemetryFrame Fixed
unfolding frame_of
frame_at temp_c at = frame_of (reading_at temp_c at) at 100 (timing at)

-- A frame of a healthy device, one above the warning limit, and one above the critical limit.
unfoldable pub cool : TelemetryFrame Fixed
unfolding frame_at
cool = frame_at 60000 1000

unfoldable pub warm : TelemetryFrame Fixed
unfolding frame_at
warm = frame_at 80000 1000

unfoldable pub hot : TelemetryFrame Fixed
unfolding frame_at
hot = frame_at 90000 1000

-- A machine with a leftover brake.
unfoldable pub braked : SafetyMachine Fixed
unfolding with_policy seed_brake_applied
braked = seed_brake_applied (with_policy policy)
