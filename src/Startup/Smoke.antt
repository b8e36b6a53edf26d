-- ===== src/Startup/Smoke.antt =====
-- src/daemon.rs: the read-only check of the hardware that `--gpu-hardware-smoke` asks for. What
-- `nvidia-smi -L` and the driver give, and the wall clock, are arguments; the texts that it prints are
-- left out.
pub mod Passed
use thalamic_relay.Prelude.{
  ℕ, ◌<◌, ◌≡◌, Bool, true, false, not, ◌||◌, ◌==◌, if◌then◌else◌, Option, none, some, Result, ok,
  err, ◌>>=◌, ◌>>◌, ok_or, refuse_if, String, Result-cases, inl, inr, arith,
}
use thalamic_relay.Float.{Float}
use thalamic_relay.Time.{UnixMillis, SampleClock, with_session_id}
use thalamic_relay.Telemetry.{TelemetrySource, SampleValidity, valid}
use thalamic_relay.Telemetry.Sample.{TelemetrySample}
use thalamic_relay.Telemetry.Frame.{RawTelemetry, TelemetryFrame, from_raw_with_clock}
use thalamic_relay.Gpu.{Nvml, GpuTarget, TargetError, resolve_target, map_err}
use thalamic_relay.Gpu.Identity.{IsBound, resolve_target-IsBound_iff}
use thalamic_relay.Gpu.Bridge.{acquire_raw, query_power_limit_w, query_default_power_limit_w}

pub data SmokeError : Type 0 where
  nvidia_smi_failed : SmokeError
  no_target : TargetError → SmokeError
  no_nvml_telemetry : TelemetrySource → SmokeError
  no_finite_value : (label : String) → SmokeError
  not_valid : (label : String) → SampleValidity → SmokeError
  clock_overflow : SmokeError
  current_limit_unreadable : SmokeError
  default_limit_unreadable : SmokeError
  limits_not_positive : (current_w default_w : ℕ) → SmokeError

abbrev is_nvml : TelemetrySource → Bool
is_nvml TelemetrySource.nvml = true
is_nvml _ = false

check_limits : (current_w default_w : Option ℕ) → Result (ℕ × ℕ) SmokeError
check_limits current default = do
  current_w ← ok_or current current_limit_unreadable
  default_w ← ok_or default default_limit_unreadable
  refuse_if (current_w == 0 || default_w == 0) (limits_not_positive current_w default_w)
  ok (current_w, default_w)

module _ {F : Type 0} ⦃float : Float F⦄ where
  sample_result : (label : String) → SampleValidity → Option F → Result (Unit {0}) SmokeError
  sample_result label valid (some value) =
      if float.is_finite value then ok tt else err (no_finite_value label)
  sample_result label valid none = err (no_finite_value label)
  sample_result label validity _ = err (not_valid label validity)

  unfoldable pub require_hardware_smoke_sample :
      (label : String) → TelemetrySample F → Result (Unit {0}) SmokeError
  unfolding sample_result
  require_hardware_smoke_sample label sample = sample_result label sample.validity sample.value

  -- The panic of the sample clock cannot come from a new one; it is an error here.
  assessed : RawTelemetry F → UnixMillis → SampleClock → Result (TelemetryFrame F) SmokeError
  assessed raw now clock = ok_or (first (from_raw_with_clock raw now 100 clock)) clock_overflow
    where
      first : Option (TelemetryFrame F × SampleClock) → Option (TelemetryFrame F)
      first none = none
      first (some (frame, _)) = some frame

  -- The checks behind the target: the source of the readings, the two safety samples, the limits. The
  -- clock is a new one, whose generated session id is an argument.
  check_readings :
      (driver : Option Nvml)
      → RawTelemetry F
      → UnixMillis
      → SampleClock
      → GpuTarget
      → Result (ℕ × ℕ) SmokeError
  unfolding assessed require_hardware_smoke_sample check_limits
  check_readings driver raw now clock target = do
    refuse_if (not (is_nvml raw.source)) (no_nvml_telemetry raw.source)
    frame ← assessed raw now clock
    require_hardware_smoke_sample "GPU temperature" frame.gpu_temp_c
    require_hardware_smoke_sample "GPU board power" frame.power_w
    check_limits (query_power_limit_w driver target) (query_default_power_limit_w driver target)

-- `run_gpu_hardware_smoke`: `some` of the limits that it prints at its end.
unfoldable pub run_gpu_hardware_smoke :
    (F : Type 0) ⦃float : Float F⦄
    → (listed : Bool) → (health : Option Bool) → Option Nvml
    → (now : UnixMillis) → (session_id : String) → Result (ℕ × ℕ) SmokeError
unfolding check_readings
run_gpu_hardware_smoke F listed health driver now session_id = do
  refuse_if (not listed) nvidia_smi_failed
  target ← map_err (resolve_target driver) no_target
  check_readings {F = F} driver (acquire_raw (some target) false health driver now) now
      (with_session_id session_id) target
