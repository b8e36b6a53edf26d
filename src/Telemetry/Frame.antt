-- ===== src/Telemetry/Frame.antt =====
-- src/telemetry.rs: raw readings, and the validated frame that is stamped from them.
use Prim.Native.Nat.{max}
use thalamic_relay.Prelude.{ℕ, Option, none, some, unwrap_or, List, [], ◌∷◌, String}
use thalamic_relay.Float.{Float}
use thalamic_relay.Time.{
  UnixMillis, TimestampOrigin, live_acquire, simulated, SourceTimeStatus, FrameTiming, SampleClock,
  stamp,
}
use thalamic_relay.Telemetry.{
  TelemetrySource, software_fallback, nvml_unavailable, SignalId, stale_after_ms,
  default_acquisition_cadence_ms,
}
use thalamic_relay.Telemetry.Sample.{TelemetrySample, from_raw_with_stale_after}
pub mod Assembled
pub mod Channels

pub record RawTelemetry (F : Type 0) : Type 0 where
  pub source_unix_ms : Option UnixMillis
  pub timestamp_origin : TimestampOrigin
  pub source : TelemetrySource
  pub gpu_temp_c : Option F
  pub vram_temp_c : Option F
  pub power_w : Option F
  pub vddcr_gfx_v : Option F
  pub gpu_clock_mhz : Option F
  pub mem_clock_mhz : Option F
  pub fan_speed_pct : Option F
  pub mem_util_pct : Option F

pub record TelemetryFrame (F : Type 0) : Type 0 where
  pub session_id : String
  pub batch_id : ℕ
  pub source_unix_ms : Option UnixMillis
  pub received_at_unix_ms : UnixMillis
  pub timestamp_origin : TimestampOrigin
  pub source_time_status : SourceTimeStatus
  pub acquired_at : UnixMillis
  pub source : TelemetrySource
  pub acquisition_cadence_ms : ℕ
  pub gpu_temp_c : TelemetrySample F
  pub vram_temp_c : TelemetrySample F
  pub power_w : TelemetrySample F
  pub vddcr_gfx_v : TelemetrySample F
  pub gpu_clock_mhz : TelemetrySample F
  pub mem_clock_mhz : TelemetrySample F
  pub fan_speed_pct : TelemetrySample F
  pub mem_util_pct : TelemetrySample F

module _ {F : Type 0} where
  -- `RawTelemetry::value`.
  unfoldable pub value : RawTelemetry F → SignalId → Option F
  value raw SignalId.gpu_temp_c = raw.gpu_temp_c
  value raw SignalId.vram_temp_c = raw.vram_temp_c
  value raw SignalId.power_w = raw.power_w
  value raw SignalId.vddcr_gfx_v = raw.vddcr_gfx_v
  value raw SignalId.gpu_clock_mhz = raw.gpu_clock_mhz
  value raw SignalId.mem_clock_mhz = raw.mem_clock_mhz
  value raw SignalId.fan_speed_pct = raw.fan_speed_pct
  value raw SignalId.mem_util_pct = raw.mem_util_pct

  -- `RawTelemetry::nvml_unavailable`.
  unfoldable pub unavailable : UnixMillis → RawTelemetry F
  unavailable observed_at = record {
    source_unix_ms = some observed_at;
    timestamp_origin = live_acquire;
    source = nvml_unavailable;
    gpu_temp_c = none;
    vram_temp_c = none;
    power_w = none;
    vddcr_gfx_v = none;
    gpu_clock_mhz = none;
    mem_clock_mhz = none;
    fan_speed_pct = none;
    mem_util_pct = none;
  }

  -- `TelemetryFrame::timing`.
  unfoldable pub timing : TelemetryFrame F → FrameTiming
  timing f = record {
    session_id = f.session_id;
    batch_id = f.batch_id;
    source_unix_ms = f.source_unix_ms;
    received_at_unix_ms = f.received_at_unix_ms;
    timestamp_origin = f.timestamp_origin;
    source_time_status = f.source_time_status;
  }

  unfoldable pub samples : TelemetryFrame F → List (TelemetrySample F)
  samples f =
      f.gpu_temp_c ∷ f.vram_temp_c ∷ f.power_w ∷ f.vddcr_gfx_v ∷ f.gpu_clock_mhz ∷ f.mem_clock_mhz
      ∷ f.fan_speed_pct ∷ f.mem_util_pct ∷ []

module _ {F : Type 0} ⦃float : Float F⦄ where
  -- `RawTelemetry::software_fallback`, with the estimates of the module `software_fallback`.
  unfoldable pub idle_estimates : UnixMillis → RawTelemetry F
  idle_estimates observed_at = record {
    source_unix_ms = some observed_at;
    timestamp_origin = simulated;
    source = software_fallback;
    gpu_temp_c = some (float.milli 35000);
    vram_temp_c = none;
    power_w = some (float.milli 25000);
    vddcr_gfx_v = some (float.milli 700);
    gpu_clock_mhz = some (float.milli 210000);
    mem_clock_mhz = some (float.milli 405000);
    fan_speed_pct = some (float.milli 30000);
    mem_util_pct = some (float.milli 0);
  }

  -- The closure `sample` of `from_raw_with_clock`.
  unfoldable pub sample_of :
      RawTelemetry F → UnixMillis → (cadence_ms : ℕ) → SignalId → TelemetrySample F
  unfolding value
  sample_of raw now cadence_ms id =
      from_raw_with_stale_after id (value raw id) (unwrap_or raw.source_unix_ms now) raw.source now
        (stale_after_ms F id cadence_ms)

  -- The literal of `from_raw_with_clock`.
  unfoldable pub frame_of :
      RawTelemetry F → UnixMillis → (cadence_ms : ℕ) → FrameTiming → TelemetryFrame F
  frame_of raw now cadence_ms t = record {
    session_id = t.session_id;
    batch_id = t.batch_id;
    source_unix_ms = t.source_unix_ms;
    received_at_unix_ms = t.received_at_unix_ms;
    timestamp_origin = t.timestamp_origin;
    source_time_status = t.source_time_status;
    acquired_at = t.received_at_unix_ms;
    source = raw.source;
    acquisition_cadence_ms = max cadence_ms 1;
    gpu_temp_c = sample SignalId.gpu_temp_c;
    vram_temp_c = sample SignalId.vram_temp_c;
    power_w = sample SignalId.power_w;
    vddcr_gfx_v = sample SignalId.vddcr_gfx_v;
    gpu_clock_mhz = sample SignalId.gpu_clock_mhz;
    mem_clock_mhz = sample SignalId.mem_clock_mhz;
    fan_speed_pct = sample SignalId.fan_speed_pct;
    mem_util_pct = sample SignalId.mem_util_pct;
  }
    where
      sample : SignalId → TelemetrySample F
      sample = sample_of raw now cadence_ms

  -- `TelemetryFrame::from_raw_with_clock`, and so `assess_with_clock`; `none` is the panic of `stamp`.
  unfoldable pub from_raw_with_clock :
      RawTelemetry F
      → UnixMillis
      → (cadence_ms : ℕ) → SampleClock
      → Option (TelemetryFrame F × SampleClock)
  from_raw_with_clock raw now cadence_ms clock =
      elim (stamp clock raw.source_unix_ms now raw.timestamp_origin) [
        | none ↦ none
        | some (t, clock') ↦ some (frame_of raw now cadence_ms t, clock')
      ]
