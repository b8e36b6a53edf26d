-- ===== src/Telemetry/Frame/Channels.antt =====
-- Which raw channel each sample of an assembled frame comes from, and what becomes of it.
use thalamic_relay.Prelude.{ℕ, ◌≡◌, ◌↔◌, refl, Option, none, some, unwrap_or, if◌then◌else◌, arith}
use Prim.Native.Nat.{max}
use thalamic_relay.Float.{Float, IsFloat}
use thalamic_relay.Time.{UnixMillis, FrameTiming, SampleClock}
use thalamic_relay.Telemetry.{TelemetrySource, valid, SignalId, stale_after_ms}
use thalamic_relay.Telemetry.Sample.{TelemetrySample, from_raw_with_stale_after}
use thalamic_relay.Telemetry.Sample.Usable.{IsUsable, from_raw-valid_iff}
use thalamic_relay.Telemetry.Frame.{
  RawTelemetry, TelemetryFrame, value, sample_of, frame_of, from_raw_with_clock,
}
use thalamic_relay.Telemetry.Frame.Assembled.{stamp_received_at, from_raw_with_clock_lem}

module _ {F : Type 0} ⦃float : Float F⦄ where
  -- A reading that is NaN or infinite is dropped.
  abbrev pub finite_of : Option F → Option F
  finite_of none = none
  finite_of (some v) = if float.is_finite v then some v else none

  from_raw-finite :
      (signal : SignalId) (channel : Option F) (observed_at : UnixMillis) (source : TelemetrySource)
      (now : UnixMillis) (limit : ℕ)
      → (from_raw_with_stale_after signal channel observed_at source now limit).value
        ≡ finite_of channel
  unfolding from_raw_with_stale_after
  from_raw-finite signal none observed_at source now limit = ground arith
  from_raw-finite signal (some v) observed_at source now limit = ground arith

module _ {F : Type 0} ⦃float : Float F⦄ (laws : IsFloat F) where
  -- A sample is that of the channel `reading`: it keeps every finite reading, whatever it is worth, and
  -- is valid exactly where the reading is usable for its signal.
  pub record IsSampleOf (raw : RawTelemetry F) (now : UnixMillis) (cadence_ms : ℕ) (id : SignalId)
      (reading : Option F) (s : TelemetrySample F) : Type 0 where
    pub signal : s.signal ≡ id
    pub source : s.source ≡ raw.source
    pub observed_at : s.observed_at ≡ unwrap_or raw.source_unix_ms now
    pub value : s.value ≡ finite_of reading
    pub usable :
        (s.validity ≡ valid)
        ↔ IsUsable laws id reading
            (unwrap_or raw.source_unix_ms now)
            now
            (stale_after_ms F id cadence_ms)

  pub record IsAssembled (raw : RawTelemetry F) (now : UnixMillis) (cadence_ms : ℕ)
      (f : TelemetryFrame F) : Type 0 where
    pub source : f.source ≡ raw.source
    pub acquired : f.acquired_at ≡ now
    pub received : f.received_at_unix_ms ≡ now
    pub interval : f.acquisition_cadence_ms ≡ max cadence_ms 1
    pub gpu_temp_c : IsSampleOf raw now cadence_ms SignalId.gpu_temp_c raw.gpu_temp_c f.gpu_temp_c
    pub vram_temp_c :
        IsSampleOf raw now cadence_ms SignalId.vram_temp_c raw.vram_temp_c f.vram_temp_c
    pub power_w : IsSampleOf raw now cadence_ms SignalId.power_w raw.power_w f.power_w
    pub vddcr_gfx_v :
        IsSampleOf raw now cadence_ms SignalId.vddcr_gfx_v raw.vddcr_gfx_v f.vddcr_gfx_v
    pub gpu_clock_mhz :
        IsSampleOf raw now cadence_ms SignalId.gpu_clock_mhz raw.gpu_clock_mhz f.gpu_clock_mhz
    pub mem_clock_mhz :
        IsSampleOf raw now cadence_ms SignalId.mem_clock_mhz raw.mem_clock_mhz f.mem_clock_mhz
    pub fan_speed_pct :
        IsSampleOf raw now cadence_ms SignalId.fan_speed_pct raw.fan_speed_pct f.fan_speed_pct
    pub mem_util_pct :
        IsSampleOf raw now cadence_ms SignalId.mem_util_pct raw.mem_util_pct f.mem_util_pct

  sample_of-IsSampleOf :
      (raw : RawTelemetry F) (now : UnixMillis) (cadence_ms : ℕ) (id : SignalId)
      → IsSampleOf raw now cadence_ms id (value raw id) (sample_of raw now cadence_ms id)
  unfolding sample_of from_raw_with_stale_after
  sample_of-IsSampleOf raw now cadence_ms id =
      let observed = unwrap_or raw.source_unix_ms now in
      let limit = stale_after_ms F id cadence_ms in
      record {
        signal = refl;
        source = refl;
        observed_at = refl;
        value = from_raw-finite id (value raw id) observed raw.source now limit;
        usable = from_raw-valid_iff laws id (value raw id) observed raw.source now limit;
      }

  frame_of-IsAssembled :
      (raw : RawTelemetry F) (now : UnixMillis) (cadence_ms : ℕ) (t : FrameTiming)
      → t.received_at_unix_ms ≡ now
      → IsAssembled raw now cadence_ms (frame_of raw now cadence_ms t)
  unfolding frame_of value
  frame_of-IsAssembled raw now cadence_ms t at =
      let sample = sample_of-IsSampleOf raw now cadence_ms in
      record {
        source = refl;
        acquired = at;
        received = at;
        interval = refl;
        gpu_temp_c = sample SignalId.gpu_temp_c;
        vram_temp_c = sample SignalId.vram_temp_c;
        power_w = sample SignalId.power_w;
        vddcr_gfx_v = sample SignalId.vddcr_gfx_v;
        gpu_clock_mhz = sample SignalId.gpu_clock_mhz;
        mem_clock_mhz = sample SignalId.mem_clock_mhz;
        fan_speed_pct = sample SignalId.fan_speed_pct;
        mem_util_pct = sample SignalId.mem_util_pct;
      }

  -- Each of the eight samples of a frame comes from its own raw channel: it keeps every finite reading
  -- of that channel and no other, with the source and its time, and is valid exactly where the reading
  -- is present, finite, in the range of its signal, not from the future and young enough. The frame
  -- carries the receive time, the source and the interval, at least 1. (`laws` are those of f32.)
  pub from_raw_with_clock-IsAssembled :
      (raw : RawTelemetry F) (now : UnixMillis) (cadence_ms : ℕ) (clock : SampleClock)
      {f : TelemetryFrame F} {clock' : SampleClock}
      → from_raw_with_clock raw now cadence_ms clock ≡ some (f, clock')
      → IsAssembled raw now cadence_ms f
  from_raw_with_clock-IsAssembled raw now cadence_ms clock h =
      let (t, e, same) = from_raw_with_clock_lem raw now cadence_ms clock h in
      let at = stamp_received_at clock raw.source_unix_ms now raw.timestamp_origin e in
      rw same (frame_of-IsAssembled raw now cadence_ms t at)
