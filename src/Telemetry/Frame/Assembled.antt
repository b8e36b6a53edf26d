-- ===== src/Telemetry/Frame/Assembled.antt =====
-- Frames that are assessed from raw readings.
use thalamic_relay.Prelude.{ℕ, ◌≡◌, refl, Option, some, Option-cases, inl, inr, map, arith}
use Prim.Native.Nat.{max}
use thalamic_relay.Float.{Float}
use thalamic_relay.Time.{UnixMillis, TimestampOrigin, FrameTiming, SampleClock, stamp}
use thalamic_relay.Telemetry.{SignalId, all_signals}
use thalamic_relay.Telemetry.Frame.{
  RawTelemetry, TelemetryFrame, samples, sample_of, frame_of, from_raw_with_clock,
}

pub stamp_received_at :
    (c : SampleClock) (source : Option UnixMillis) (now : UnixMillis) (origin : TimestampOrigin)
    {t : FrameTiming} {c' : SampleClock}
    → stamp c source now origin ≡ some (t, c')
    → t.received_at_unix_ms ≡ now
unfolding stamp
stamp_received_at c source now origin e = ground arith

module _ {F : Type 0} ⦃float : Float F⦄ where
  -- The frame that `from_raw_with_clock` returns, and the clock.
  pub from_raw_with_clock_lem :
      (raw : RawTelemetry F) (now : UnixMillis) (cadence_ms : ℕ) (clock : SampleClock)
      {f : TelemetryFrame F} {clock' : SampleClock}
      → from_raw_with_clock raw now cadence_ms clock ≡ some (f, clock')
      → (t : FrameTiming) × (stamp clock raw.source_unix_ms now raw.timestamp_origin
          ≡ some (t, clock'))
        × (f ≡ frame_of raw now cadence_ms t)
  unfolding from_raw_with_clock
  from_raw_with_clock_lem raw now cadence_ms clock h =
      elim (Option-cases (stamp clock raw.source_unix_ms now raw.timestamp_origin)) [
        | inl e ↦ absurd (ground arith)
        | inr ((t, c), e) ↦ (t, ground arith, ground arith)
      ]

  -- Every sample of the frame is the one that its raw channel gives, and the frame carries the receive
  -- time, the source and the interval, at least 1.
  pub from_raw_with_clock_frame :
      (raw : RawTelemetry F) (now : UnixMillis) (cadence_ms : ℕ) (clock : SampleClock)
      {f : TelemetryFrame F} {clock' : SampleClock}
      → from_raw_with_clock raw now cadence_ms clock ≡ some (f, clock')
      → (f.source ≡ raw.source)
        × (f.acquired_at ≡ now)
        × (f.received_at_unix_ms ≡ now)
        × (f.acquisition_cadence_ms ≡ max cadence_ms 1)
        × (samples f ≡ map (sample_of raw now cadence_ms) all_signals)
        × (f.gpu_temp_c ≡ sample_of raw now cadence_ms SignalId.gpu_temp_c)
        × (f.power_w ≡ sample_of raw now cadence_ms SignalId.power_w)
  unfolding frame_of samples
  from_raw_with_clock_frame raw now cadence_ms clock h =
      let (t, e, same) = from_raw_with_clock_lem raw now cadence_ms clock h in
      let at = stamp_received_at clock raw.source_unix_ms now raw.timestamp_origin e in
      rw same (refl, at, at, refl, refl, refl, refl)
