-- ===== src/Telemetry/Sample.antt =====
-- src/telemetry.rs: one typed sample, its validation and its normalized value.
use thalamic_relay.Prelude.{
  ℕ, ◌-◌, Bool, true, false, not, ◌&&◌, ◌||◌, ltb, leb, if◌then◌else◌, Option, none, some, is_none,
}
use mathlib.Core.Option
use thalamic_relay.Float.{Float, ◌≺◌}
use thalamic_relay.Time.{UnixMillis}
use thalamic_relay.Telemetry.{
  TelemetrySource, SampleValidity, valid, missing, invalid, stale, MeasureUnit, SignalId,
  signal_spec, apply,
}
pub mod Usable

pub record TelemetrySample (F : Type 0) : Type 0 where
  pub signal : SignalId
  pub value : Option F
  pub observed_at : UnixMillis
  pub source : TelemetrySource
  pub validity : SampleValidity
  pub unit : MeasureUnit

unfoldable pub is_valid : SampleValidity → Bool
is_valid valid = true
is_valid _ = false

module _ {F : Type 0} ⦃float : Float F⦄ where
  -- The `match` on a reading whose source time is after `now`.
  judge_future : Option F → Option F × SampleValidity
  judge_future none = (none, missing)
  judge_future (some v) = if not (float.is_finite v) then (none, invalid) else (some v, invalid)

  -- The `match` on any other reading.
  judge : (lo hi : F) → (age_ms stale_after_ms : ℕ) → Option F → Option F × SampleValidity
  judge lo hi age_ms stale_after_ms none = (none, missing)
  judge lo hi age_ms stale_after_ms (some v) =
      if not (float.is_finite v)
      then (none, invalid)
      else if (v ≺ lo) || (hi ≺ v)
      then (some v, invalid)
      else if leb stale_after_ms age_ms
      then (some v, stale)
      else (some v, valid)

  unfoldable pub from_raw_with_stale_after :
      SignalId
      → Option F
      → (observed_at : UnixMillis) → TelemetrySource
      → (now : UnixMillis) → (stale_after_ms : ℕ) → TelemetrySample F
  unfolding judge judge_future
  from_raw_with_stale_after signal raw observed_at source now stale_after_ms =
      let spec = signal_spec signal in
      let judged =
        if ltb now observed_at
        then judge_future raw
        else judge spec.lo spec.hi (now - observed_at) stale_after_ms raw in
      record {
        signal = signal;
        value = judged.0;
        observed_at = observed_at;
        source = source;
        validity = judged.1;
        unit = spec.unit;
      }

  -- `TelemetrySample::from_raw`.
  unfoldable pub from_raw :
      SignalId
      → Option F
      → (observed_at : UnixMillis) → TelemetrySource
      → (now : UnixMillis) → TelemetrySample F
  from_raw signal raw observed_at source now =
      let spec = signal_spec {F = F} signal in
      from_raw_with_stale_after signal raw observed_at source now spec.stale_after_ms

  unfoldable pub normalized : TelemetrySample F → Option F
  unfolding is_valid
  normalized s =
      let spec = signal_spec s.signal in
      if not (is_valid s.validity) then none else Option.map (apply spec.normalization) s.value

  unfoldable pub at_time : TelemetrySample F → UnixMillis → TelemetrySample F
  at_time s now =
      if is_none s.value then s else from_raw s.signal s.value s.observed_at s.source now

  unfoldable pub at_time_from :
      TelemetrySample F → (now received_at : UnixMillis) → (stale_after_ms : ℕ) → TelemetrySample F
  unfolding is_valid
  at_time_from s now received_at stale_after_ms =
      if is_none s.value || not (is_valid s.validity)
      then s
      else record s { validity = if leb stale_after_ms (now - received_at) then stale else valid }
