-- ===== src/Telemetry/Mapping.antt =====
-- src/telemetry.rs: the sensory mapping of a frame and its observability snapshot.
use thalamic_relay.Prelude.{ℕ, Option, List, map, filter, String}
use thalamic_relay.Float.{Float}
use thalamic_relay.Time.{UnixMillis, TimestampOrigin, SourceTimeStatus}
use thalamic_relay.Telemetry.{
  TelemetrySource, SampleValidity, MeasureUnit, SignalClass, SignalId, SignalSpec, signal_spec,
  includes_runtime_input, stale_after_ms,
}
use thalamic_relay.Telemetry.Sample.{TelemetrySample, normalized, at_time_from}
use thalamic_relay.Telemetry.Frame.{TelemetryFrame, samples}

pub record MappedStimulus (F : Type 0) : Type 0 where
  pub signal : SignalId
  pub name : String
  pub classification : SignalClass
  pub unit : MeasureUnit
  pub source : TelemetrySource
  pub validity : SampleValidity
  pub raw : Option F
  pub normalized : Option F
  pub stale_after_ms : ℕ
  pub cadence_ms : ℕ

-- `SensoryMapping`, and with the same fields `ObservabilitySnapshot`, whose list is named `samples`.
pub record SensoryMapping (F : Type 0) : Type 0 where
  pub session_id : String
  pub batch_id : ℕ
  pub source_unix_ms : Option UnixMillis
  pub received_at_unix_ms : UnixMillis
  pub emitted_at_unix_ms : UnixMillis
  pub timestamp_origin : TimestampOrigin
  pub source_time_status : SourceTimeStatus
  pub acquisition_source : TelemetrySource
  pub acquisition_cadence_ms : ℕ
  pub stimuli : List (MappedStimulus F)

module _ {F : Type 0} ⦃float : Float F⦄ where
  unfoldable pub from_sample :
      TelemetrySample F → (cadence_ms stale_after_ms : ℕ) → MappedStimulus F
  from_sample s cadence_ms stale_after_ms =
      let spec : SignalSpec F = signal_spec s.signal in
      record {
        signal = s.signal;
        name = spec.name;
        classification = spec.class;
        unit = s.unit;
        source = s.source;
        validity = s.validity;
        raw = s.value;
        normalized = normalized s;
        stale_after_ms = stale_after_ms;
        cadence_ms = cadence_ms;
      }

  -- The closure of the `map` in both functions.
  unfoldable pub stimulus_at : TelemetryFrame F → UnixMillis → TelemetrySample F → MappedStimulus F
  unfolding from_sample
  stimulus_at f now s =
      let limit = stale_after_ms F s.signal f.acquisition_cadence_ms in
      from_sample (at_time_from s now f.received_at_unix_ms limit) f.acquisition_cadence_ms limit

  mapping_with : TelemetryFrame F → UnixMillis → List (MappedStimulus F) → SensoryMapping F
  mapping_with f now stimuli = record {
    session_id = f.session_id;
    batch_id = f.batch_id;
    source_unix_ms = f.source_unix_ms;
    received_at_unix_ms = f.received_at_unix_ms;
    emitted_at_unix_ms = now;
    timestamp_origin = f.timestamp_origin;
    source_time_status = f.source_time_status;
    acquisition_source = f.source;
    acquisition_cadence_ms = f.acquisition_cadence_ms;
    stimuli = stimuli;
  }

  unfoldable pub to_sensory_mapping_at : TelemetryFrame F → UnixMillis → SensoryMapping F
  unfolding mapping_with
  to_sensory_mapping_at f now = mapping_with f now (
      map (stimulus_at f now) (
        filter
          (λ s. let spec : SignalSpec F = signal_spec s.signal in includes_runtime_input spec.class)
          (samples f)))

  unfoldable pub to_observability_snapshot_at : TelemetryFrame F → UnixMillis → SensoryMapping F
  unfolding mapping_with
  to_observability_snapshot_at f now = mapping_with f now (map (stimulus_at f now) (samples f))
