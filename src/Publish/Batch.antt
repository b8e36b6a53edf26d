-- ===== src/Publish/Batch.antt =====
-- src/publish.rs: the wire batch of a sensory mapping. The metadata map is the list of its entries in
-- the order of the inserts, whose keys are distinct.
use thalamic_relay.Prelude.{
  ℕ, Bool, true, false, Option, none, some, String, List, [], ◌∷◌, map, concat, u64_max,
  saturating_mul, show_u64,
}
use thalamic_relay.Float.{Float}
use thalamic_relay.Time.{UnixMillis}
use thalamic_relay.Telemetry.{TelemetrySource, SampleValidity}
use thalamic_relay.Telemetry.Mapping.{MappedStimulus, SensoryMapping}
pub mod Masked

abbrev pub source_identity : String
source_identity = "vahtisiru"

unfoldable pub unix_ms_to_ns : UnixMillis → ℕ
unix_ms_to_ns unix_ms = saturating_mul u64_max unix_ms 1000000

unfoldable pub source_name : TelemetrySource → String
source_name TelemetrySource.nvml = "nvml"
source_name TelemetrySource.software_fallback = "software_fallback"
source_name TelemetrySource.nvml_unavailable = "nvml_unavailable"

unfoldable pub validity_name : SampleValidity → String
validity_name SampleValidity.valid = "valid"
validity_name SampleValidity.missing = "missing"
validity_name SampleValidity.invalid = "invalid"
validity_name SampleValidity.stale = "stale"

-- `join(",")`.
abbrev pub join : List String → String
join [] = ""
join (s ∷ []) = s
join (s ∷ rest) = concat (s ∷ "," ∷ join rest ∷ [])

pub record BatchMetadata : Type 0 where
  pub source : Option String
  pub custom : List (String × String)

-- `StimulusBatch` of corpus-ipc, with the fields that the program sets.
pub record StimulusBatch (F : Type 0) : Type 0 where
  pub session_id : Option String
  pub batch_id : ℕ
  pub timestamp : ℕ
  pub values : List F
  pub valid_mask : List Bool
  pub metadata : BatchMetadata

module _ {F : Type 0} ⦃float : Float F⦄ where
  -- The `match` of the loop: a value and its place in the mask.
  slot_of : SampleValidity → Option F → F × Bool
  slot_of SampleValidity.valid (some value) = (value, true)
  slot_of _ _ = (float.milli 0, false)

  unfoldable pub slot : MappedStimulus F → F × Bool
  unfolding slot_of
  slot s = slot_of s.validity s.normalized

  unfoldable pub mapping_to_stimulus_batch :
      SensoryMapping F → (session_id : Option String) → (batch_id : ℕ) → StimulusBatch F
  unfolding slot unix_ms_to_ns source_name validity_name
  mapping_to_stimulus_batch mapping session_id batch_id = record {
    session_id = session_id;
    batch_id = batch_id;
    timestamp = unix_ms_to_ns mapping.emitted_at_unix_ms;
    values = map (λ s. (slot s).0) mapping.stimuli;
    valid_mask = map (λ s. (slot s).1) mapping.stimuli;
    metadata = record {
      source = some source_identity;
      custom =
          ("acquisition_source", source_name mapping.acquisition_source)
          ∷ ("acquisition_cadence_ms", show_u64 mapping.acquisition_cadence_ms)
          ∷ ("channels", join (map (λ (s : MappedStimulus F). s.name) mapping.stimuli))
          ∷ (
            "validity",
            join (map (λ (s : MappedStimulus F). validity_name s.validity) mapping.stimuli),
          )
          ∷ (
            "stale_after_ms",
            join (map (λ (s : MappedStimulus F). show_u64 s.stale_after_ms) mapping.stimuli),
          )
          ∷ [];
    };
  }
