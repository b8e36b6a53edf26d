-- ===== src/Telemetry/Fixtures.antt =====
-- src/telemetry.rs: the fixtures of the contract, and the reader of their CSV rows. Errors keep their
-- texts; what the standard library prints of a text that is no integer or no float is an argument.
use thalamic_relay.Prelude.{
  ◌-◌, ◌++◌, ◌≡◌, true, false, ◌∷◌, [], List, Option, none, some, Result, ok, err, ◌>>=◌, Chars,
  codes, split, trim, is_empty, length, u64_chars, u64_max, arith,
}
use thalamic_relay.Float.{Float}
use thalamic_relay.Float.Printed.{FloatText}
use thalamic_relay.Time.{UnixMillis, live_acquire, csv_source}
use thalamic_relay.Time.Field.{parse_source_timestamp_field}
use thalamic_relay.Telemetry.{nvml, software_fallback}
use thalamic_relay.Telemetry.Frame.{RawTelemetry}

-- Of simulated provenance, with the time of a CSV cell.
abbrev pub IsReplayed : {F : Type 0} → RawTelemetry F → Type 0
IsReplayed raw = (raw.source ≡ software_fallback) × (raw.timestamp_origin ≡ csv_source)

-- `NOW`.
abbrev pub fixture_now : UnixMillis
fixture_now = 1700000000000

module _ {F : Type 0} ⦃float : Float F⦄ where
  unfoldable pub nvml_at : Option UnixMillis → RawTelemetry F
  nvml_at source_unix_ms = record {
    source_unix_ms = source_unix_ms;
    timestamp_origin = live_acquire;
    source = nvml;
    gpu_temp_c = some (float.milli 65000);
    vram_temp_c = some (float.milli 72000);
    power_w = some (float.milli 200000);
    vddcr_gfx_v = some (float.milli 910);
    gpu_clock_mhz = some (float.milli 1500000);
    mem_clock_mhz = some (float.milli 6000000);
    fan_speed_pct = some (float.milli 40000);
    mem_util_pct = some (float.milli 0);
  }

  unfoldable pub healthy_real : RawTelemetry F
  unfolding nvml_at
  healthy_real = nvml_at (some fixture_now)

  unfoldable pub stale : RawTelemetry F
  unfolding healthy_real
  stale = record healthy_real { source_unix_ms = some (fixture_now - 10000) }

  unfoldable pub sensor_dropout : RawTelemetry F
  unfolding healthy_real
  sensor_dropout = record healthy_real { power_w = none; vddcr_gfx_v = none; fan_speed_pct = none }

  unfoldable pub out_of_range : RawTelemetry F
  unfolding healthy_real
  out_of_range = record healthy_real { gpu_temp_c = some (float.milli 200000) }

  unfoldable pub nvml_looks_like_old_magic : RawTelemetry F
  nvml_looks_like_old_magic = record {
    source_unix_ms = some fixture_now;
    timestamp_origin = live_acquire;
    source = nvml;
    gpu_temp_c = some (float.milli 0);
    vram_temp_c = none;
    power_w = some (float.milli 25000);
    vddcr_gfx_v = some (float.milli 700);
    gpu_clock_mhz = some (float.milli 210000);
    mem_clock_mhz = some (float.milli 405000);
    fan_speed_pct = some (float.milli 30000);
    mem_util_pct = some (float.milli 0);
  }

  -- The fixtures of source times read from CSV.
  unfoldable pub csv_at : Option UnixMillis → RawTelemetry F
  unfolding healthy_real
  csv_at source_unix_ms = record healthy_real {
    timestamp_origin = csv_source;
    source_unix_ms = source_unix_ms;
  }

  unfoldable pub duplicate_source_timestamp : RawTelemetry F
  unfolding csv_at
  duplicate_source_timestamp = csv_at (some fixture_now)

  unfoldable pub backward_source_timestamp : RawTelemetry F
  unfolding csv_at
  backward_source_timestamp = csv_at (some (fixture_now - 1000))

  unfoldable pub missing_source_timestamp : RawTelemetry F
  unfolding csv_at
  missing_source_timestamp = csv_at none

  unfoldable pub very_large_source_timestamp : RawTelemetry F
  unfolding csv_at
  very_large_source_timestamp = csv_at (some u64_max)

module _ {F : Type 0} ⦃text : FloatText F⦄ (int_reason float_reason : Chars → Chars) where
  optional_value : Chars → (name : Chars) → Option F → Result (Option F) Chars
  optional_value trimmed name none =
      err (codes "invalid " ++ name ++ codes " " ++ float_reason trimmed)
  optional_value trimmed name (some x) = ok (some x)

  unfoldable pub parse_optional_f32 : Chars → (name : Chars) → Result (Option F) Chars
  unfolding optional_value
  parse_optional_f32 field name = elim (is_empty (trim field)) [
    | true ↦ ok none
    | false ↦ optional_value (trim field) name (text.parse_f32 (trim field))
  ]

  row_of : (source_unix_ms : Option UnixMillis) → (gpu_temp_c power_w : Option F) → RawTelemetry F
  row_of source_unix_ms gpu_temp_c power_w = record {
    source_unix_ms = source_unix_ms;
    timestamp_origin = csv_source;
    source = software_fallback;
    gpu_temp_c = gpu_temp_c;
    vram_temp_c = none;
    power_w = power_w;
    vddcr_gfx_v = none;
    gpu_clock_mhz = none;
    mem_clock_mhz = none;
    fan_speed_pct = none;
    mem_util_pct = none;
  }

  row_of_columns : (line : Chars) → List Chars → Result (RawTelemetry F) Chars
  unfolding parse_source_timestamp_field parse_optional_f32 row_of
  row_of_columns line (c₀ ∷ c₁ ∷ c₂ ∷ []) = do
    source_unix_ms ←
        parse_source_timestamp_field
          (λ trimmed. codes "invalid source timestamp " ++ int_reason trimmed) c₀
    gpu_temp_c ← parse_optional_f32 c₁ (codes "gpu_temp_c")
    power_w ← parse_optional_f32 c₂ (codes "power_w")
    ok (row_of source_unix_ms gpu_temp_c power_w)
  row_of_columns line columns = err (
      codes "expected 3 CSV columns (source_unix_ms,gpu_temp_c,power_w), got "
      ++ u64_chars (length columns)
      ++ codes ": "
      ++ line)

  unfoldable pub raw_from_csv_row : Chars → Result (RawTelemetry F) Chars
  unfolding row_of_columns
  raw_from_csv_row line = row_of_columns line (split 44 line)

  columns-IsReplayed :
      (line : Chars) (columns : List Chars) {raw : RawTelemetry F}
      → row_of_columns line columns ≡ ok raw
      → IsReplayed raw
  unfolding row_of_columns row_of
  columns-IsReplayed line [] h = absurd (cc)
  columns-IsReplayed line (c₀ ∷ []) h = absurd (cc)
  columns-IsReplayed line (c₀ ∷ c₁ ∷ []) h = absurd (cc)
  columns-IsReplayed line (c₀ ∷ c₁ ∷ c₂ ∷ []) h = (ground arith, ground arith)
  columns-IsReplayed line (c₀ ∷ c₁ ∷ c₂ ∷ c₃ ∷ columns) h = absurd (cc)

  -- A replayed row is never taken for readings of sensors.
  pub raw_from_csv_row-IsReplayed :
      (line : Chars) {raw : RawTelemetry F} → raw_from_csv_row line ≡ ok raw → IsReplayed raw
  unfolding raw_from_csv_row
  raw_from_csv_row-IsReplayed line h = columns-IsReplayed line (split 44 line) h
