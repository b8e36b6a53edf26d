-- ===== src/Telemetry.antt =====
-- src/telemetry.rs: the kinds of telemetry, and the inventory of signals with the contract of each.
-- `F` is the type `f32`.
use thalamic_relay.Prelude.{
  ℕ, Bool, true, false, ◌==◌, ◌||◌, not, ◌&&◌, if◌then◌else◌, List, [], ◌∷◌, String, u64_max,
  saturating_mul,
}
use thalamic_relay.Float.{Float, ◌≺◌, clamp}
pub mod Sample
pub mod Frame
pub mod Mapping
pub mod Fixtures

pub data TelemetrySource : Type 0 where
  nvml software_fallback nvml_unavailable : TelemetrySource

pub data SampleValidity : Type 0 where
  valid missing invalid stale : SampleValidity

pub data MeasureUnit : Type 0 where
  celsius watt volt megahertz percent : MeasureUnit

pub data SignalClass : Type 0 where
  runtime_input safety_only observability_only both : SignalClass

unfoldable pub includes_runtime_input : SignalClass → Bool
includes_runtime_input runtime_input = true
includes_runtime_input both = true
includes_runtime_input _ = false

unfoldable pub includes_safety : SignalClass → Bool
includes_safety safety_only = true
includes_safety both = true
includes_safety _ = false

pub data SignalOrigin : Type 0 where
  measured derived : SignalOrigin

pub data Normalization (F : Type 0) : Type 0 where
  identity : Normalization F
  linear : F → F → Normalization F

module _ {F : Type 0} ⦃float : Float F⦄ where
  -- `Normalization::apply`.
  unfoldable pub apply : Normalization F → F → F
  apply identity value = value
  apply (linear lo hi) value =
      let span = float.sub hi lo in
      if not (float.is_finite span) || (float.abs span ≺ float.epsilon)
      then float.milli 0
      else clamp (float.milli 0) (float.milli 1000) (float.div (float.sub value lo) span)

pub data SignalId : Type 0 where
  gpu_temp_c vram_temp_c power_w vddcr_gfx_v gpu_clock_mhz mem_clock_mhz : SignalId
  fan_speed_pct mem_util_pct : SignalId

abbrev pub all_signals : List SignalId
all_signals =
    gpu_temp_c ∷ vram_temp_c ∷ power_w ∷ vddcr_gfx_v ∷ gpu_clock_mhz ∷ mem_clock_mhz ∷ fan_speed_pct
    ∷ mem_util_pct ∷ []

abbrev pub default_acquisition_cadence_ms : ℕ
default_acquisition_cadence_ms = 100

abbrev pub safety_stale_after_ms : ℕ
safety_stale_after_ms = 2000

abbrev pub observability_stale_after_ms : ℕ
observability_stale_after_ms = 5000

abbrev pub safety_eval_ticks : ℕ
safety_eval_ticks = 10

pub record SignalSpec (F : Type 0) : Type 0 where
  pub id : SignalId
  pub name : String
  pub unit : MeasureUnit
  pub lo : F
  pub hi : F
  pub origin : SignalOrigin
  pub class : SignalClass
  pub normalization : Normalization F
  pub cadence_ms : ℕ
  pub stale_after_ms : ℕ

module _ {F : Type 0} ⦃float : Float F⦄ where
  -- One row of the table: the range and the normalization in thousandths.
  abbrev spec_row :
      SignalId
      → String
      → MeasureUnit
      → (lo hi : ℕ) → SignalOrigin
      → SignalClass
      → (norm_lo norm_hi : ℕ) → (stale_after_ms : ℕ) → SignalSpec F
  spec_row id name unit lo hi origin class norm_lo norm_hi stale_after_ms = record {
    id = id;
    name = name;
    unit = unit;
    lo = float.milli lo;
    hi = float.milli hi;
    origin = origin;
    class = class;
    normalization = linear (float.milli norm_lo) (float.milli norm_hi);
    cadence_ms = default_acquisition_cadence_ms;
    stale_after_ms = stale_after_ms;
  }

  unfoldable pub signal_spec : SignalId → SignalSpec F
  signal_spec gpu_temp_c =
      spec_row gpu_temp_c "gpu_temp_c" celsius 0 125000 measured both 0 100000 safety_stale_after_ms
  signal_spec vram_temp_c =
      spec_row vram_temp_c "vram_temp_c" celsius 0 125000 measured observability_only 0 100000
        observability_stale_after_ms
  signal_spec power_w =
      spec_row power_w "power_w" watt 0 2000000 measured both 0 350000 safety_stale_after_ms
  signal_spec vddcr_gfx_v =
      spec_row vddcr_gfx_v "vddcr_gfx_v" volt 400 1500 derived observability_only 500 1200
        observability_stale_after_ms
  signal_spec gpu_clock_mhz =
      spec_row gpu_clock_mhz "gpu_clock_mhz" megahertz 0 3000000 measured runtime_input 0 2500000
        observability_stale_after_ms
  signal_spec mem_clock_mhz =
      spec_row mem_clock_mhz "mem_clock_mhz" megahertz 0 12000000 measured observability_only 0
        10000000 observability_stale_after_ms
  signal_spec fan_speed_pct =
      spec_row fan_speed_pct "fan_speed_pct" percent 0 100000 measured observability_only 0 100000
        observability_stale_after_ms
  signal_spec mem_util_pct =
      spec_row mem_util_pct "mem_util_pct" percent 0 100000 measured runtime_input 0 100000
        observability_stale_after_ms

-- `signal_spec(signal).class` and `.stale_after_ms` do not depend on the floats of the table.
unfoldable pub stale_after_ms : (F : Type 0) ⦃float : Float F⦄ → SignalId → ℕ → ℕ
unfolding signal_spec includes_safety
stale_after_ms F signal cadence_ms =
    let spec : SignalSpec F = signal_spec signal in
    if includes_safety spec.class
    then saturating_mul u64_max
        (saturating_mul u64_max (if cadence_ms == 0 then 1 else cadence_ms) safety_eval_ticks) 2
    else spec.stale_after_ms
