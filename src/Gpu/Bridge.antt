-- ===== src/Gpu/Bridge.antt =====
-- src/gpu.rs: the reads of the hardware bridge. The driver at the time of a read, the result of
-- `nvidia-smi -L` and the wall clock are arguments. The flag that keeps a log line from being repeated
-- is left out.
pub mod Provenance
use thalamic_relay.Prelude.{
  ℕ, ◌/◌, Bool, false, Option, none, some, and_then, unwrap_or, Result, ok, err, if◌then◌else◌,
}
use thalamic_relay.Float.{Float, clamp}
use thalamic_relay.Time.{UnixMillis, live_acquire}
use thalamic_relay.Telemetry.{TelemetrySource}
use thalamic_relay.Telemetry.Frame.{RawTelemetry, idle_estimates, unavailable}
use thalamic_relay.Gpu.{Nvml, GpuTarget}

-- `Result::ok`.
abbrev pub ok_of {ℓ κ} : {A : Type ℓ} {E : Type κ} → Result A E → Option A
ok_of (ok a) = some a
ok_of (err e) = none

abbrev pub map_option {ℓ κ} : {A : Type ℓ} {B : Type κ} → Option A → (A → B) → Option B
map_option none f = none
map_option (some a) f = some (f a)

-- `query_power_limit_w` and `query_default_power_limit_w`: the limit in milliwatts, divided by 1000.
unfoldable pub query_power_limit_w : Option Nvml → GpuTarget → Option ℕ
query_power_limit_w driver target = and_then driver λ nvml.
    and_then (ok_of (nvml.device_by_uuid target.uuid))
      λ device. and_then (nvml.power_management_limit device) λ limit_mw. some (limit_mw / 1000)

unfoldable pub query_default_power_limit_w : Option Nvml → GpuTarget → Option ℕ
query_default_power_limit_w driver target = and_then driver λ nvml.
    and_then (ok_of (nvml.device_by_uuid target.uuid)) λ device.
      and_then (nvml.power_management_limit_default device) λ limit_mw. some (limit_mw / 1000)

-- `is_gpu_healthy`: the exit of `nvidia-smi`, or none where it could not be run.
abbrev pub is_gpu_healthy : Option Bool → Bool
is_gpu_healthy none = false
is_gpu_healthy (some success) = success

module _ {F : Type 0} ⦃float : Float F⦄ where
  unfoldable pub derive_vddcr_gfx_v : F → F
  derive_vddcr_gfx_v power_w =
      let p_idle = float.milli 50000 in
      let p_tdp = float.milli 300000 in
      let v_idle = float.milli 700 in
      let v_tdp = float.milli 1050 in
      let t =
        clamp (float.milli 0) (float.milli 1000)
          (float.div (float.sub power_w p_idle) (float.sub p_tdp p_idle)) in
      float.add v_idle (float.mul t (float.sub v_tdp v_idle))

  -- What a device gives, each sensor apart.
  unfoldable pub device_reading : (nvml : Nvml) → nvml.Device → UnixMillis → RawTelemetry F
  unfolding derive_vddcr_gfx_v
  device_reading nvml device observed_at =
      let power_w =
        map_option (nvml.power_usage device)
          λ mw. float.div (float.from_u32 mw) (float.milli 1000000) in
      record {
        source_unix_ms = some observed_at;
        timestamp_origin = live_acquire;
        source = TelemetrySource.nvml;
        gpu_temp_c = map_option (nvml.temperature device) float.from_u32;
        vram_temp_c = none;
        power_w = power_w;
        vddcr_gfx_v = map_option power_w derive_vddcr_gfx_v;
        gpu_clock_mhz = map_option (nvml.graphics_clock device) float.from_u32;
        mem_clock_mhz = map_option (nvml.memory_clock device) float.from_u32;
        fan_speed_pct = map_option (nvml.fan_speed device) float.from_u32;
        mem_util_pct = map_option (nvml.memory_utilization device) float.from_u32;
      }

  unfoldable pub read_nvml :
      (health : Option Bool) → Option Nvml → UnixMillis → GpuTarget → Option (RawTelemetry F)
  unfolding device_reading
  read_nvml health driver observed_at target =
      if is_gpu_healthy health
      then and_then driver (λ nvml.
        and_then (ok_of (nvml.device_by_uuid target.uuid))
          λ device. some (device_reading nvml device observed_at))
      else none

  -- `HardwareBridge::acquire_raw`; the bridge is its target.
  unfoldable pub acquire_raw :
      (bridge : Option GpuTarget)
      → (force_software : Bool) → (health : Option Bool) → Option Nvml
      → UnixMillis
      → RawTelemetry F
  unfolding read_nvml
  acquire_raw bridge force_software health driver now =
      if force_software
      then idle_estimates now
      else unwrap_or (and_then bridge (read_nvml health driver now)) (unavailable now)
