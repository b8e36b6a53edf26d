-- ===== src/Gpu/Bridge/Provenance.antt =====
-- src/gpu.rs: where the readings of the bridge come from.
use thalamic_relay.Prelude.{
  ◌≡◌, refl, Bool, true, false, Option, none, some, Result, ok, err, Chars,
}
use thalamic_relay.Float.{Float}
use thalamic_relay.Time.{UnixMillis, live_acquire}
use thalamic_relay.Telemetry.{TelemetrySource}
use thalamic_relay.Telemetry.Frame.{RawTelemetry, idle_estimates, unavailable}
use thalamic_relay.Gpu.{Nvml, GpuTarget}
use thalamic_relay.Gpu.Bridge.{
  device_reading, derive_vddcr_gfx_v, map_option, read_nvml, acquire_raw, is_gpu_healthy,
}

-- Why no device is read: there is no target, `nvidia-smi -L` fails, the driver cannot be
-- loaded, or it finds no device by the target's identity.
pub data HasNoDevice (bridge : Option GpuTarget) (health : Option Bool) (driver : Option Nvml)
    : Type 1 where
  no_target : bridge ≡ none → HasNoDevice bridge health driver
  unhealthy : is_gpu_healthy health ≡ false → HasNoDevice bridge health driver
  no_driver : driver ≡ none → HasNoDevice bridge health driver
  not_found :
      {nvml : Nvml} {target : GpuTarget} {e : Chars}
      → bridge ≡ some target
      → driver ≡ some nvml
      → nvml.device_by_uuid target.uuid ≡ err e
      → HasNoDevice bridge health driver

module _ (F : Type 0) ⦃float : Float F⦄ where
  -- Each channel is what the driver reports of that sensor, in °C, W, MHz and %; the core voltage is
  -- derived from the power, and there is no sensor of the memory's temperature.
  pub record IsReadingOf (nvml : Nvml) (device : nvml.Device) (now : UnixMillis)
      (raw : RawTelemetry F) : Type 0 where
    pub source : raw.source ≡ TelemetrySource.nvml
    pub origin : raw.timestamp_origin ≡ live_acquire
    pub at : raw.source_unix_ms ≡ some now
    pub temp : raw.gpu_temp_c ≡ map_option (nvml.temperature device) float.from_u32
    pub power :
        raw.power_w
        ≡ map_option
            (nvml.power_usage device)
            (λ mw. float.div (float.from_u32 mw) (float.milli 1000000))
    pub voltage : raw.vddcr_gfx_v ≡ map_option raw.power_w derive_vddcr_gfx_v
    pub gpu_clock : raw.gpu_clock_mhz ≡ map_option (nvml.graphics_clock device) float.from_u32
    pub mem_clock : raw.mem_clock_mhz ≡ map_option (nvml.memory_clock device) float.from_u32
    pub fan : raw.fan_speed_pct ≡ map_option (nvml.fan_speed device) float.from_u32
    pub mem_util : raw.mem_util_pct ≡ map_option (nvml.memory_utilization device) float.from_u32
    pub vram : raw.vram_temp_c ≡ none

  -- Every sensor is missing, and the source says so.
  pub record IsBlind (raw : RawTelemetry F) : Type 0 where
    pub source : raw.source ≡ TelemetrySource.nvml_unavailable
    pub temp : raw.gpu_temp_c ≡ none
    pub vram : raw.vram_temp_c ≡ none
    pub power : raw.power_w ≡ none
    pub voltage : raw.vddcr_gfx_v ≡ none
    pub gpu_clock : raw.gpu_clock_mhz ≡ none
    pub mem_clock : raw.mem_clock_mhz ≡ none
    pub fan : raw.fan_speed_pct ≡ none
    pub mem_util : raw.mem_util_pct ≡ none

  -- Where a raw reading comes from: the estimates were asked for, or it is that of the device which the
  -- driver finds by the target's identity, or every sensor is missing because there is no such device.
  pub data ComesFrom (bridge : Option GpuTarget) (force : Bool) (health : Option Bool)
      (driver : Option Nvml) (now : UnixMillis) (raw : RawTelemetry F) : Type 1 where
    estimates :
        force ≡ true → raw ≡ idle_estimates now → ComesFrom bridge force health driver now raw
    sensors :
        {nvml : Nvml} {target : GpuTarget} {device : nvml.Device}
        → force ≡ false
        → bridge ≡ some target
        → is_gpu_healthy health ≡ true
        → driver ≡ some nvml
        → nvml.device_by_uuid target.uuid ≡ ok device
        → IsReadingOf nvml device now raw
        → ComesFrom bridge force health driver now raw
    no_sensors :
        force ≡ false
        → HasNoDevice bridge health driver
        → IsBlind raw
        → ComesFrom bridge force health driver now raw

  blind : (now : UnixMillis) → IsBlind (unavailable now)
  unfolding unavailable
  blind now = record {
    source = refl;
    temp = refl;
    vram = refl;
    power = refl;
    voltage = refl;
    gpu_clock = refl;
    mem_clock = refl;
    fan = refl;
    mem_util = refl;
  }

  reading_of :
      (nvml : Nvml) (device : nvml.Device) (now : UnixMillis)
      → IsReadingOf nvml device now (device_reading nvml device now)
  unfolding device_reading
  reading_of nvml device now = record {
    source = refl;
    origin = refl;
    at = refl;
    temp = refl;
    power = refl;
    voltage = refl;
    gpu_clock = refl;
    mem_clock = refl;
    fan = refl;
    mem_util = refl;
    vram = refl;
  }

  from_driver :
      (nvml : Nvml) (target : GpuTarget) (now : UnixMillis) (r : Result nvml.Device Chars)
      → nvml.device_by_uuid target.uuid ≡ r
      → ComesFrom
          (some target)
          false
          (some true)
          (some nvml)
          now
          (acquire_raw (some target) false (some true) (some nvml) now)
  unfolding acquire_raw read_nvml
  from_driver nvml target now (ok device) q =
      rw q (sensors refl refl refl refl q (reading_of nvml device now))
  from_driver nvml target now (err e) q = rw q (no_sensors refl (not_found refl refl q) (blind now))

  -- A reading of the bridge is the idle estimates exactly where software-only telemetry is forced. Else
  -- each channel is what the driver reports of the device with the target's identity; or there is no
  -- target, no success of `nvidia-smi -L`, no driver or no such device, and then all sensors are missing.
  pub acquire_raw-ComesFrom :
      (bridge : Option GpuTarget) (force : Bool) (health : Option Bool) (driver : Option Nvml)
      (now : UnixMillis)
      → ComesFrom bridge force health driver now (acquire_raw bridge force health driver now)
  unfolding acquire_raw read_nvml
  acquire_raw-ComesFrom bridge true health driver now = estimates refl refl
  acquire_raw-ComesFrom none false health driver now = no_sensors refl (no_target refl) (blind now)
  acquire_raw-ComesFrom (some target) false none driver now =
      no_sensors refl (unhealthy refl) (blind now)
  acquire_raw-ComesFrom (some target) false (some false) driver now =
      no_sensors refl (unhealthy refl) (blind now)
  acquire_raw-ComesFrom (some target) false (some true) none now =
      no_sensors refl (no_driver refl) (blind now)
  acquire_raw-ComesFrom (some target) false (some true) (some nvml) now =
      from_driver nvml target now (nvml.device_by_uuid target.uuid) refl
