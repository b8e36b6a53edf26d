-- ===== src/Startup/Smoke/Passed.antt =====
-- src/daemon.rs: what a passed check of the hardware has seen.
use thalamic_relay.Prelude.{
  ℕ, ◌<◌, ◌≡◌, refl, subst, Bool, false, Option, Option-cases, none, some, unwrap_or, ok, String,
  Result-cases, inl, inr, arith,
}
use thalamic_relay.Float.{Float, IsFloat}
use thalamic_relay.Time.{UnixMillis, SampleClock, with_session_id}
use thalamic_relay.Telemetry.{
  TelemetrySource, SampleValidity, valid, missing, invalid, stale, SignalId, stale_after_ms,
}
use thalamic_relay.Telemetry.Sample.Usable.{IsUsable}
use thalamic_relay.Telemetry.Frame.{RawTelemetry, TelemetryFrame, from_raw_with_clock}
use thalamic_relay.Telemetry.Frame.Channels.{from_raw_with_clock-IsAssembled}
use thalamic_relay.Gpu.{Nvml, GpuTarget, resolve_target}
use thalamic_relay.Gpu.Identity.{IsBound, resolve_target-IsBound_iff}
use thalamic_relay.Gpu.Bridge.{map_option, query_power_limit_w, query_default_power_limit_w}
use thalamic_relay.Gpu.Bridge.Provenance.{
  ComesFrom, estimates, sensors, no_sensors, acquire_raw-ComesFrom,
}
use thalamic_relay.Startup.Smoke.{
  check_limits, sample_result, require_hardware_smoke_sample, assessed, check_readings,
  run_gpu_hardware_smoke,
}

limits_checked :
    (current default : Option ℕ) {c d : ℕ}
    → check_limits current default ≡ ok (c, d)
    → (current ≡ some c) × (default ≡ some d) × (0 < c) × (0 < d)
unfolding check_limits
limits_checked none default h = absurd (cc)
limits_checked (some c') none h = absurd (cc)
limits_checked (some c') (some d') {c} {d} h =
    (ground arith, ground arith, ground arith, ground arith)

module _ {F : Type 0} ⦃float : Float F⦄ where
  result_valid :
      (label : String) (v : SampleValidity) (reading : Option F)
      → sample_result label v reading ≡ ok tt
      → v ≡ valid
  unfolding sample_result
  result_valid label valid reading h = refl
  result_valid label missing reading h = absurd (cc)
  result_valid label invalid reading h = absurd (cc)
  result_valid label stale reading h = absurd (cc)

  frame_assessed :
      (raw : RawTelemetry F) (now : UnixMillis) (clock : SampleClock) {frame : TelemetryFrame F}
      → assessed raw now clock ≡ ok frame
      → (after : SampleClock) × (from_raw_with_clock raw now 100 clock ≡ some (frame, after))
  unfolding assessed
  frame_assessed raw now clock h = elim (Option-cases (from_raw_with_clock raw now 100 clock)) [
    | inl e ↦ absurd (ground (arith, e))
    | inr ((f, after), e) ↦ (after, ground (arith, e))
  ]

  -- The checks of a frame that was assessed.
  record HasChecked (driver : Option Nvml) (raw : RawTelemetry F) (target : GpuTarget)
      (frame : TelemetryFrame F) (c d : ℕ) : Type 0 where
    live : raw.source ≡ TelemetrySource.nvml
    temp_valid : frame.gpu_temp_c.validity ≡ valid
    power_valid : frame.power_w.validity ≡ valid
    limits :
        check_limits (query_power_limit_w driver target) (query_default_power_limit_w driver target)
        ≡ ok (c, d)

  readings_checked :
      (driver : Option Nvml) (raw : RawTelemetry F) (now : UnixMillis) (clock : SampleClock)
      (target : GpuTarget) {c d : ℕ}
      → check_readings driver raw now clock target ≡ ok (c, d)
      → (frame : TelemetryFrame F) × (assessed raw now clock ≡ ok frame)
        × HasChecked driver raw target frame c d
  unfolding check_readings require_hardware_smoke_sample
  readings_checked driver raw now clock target h = elim (Result-cases (assessed raw now clock)) [
    | inr (e, q) ↦ absurd (ground (arith, q))
    | inl (frame, q) ↦
        let temp =
          result_valid "GPU temperature" frame.gpu_temp_c.validity frame.gpu_temp_c.value in
        let power = result_valid "GPU board power" frame.power_w.validity frame.power_w.value in
        (
          frame,
          q,
          record {
            live = ground (arith, q);
            temp_valid = temp (ground (arith, q));
            power_valid = power (ground (arith, q));
            limits = ground (arith, q);
          },
        )
  ]

-- What a passed check has seen: a target that is bound, usable readings of the temperature and the
-- power from the sensors of the device with its identity, and its two limits.
pub record HasPassed {F : Type 0} ⦃float : Float F⦄ (laws : IsFloat F) (driver : Option Nvml)
    (now : UnixMillis) (c d : ℕ) : Type 1 where
  pub target : GpuTarget
  pub bound : IsBound driver target
  pub nvml : Nvml
  pub device : nvml.Device
  pub driver_is : driver ≡ some nvml
  pub found : nvml.device_by_uuid target.uuid ≡ ok device
  pub temp :
      IsUsable laws SignalId.gpu_temp_c
        (map_option (nvml.temperature device) float.from_u32)
        now
        now
        (stale_after_ms F SignalId.gpu_temp_c 100)
  pub power :
      IsUsable laws SignalId.power_w
        (map_option
          (nvml.power_usage device)
          (λ mw. float.div (float.from_u32 mw) (float.milli 1000000)))
        now
        now
        (stale_after_ms F SignalId.power_w 100)
  pub current_is : query_power_limit_w driver target ≡ some c
  pub default_is : query_default_power_limit_w driver target ≡ some d
  pub positive : (0 < c) × (0 < d)

module _ {F : Type 0} ⦃float : Float F⦄ (laws : IsFloat F) where
  IsUsable-at :
      (id : SignalId) {at : Option UnixMillis} {reading sensor : Option F} {now : ℕ} (limit : ℕ)
      → at ≡ some now
      → reading ≡ sensor
      → IsUsable laws id reading (unwrap_or at now) now limit
      → IsUsable laws id sensor now now limit
  IsUsable-at id {reading = reading} {now = now} limit e same u =
      subst (λ r. IsUsable laws id r now now limit) same
        (subst (λ o. IsUsable laws id reading (unwrap_or o now) now limit) e u)

  passed_with :
      (target : GpuTarget) (health : Option Bool) (driver : Option Nvml) (now : UnixMillis)
      (clock : SampleClock) (raw : RawTelemetry F) {c d : ℕ}
      → resolve_target driver ≡ ok target
      → ComesFrom F (some target) false health driver now raw
      → check_readings {F = F} driver raw now clock target ≡ ok (c, d)
      → HasPassed laws driver now c d
  passed_with target health driver now clock raw q (estimates forced e) h = absurd (cc)
  passed_with target health driver now clock raw q (no_sensors _ _ b) h =
      let (frame, made, k) = readings_checked driver raw now clock target h in
      absurd (let live = k.live in let gone = b.source in cc)
  passed_with target health driver now clock raw q
        (sensors {nvml = nvml} {target = there} {device = device} _ same healthy is found reads) h =
      let (frame, made, k) = readings_checked driver raw now clock target h in
      let (after, made') = frame_assessed raw now clock made in
      let a = from_raw_with_clock-IsAssembled laws raw now 100 clock made' in
      let (current, default, pc, pd) = limits_checked _ _ k.limits in
      record {
        target = target;
        bound = (resolve_target-IsBound_iff driver target).0 q;
        nvml = nvml;
        device = device;
        driver_is = is;
        found = subst (λ (t : GpuTarget). nvml.device_by_uuid t.uuid ≡ ok device) (cc) found;
        temp =
            IsUsable-at SignalId.gpu_temp_c _ reads.at reads.temp
              (a.gpu_temp_c.usable.0 k.temp_valid);
        power =
            IsUsable-at SignalId.power_w _ reads.at reads.power (a.power_w.usable.0 k.power_valid);
        current_is = current;
        default_is = default;
        positive = (pc, pd);
      }

  -- The hardware check passes only with a target that the driver binds, with a temperature and a power
  -- that the sensors of the device with that identity report, finite and in the range of their signals,
  -- and with a current and a default limit of that target that are both positive; these are the two
  -- limits that it prints. (`laws` are those of f32.)
  pub run_gpu_hardware_smoke-HasPassed :
      (listed : Bool) (health : Option Bool) (driver : Option Nvml) (now : UnixMillis)
      (session_id : String) {c d : ℕ}
      → run_gpu_hardware_smoke F listed health driver now session_id ≡ ok (c, d)
      → HasPassed laws driver now c d
  unfolding run_gpu_hardware_smoke
  run_gpu_hardware_smoke-HasPassed listed health driver now session_id h =
      elim (Result-cases (resolve_target driver)) [
        | inr (e, q) ↦ absurd (ground (arith, q))
        | inl (target, q) ↦
            passed_with target health driver now (with_session_id session_id) _ q
              (acquire_raw-ComesFrom F (some target) false health driver now) (ground (arith, q))
      ]
