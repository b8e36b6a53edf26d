-- ===== src/Examples/Hardware.antt =====
-- Examples for the process lock, the start, the GPU and the worker.
use thalamic_relay.Prelude.{
  ℕ, ◌≡◌, ◌↔◌, refl, Bool, true, false, not, ◌==◌, List, [], ◌∷◌, none, some, ok, arith, codes,
  is_whitespace, parse_unsigned,
}
use thalamic_relay.Float.Fixed.{Fixed, fixed_float, fixed, Fixed-IsFloat}
use thalamic_relay.Time.{stamp, with_session_id}
use thalamic_relay.Telemetry.{signal_spec, stale_after_ms}
use thalamic_relay.Telemetry.Sample.{from_raw_with_stale_after}
use thalamic_relay.Telemetry.Frame.{from_raw_with_clock, frame_of, sample_of}
use thalamic_relay.Policy.{resolve}
use thalamic_relay.Lock.{
  LockFile, absent, file, creating, writing, reading, holding, lock_step, recorded_pid,
  try_acquire_lock, check_legacy_lock, pid_line, undisturbed, Call,
}
use thalamic_relay.Lock.Alone.{IsStale, stale}
use thalamic_relay.Lock.Shared.{System, set, moved, Reachable, here, next, begin, call, idle}
use thalamic_relay.Lock.Shared.Exclusive.{reachable-IsExclusive}
use thalamic_relay.Lock.Disturbed.{Creates, try_acquire_lock-Creates}
use thalamic_relay.Lock.Race.{stale-both_hold}
use thalamic_relay.Startup.{Cli, Locks, prepare, check_options}
use thalamic_relay.Startup.Ready.{IsReady, prepare-IsReady}
use thalamic_relay.Startup.Smoke.{run_gpu_hardware_smoke}
use thalamic_relay.Startup.Smoke.Passed.{HasPassed, run_gpu_hardware_smoke-HasPassed}
use thalamic_relay.Publish.{QueueFullPolicy}
use thalamic_relay.Publish.Worker.{Worker, run_udp_worker, drained, run_udp_worker-drained}
use thalamic_relay.Gpu.{Nvml, GpuTarget, resolve_target}
use thalamic_relay.Gpu.Identity.{IsBound, resolve_target-IsBound_iff}
use thalamic_relay.Gpu.Bridge.{acquire_raw, query_power_limit_w, query_default_power_limit_w}
use thalamic_relay.Gpu.Bridge.Provenance.{ComesFrom, acquire_raw-ComesFrom}
use thalamic_relay.Gpu.Actuator.{Exec, apply_emergency_brake, release_emergency_brake}
use thalamic_relay.Gpu.Actuator.Commands.{
  AppliesBrake, ReleasesBrake, apply_emergency_brake-AppliesBrake,
  release_emergency_brake-ReleasesBrake,
}
use thalamic_relay.PowerLimit.{brake_fraction}

-- Process 7 does not exist.
abbrev pub alive : ℕ → Bool
alive pid = not (pid == 7)

abbrev left_behind : LockFile
left_behind = file 7 (codes "7\n")

left_behind-IsStale : IsStale alive left_behind
unfolding recorded_pid is_whitespace parse_unsigned
left_behind-IsStale = stale {recorded = 7} refl refl

abbrev second_create_fails : List Bool
second_create_fails = false ∷ false ∷ false ∷ false ∷ true ∷ false ∷ []

stale-both_hold_example :
    (s : System) × Reachable alive (idle left_behind) s
    × (s.phases 12 ≡ some holding)
    × (s.phases 13 ≡ some holding)
stale-both_hold_example =
    stale-both_hold alive left_behind 12 13 (omega arith) (omega arith) (omega arith) refl refl
      left_behind-IsStale

absent-fresh : ¬ IsStale alive absent
absent-fresh h = elim h [ ]

-- Two processes begin; process 12 creates the lock, 13 finds it, and 12 writes its pid.
abbrev both_begun : System
both_begun = record {
  phases = set 13 (some creating) (set 12 (some creating) (λ pid. none));
  lock = absent;
}

abbrev created : System
created = moved 12 (writing, file 12 []) both_begun

abbrev found : System
found = moved 13 (reading, file 12 []) created

abbrev held : System
held = moved 12 (holding, file 12 (pid_line 12)) found

held-Reachable : Reachable alive (idle absent) held
unfolding lock_step
held-Reachable =
    next {s = found}
      (next {s = created}
        (next {s = both_begun}
          (next (next here (begin 12 (omega arith) refl refl)) (begin 13 (omega arith) refl refl))
          (call 12 false creating refl))
        (call 13 false creating refl))
      (call 12 false writing refl)

reachable-IsExclusive_example : ◌≡◌ {A = ℕ} 12 12
reachable-IsExclusive_example =
    reachable-IsExclusive alive absent {s = held} absent-fresh held-Reachable 12 12 refl refl

abbrev pub device : Nvml
device = record {
  Device = ℕ;
  device_by_index = λ i. ok i;
  device_by_uuid = λ uuid. ok 0;
  uuid = λ d. ok (codes "GPU-12345678-1234-1234-1234-123456789abc");
  temperature = λ d. some 45;
  power_usage = λ d. some 120000;
  graphics_clock = λ d. some 210;
  memory_clock = λ d. some 405;
  fan_speed = λ d. none;
  memory_utilization = λ d. some 0;
  power_management_limit = λ d. some 300000;
  power_management_limit_default = λ d. some 300000;
}

abbrev pub gpu : GpuTarget
gpu = record { uuid = codes "GPU-12345678-1234-1234-1234-123456789abc" }

abbrev exec : Exec
exec = λ args. ok true

resolve_target-IsBound_iff_example :
    (resolve_target (some device) ≡ ok gpu) ↔ IsBound (some device) gpu
resolve_target-IsBound_iff_example = resolve_target-IsBound_iff (some device) gpu

apply_emergency_brake-AppliesBrake_example :
    AppliesBrake Fixed exec
      (some device)
      (some gpu)
      (apply_emergency_brake exec (some device) (some gpu) (brake_fraction {F = Fixed}))
apply_emergency_brake-AppliesBrake_example =
    apply_emergency_brake-AppliesBrake Fixed exec (some device) (some gpu)

release_emergency_brake-ReleasesBrake_example :
    ReleasesBrake Fixed exec
      (some device)
      (some gpu)
      (release_emergency_brake Fixed exec (some device) (some gpu))
release_emergency_brake-ReleasesBrake_example =
    release_emergency_brake-ReleasesBrake Fixed exec (some device) (some gpu)

acquire_raw-ComesFrom_example :
    ComesFrom Fixed
      (some gpu)
      false
      (some true)
      (some device)
      5000
      (acquire_raw (some gpu) false (some true) (some device) 5000)
acquire_raw-ComesFrom_example =
    acquire_raw-ComesFrom Fixed (some gpu) false (some true) (some device) 5000

-- Frames 1, 2 and 3 are queued, of which 2 cannot be sent.
abbrev worker : Worker ℕ
worker = record {
  queue = record {
    buf = 1 ∷ 2 ∷ 3 ∷ [];
    capacity = 4;
    policy = QueueFullPolicy.drop_oldest;
    connected = true;
    producers = 0;
    enqueued_total = 3;
    dropped_by_reason = 0 ∷ 0 ∷ 0 ∷ 0 ∷ 0 ∷ 0 ∷ [];
  };
  sent = [];
}

run_udp_worker-drained_example :
    run_udp_worker (λ frame. not (frame == 2)) 4 worker
    ≡ (false, drained (λ frame. not (frame == 2)) worker)
run_udp_worker-drained_example =
    run_udp_worker-drained (λ frame. not (frame == 2)) worker 4 refl (omega arith)

abbrev pub cli : Cli Fixed
cli = record {
  safety_temp_warn_c = fixed 75000;
  safety_temp_critical_c = fixed 85000;
  safety_power_warn_w = none;
  safety_power_critical_w = none;
  safety_release_ok_streak = 3;
  safety_max_sample_age_ms = 2000;
  safety_max_acquisition_interval_ms = 100;
  step_interval_ms = 100;
  force_software_only = false;
  ipc_disabled = false;
  ipc_session_id = "";
  sensory_queue_capacity = 32;
  sensory_queue_full_policy = QueueFullPolicy.drop_oldest;
}

abbrev pub before : Locks
before = record { legacy = absent; process = left_behind }

abbrev pub after : Locks
after = record { legacy = absent; process = file 12 (pid_line 12) }

abbrev pub no_call_fails : List Bool
no_call_fails = false ∷ false ∷ false ∷ false ∷ false ∷ false ∷ []

cli_prepares : prepare 12 alive false (undisturbed alive no_call_fails) cli before ≡ (ok tt, after)
unfolding prepare check_options resolve check_legacy_lock try_acquire_lock lock_step recorded_pid
    is_whitespace parse_unsigned
cli_prepares = refl

prepare-IsReady_example : IsReady alive 12 cli before after
prepare-IsReady_example =
    prepare-IsReady 12 alive false no_call_fails cli before after refl cli_prepares

hardware_passes :
    run_gpu_hardware_smoke Fixed true (some true) (some device) 5000 "boot" ≡ ok (300, 300)
unfolding run_gpu_hardware_smoke resolve_target acquire_raw from_raw_with_clock stamp
    with_session_id frame_of sample_of from_raw_with_stale_after signal_spec stale_after_ms
    query_power_limit_w query_default_power_limit_w
hardware_passes = refl

run_gpu_hardware_smoke-HasPassed_example : HasPassed Fixed-IsFloat (some device) 5000 300 300
run_gpu_hardware_smoke-HasPassed_example =
    run_gpu_hardware_smoke-HasPassed Fixed-IsFloat true (some true) (some device) 5000 "boot"
      hardware_passes

-- Another process removes the stale lock before the first call of process 12.
abbrev disturbed : List Call
disturbed =
    record { others = λ f. absent; fails = false; alive = alive }
    ∷ record { others = λ f. f; fails = false; alive = alive }
    ∷ []

disturbed_takes : try_acquire_lock 12 disturbed left_behind ≡ (holding, file 12 (pid_line 12))
unfolding try_acquire_lock lock_step
disturbed_takes = refl

try_acquire_lock-Creates_example : Creates 12 disturbed creating left_behind
try_acquire_lock-Creates_example = try_acquire_lock-Creates 12 disturbed left_behind disturbed_takes
