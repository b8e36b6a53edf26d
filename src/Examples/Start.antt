-- ===== src/Examples/Start.antt =====
-- Examples for the start of `run`: an earlier run has left its brake.
use thalamic_relay.Prelude.{
  arith, ◌≡◌, ◌↔◌, refl, true, false, ok, none, some, [], ◌∷◌, unwrap_or, is_whitespace,
  parse_unsigned,
}
use thalamic_relay.Float.Fixed.{Fixed, fixed_float, fixed}
use thalamic_relay.Policy.{SafetyPolicy, resolve}
use thalamic_relay.Time.{with_session_id, stamp}
use thalamic_relay.Telemetry.Frame.{from_raw_with_clock}
use thalamic_relay.Supervisor.Tick.{ticks}
use thalamic_relay.Supervisor.Tick.Guard.{IsTimely}
use thalamic_relay.Supervisor.Dispatch.{IsSingle}
use thalamic_relay.Startup.Run.Timely.{loop_options, run_to_loop-ticks-IsTimely}
use thalamic_relay.Examples.Daemon.{iteration_at}
use thalamic_relay.Lock.{undisturbed, lock_step, recorded_pid, try_acquire_lock, check_legacy_lock}
use thalamic_relay.Gpu.{Nvml, resolve_target}
use thalamic_relay.Gpu.Bridge.{query_power_limit_w, query_default_power_limit_w}
use thalamic_relay.Gate.{returned, default}
use thalamic_relay.Publish.{new}
use thalamic_relay.Publish.Publisher.{AbsentPublisher, absent_publisher, absent_try_publish}
use thalamic_relay.Supervisor.Loop.{Supervisor, start}
use thalamic_relay.Startup.{Cli, build_publisher, prepare, check_options, safety_policy_config}
use thalamic_relay.Startup.Run.{Services, Driver, Started, startup_policy, run_to_loop}
use thalamic_relay.Startup.Run.Brake.{FindsBrake, run_to_loop-FindsBrake_iff}
use thalamic_relay.Startup.Run.SoftwareOnly.{run_to_loop-software_only}
use thalamic_relay.Examples.Hardware.{no_call_fails, alive, device, gpu, cli, before, after}

abbrev braked : Nvml
braked = record device { power_management_limit = λ d. some 150000 }

abbrev driver : Driver
driver = record {
  at_resolution = some braked;
  resolution = returned tt;
  resolution_ended = true;
  at_query = some braked;
  query = returned tt;
}

-- The endpoint of corpus-ipc does not parse.
abbrev services : Services
services = record {
  recorder_installs = true;
  endpoint_parses = false;
  publisher_spawns = false;
  sigterm_registers = true;
}

abbrev simulated : Cli Fixed
simulated = record cli { force_software_only = true }

abbrev checked_policy : SafetyPolicy Fixed
unfolding safety_policy_config
checked_policy = record {
  config = safety_policy_config simulated;
  power_limits_w = none;
  power_limit_source = "unavailable";
}

abbrev started : Started Fixed AbsentPublisher
unfolding start default with_session_id
started = record {
  target = some gpu;
  current_w = some 150;
  default_w = some 300;
  supervisor = start checked_policy (with_session_id "boot") absent_publisher (some 150) (some 300);
}

simulated_starts :
    run_to_loop simulated "boot" (λ chosen. absent_publisher) services driver ≡ ok started
unfolding run_to_loop build_publisher new start default with_session_id resolve_target resolve
    safety_policy_config query_power_limit_w query_default_power_limit_w
simulated_starts = refl

run_to_loop-FindsBrake_iff_example :
    (started.supervisor.machine.brake_engaged ≡ true) ↔ FindsBrake Fixed driver
run_to_loop-FindsBrake_iff_example =
    run_to_loop-FindsBrake_iff simulated "boot" (λ chosen. absent_publisher) services driver
      simulated_starts

simulated_prepares :
    prepare 12 alive false (undisturbed alive no_call_fails) simulated before ≡ (ok tt, after)
unfolding prepare check_options resolve check_legacy_lock try_acquire_lock lock_step recorded_pid
    is_whitespace parse_unsigned
simulated_prepares = refl

run_to_loop-software_only_example :
    (r : Started Fixed AbsentPublisher) × (run_to_loop simulated "boot"
        (λ chosen. absent_publisher)
        services
        driver
      ≡ ok r)
    × (resolve (safety_policy_config simulated) none ≡ ok r.supervisor.machine.policy)
run_to_loop-software_only_example =
    run_to_loop-software_only 12 alive false (undisturbed alive no_call_fails) simulated before
      after "boot" (λ chosen. absent_publisher) services driver simulated_prepares refl
      (omega arith) (omega arith) refl refl

-- Readings of sensors, and a release after one healthy frame.
abbrev swift : Cli Fixed
swift = record cli { safety_release_ok_streak = 1 }

abbrev swift_policy : SafetyPolicy Fixed
unfolding safety_policy_config
swift_policy = record {
  config = safety_policy_config swift;
  power_limits_w = some (fixed 255000, fixed 300000);
  power_limit_source = "device_default";
}

abbrev swift_start : Started Fixed AbsentPublisher
swift_start = record started {
  supervisor = start swift_policy (with_session_id "boot") absent_publisher (some 150) (some 300);
}

swift_starts :
    run_to_loop swift "boot" (λ chosen. absent_publisher) services driver ≡ ok swift_start
unfolding run_to_loop build_publisher new start default with_session_id resolve_target resolve
    safety_policy_config query_power_limit_w query_default_power_limit_w
swift_starts = refl

abbrev swift_end : Supervisor Fixed AbsentPublisher
swift_end =
    unwrap_or (ticks (loop_options swift) swift_start.supervisor (iteration_at 1000 ∷ []))
      swift_start.supervisor

swift_reached :
    ticks (loop_options swift) swift_start.supervisor (iteration_at 1000 ∷ []) ≡ some swift_end
unfolding ticks start from_raw_with_clock stamp with_session_id
swift_reached = refl

run_to_loop-ticks-IsTimely_example :
    ((p : SafetyPolicy Fixed) × (startup_policy swift swift_start.default_w ≡ ok p)
      × IsTimely p swift_end.log)
    × IsSingle swift_end.slots
run_to_loop-ticks-IsTimely_example =
    run_to_loop-ticks-IsTimely swift "boot" (λ chosen. absent_publisher) services driver
      (iteration_at 1000 ∷ []) swift_starts swift_reached
