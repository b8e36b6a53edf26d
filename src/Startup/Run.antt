-- ===== src/Startup/Run.antt =====
-- src/daemon.rs: `run` up to its loop. The driver that each worker finds and what each wait gives are
-- the record `Driver`; whether the other services come up is the record `Services`; the id of a new
-- session and the state of a publisher that was chosen are arguments. A later driver call finds the gate as the earlier one left it, or free where
-- the earlier worker has ended since.
use thalamic_relay.Prelude.{
  ℕ, Bool, true, false, if◌then◌else◌, Option, none, some, String, same_text, Result, ok, err,
}
use thalamic_relay.Float.{Float}
use thalamic_relay.Time.{SampleClock, with_session_id}
use thalamic_relay.Policy.{SafetyPolicy, PolicyError, resolve}
use thalamic_relay.Gate.{NvmlGate, NvmlRunError, Wait, default, returned, join_error, elapsed, run}
use thalamic_relay.Gpu.{Nvml, GpuTarget, resolve_target}
use thalamic_relay.Gpu.Actuator.{query_power_limits_w}
use thalamic_relay.Publish.Publisher.{SensoryPublisher}
use thalamic_relay.Supervisor.Loop.{Supervisor, start, settle}
use thalamic_relay.Startup.{
  Cli, ChosenPublisher, safety_policy_config, resolve_gpu_target, build_publisher,
}
pub mod Brake
pub mod SoftwareOnly
pub mod Timely

pub record Driver : Type 1 where
  pub at_resolution : Option Nvml
  pub resolution : Wait (Unit {0})
  pub resolution_ended : Bool
  pub at_query : Option Nvml
  pub query : Wait (Unit {0})

-- The wait for a worker that computes a value.
abbrev pub waited : {T : Type 0} → Wait (Unit {0}) → T → Wait T
waited (returned _) value = returned value
waited join_error value = join_error
waited elapsed value = elapsed

-- `unwrap_or_else`.
abbrev pub limits_or_none : Result (Option ℕ × Option ℕ) NvmlRunError → Option ℕ × Option ℕ
limits_or_none (ok limits) = limits
limits_or_none (err e) = (none, none)

-- The read-only query before the loop: the current and the default limit.
unfoldable pub startup_limits :
    Option Nvml → Option GpuTarget → Wait (Unit {0}) → NvmlGate → (Option ℕ × Option ℕ) × NvmlGate
unfolding run query_power_limits_w
startup_limits driver target wait gate =
    let (result, gate') = run gate (waited wait (query_power_limits_w driver target)) in
    (limits_or_none result, gate')

-- `SampleClock::new` or `with_session_id`.
unfoldable pub clock_of : (session_id generated : String) → SampleClock
unfolding with_session_id
clock_of session_id generated =
    if same_text session_id "" then with_session_id generated else with_session_id session_id

-- Whether the metrics recorder is installed, the endpoint of corpus-ipc parses, its publisher can be
-- spawned, and the handler of SIGTERM is registered.
pub record Services : Type 0 where
  pub recorder_installs : Bool
  pub endpoint_parses : Bool
  pub publisher_spawns : Bool
  pub sigterm_registers : Bool

-- Why `run` does not reach its loop: an error of the policy or of the signal, or a panic of one of the
-- two `expect`s.
pub data RunError : Type 0 where
  policy_fails : PolicyError → RunError
  recorder_panics : RunError
  publisher_panics : RunError
  sigterm_fails : RunError

pub record Started (F P : Type 0) : Type 0 where
  pub target : Option GpuTarget
  pub current_w : Option ℕ
  pub default_w : Option ℕ
  pub supervisor : Supervisor F P

module _ {F : Type 0} ⦃float : Float F⦄ where
  watts : Option ℕ → Option F
  watts none = none
  watts (some w) = some (float.from_u32 w)

  unfoldable pub startup_policy :
      Cli F → (default_w : Option ℕ) → Result (SafetyPolicy F) PolicyError
  unfolding resolve safety_policy_config watts
  startup_policy cli default_w =
      resolve (safety_policy_config cli) (if cli.force_software_only then none else watts default_w)

  module _ {P : Type 0} ⦃publisher : SensoryPublisher F P⦄ where
    -- What `run` enters its loop with.
    loop_state :
        Cli F
        → (generated : String) → P
        → Option GpuTarget
        → (limits : Option ℕ × Option ℕ) → NvmlGate
        → SafetyPolicy F
        → Started F P
    unfolding start clock_of
    loop_state cli generated p target (current_w, default_w) gate policy = record {
      target = target;
      current_w = current_w;
      default_w = default_w;
      supervisor =
          record (start policy (clock_of cli.ipc_session_id generated) p current_w default_w) {
            gate = gate;
          };
    }

    -- The steps behind the policy, in order: the recorder, the publisher, the signal.
    pub launch :
        (recorder_installs : Bool)
        → Option ChosenPublisher
        → (sigterm_registers : Bool) → (ChosenPublisher → Started F P)
        → Result (Started F P) RunError
    launch false publisher sigterm state = err recorder_panics
    launch true none sigterm state = err publisher_panics
    launch true (some chosen) false state = err sigterm_fails
    launch true (some chosen) true state = ok (state chosen)

    enter_loop :
        Cli F
        → (generated : String) → (connect : ChosenPublisher → P) → Services
        → Option GpuTarget
        → (limits : Option ℕ × Option ℕ) → NvmlGate
        → Result (SafetyPolicy F) PolicyError
        → Result (Started F P) RunError
    unfolding loop_state launch build_publisher
    enter_loop cli generated connect services target limits gate (err e) = err (policy_fails e)
    enter_loop cli generated connect services target limits gate (ok p) =
        launch services.recorder_installs
          (build_publisher cli services.endpoint_parses services.publisher_spawns)
          services.sigterm_registers
          (λ chosen. loop_state cli generated (connect chosen) target limits gate p)

    unfoldable pub run_to_loop :
        Cli F
        → (generated : String) → (connect : ChosenPublisher → P) → Services
        → Driver
        → Result (Started F P) RunError
    unfolding resolve_target resolve_gpu_target startup_limits startup_policy enter_loop
    run_to_loop cli generated connect services driver =
        let (target, gate) =
          resolve_gpu_target default
            (waited driver.resolution (resolve_target driver.at_resolution)) in
        let (limits, gate') =
          startup_limits driver.at_query target driver.query
            (settle driver.resolution_ended gate) in
        enter_loop cli generated connect services target limits gate' (startup_policy cli limits.1)
