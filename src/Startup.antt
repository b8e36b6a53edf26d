-- ===== src/Startup.antt =====
-- src/daemon.rs: the options, and what is checked and taken before the loop starts. `clap` reads the
-- options; those that name an address and the flag of the hardware check are left out. A refused start is an error here, also
-- where the process exits with a message.
use thalamic_relay.Prelude.{
  ℕ, ◌*◌, Bool, true, false, ◌||◌, ltb, if◌then◌else◌, List, Option, none, some, and_then, Result,
  ok, err, ◌>>=◌, ◌>>◌, ok_or, refuse_if, String, same_text, Chars, parse_unsigned, u64_max,
  saturating_mul,
}
use thalamic_relay.Float.{Float}
use thalamic_relay.Policy.{SafetyPolicyConfig, SafetyPolicy, PolicyError, resolve}
use thalamic_relay.Lock.{
  LockFile, Refusal, Phase, Call, holding, refused, try_acquire_lock, check_legacy_lock,
}
use thalamic_relay.Publish.{QueueFullPolicy, QueueConfig, QueueConfigError, validate_capacity, new}
use thalamic_relay.Gate.{NvmlGate, NvmlRunError, Wait, run}
use thalamic_relay.Gpu.{GpuTarget, TargetError}
pub mod Ready
pub mod Run
pub mod Smoke

pub record Cli (F : Type 0) : Type 0 where
  pub safety_temp_warn_c : F
  pub safety_temp_critical_c : F
  pub safety_power_warn_w : Option F
  pub safety_power_critical_w : Option F
  pub safety_release_ok_streak : ℕ
  pub safety_max_sample_age_ms : ℕ
  pub safety_max_acquisition_interval_ms : ℕ
  pub step_interval_ms : ℕ
  pub force_software_only : Bool
  pub ipc_disabled : Bool
  pub ipc_session_id : String
  pub sensory_queue_capacity : ℕ
  pub sensory_queue_full_policy : QueueFullPolicy

-- The two lock files.
pub record Locks : Type 0 where
  pub legacy : LockFile
  pub process : LockFile

pub data StartError : Type 0 where
  policy : PolicyError → StartError
  step_interval : StartError
  locked : Refusal → StartError
  unfinished : StartError

-- `parse_sensory_queue_capacity`: its errors, on a 64-bit target.
pub data CapacityError : Type 0 where
  not_a_number : CapacityError
  out_of_bounds : QueueConfigError → CapacityError

capacity_of : Result ℕ QueueConfigError → Result ℕ CapacityError
capacity_of (ok capacity) = ok capacity
capacity_of (err e) = err (out_of_bounds e)

unfoldable pub parse_sensory_queue_capacity : Chars → Result ℕ CapacityError
unfolding capacity_of validate_capacity
parse_sensory_queue_capacity s = do
  raw ← ok_or (parse_unsigned u64_max s) not_a_number
  capacity_of (validate_capacity raw)

pub data ChosenPublisher : Type 0 where
  absent : ChosenPublisher
  corpus_ipc : (session_id : Option String) → QueueConfig → ChosenPublisher

-- A target, or the reason that is logged.
unfoldable pub resolve_gpu_target :
    NvmlGate → Wait (Result GpuTarget TargetError) → Option GpuTarget × NvmlGate
unfolding run
resolve_gpu_target gate outcome =
    let (result, gate') = run gate outcome in
    (elim result [ err e ↦ none | ok (err e) ↦ none | ok (ok target) ↦ some target ], gate')

-- `unfinished` where the list of calls ends before the start has returned.
lock_result : Phase × LockFile → Result (Unit {0}) StartError × LockFile
lock_result (holding, f) = (ok tt, f)
lock_result (refused why, f) = (err (locked why), f)
lock_result (_, f) = (err unfinished, f)

chosen : Option String → Result QueueConfig QueueConfigError → Bool → Bool → Option ChosenPublisher
chosen session (err e) parses spawned = none
chosen session (ok config) true true = some (corpus_ipc session config)
chosen session (ok config) _ _ = some absent

take_process_lock :
    (pid : ℕ)
    → List Call
    → Result (Unit {0}) Refusal × LockFile
    → LockFile
    → Result (Unit {0}) StartError × Locks
unfolding try_acquire_lock lock_result
take_process_lock pid calls (err why, legacy) process =
    (err (locked why), record { legacy = legacy; process = process })
take_process_lock pid calls (ok _, legacy) process =
    let (result, process') = lock_result (try_acquire_lock pid calls process) in
    (result, record { legacy = legacy; process = process' })

prepare_with :
    (pid : ℕ)
    → (alive : ℕ → Bool) → (remove_fails : Bool) → List Call
    → Result (Unit {0}) StartError
    → Locks
    → Result (Unit {0}) StartError × Locks
unfolding check_legacy_lock take_process_lock
prepare_with pid alive remove_fails calls (err e) locks = (err e, locks)
prepare_with pid alive remove_fails calls (ok _) locks =
    take_process_lock pid calls (check_legacy_lock remove_fails alive locks.legacy) locks.process

module _ {F : Type 0} where
  unfoldable pub safety_policy_config : Cli F → SafetyPolicyConfig F
  safety_policy_config cli = record {
    temp_warn_c = cli.safety_temp_warn_c;
    temp_critical_c = cli.safety_temp_critical_c;
    power_warn_w = cli.safety_power_warn_w;
    power_critical_w = cli.safety_power_critical_w;
    release_ok_streak = cli.safety_release_ok_streak;
    max_sample_age_ms = cli.safety_max_sample_age_ms;
    max_acquisition_interval_ms = cli.safety_max_acquisition_interval_ms;
  }

  -- Whether the endpoint parses and whether the socket can be made are arguments. `none` is the panic
  -- of `expect`.
  unfoldable pub build_publisher : Cli F → (endpoint_parses spawned : Bool) → Option ChosenPublisher
  unfolding chosen new
  build_publisher cli endpoint_parses spawned =
      if cli.ipc_disabled
      then some absent
      else chosen (if same_text cli.ipc_session_id "" then none else some cli.ipc_session_id)
          (new cli.sensory_queue_capacity cli.sensory_queue_full_policy) endpoint_parses spawned

module _ {F : Type 0} ⦃float : Float F⦄ where
  -- `map_err` on the policy.
  policy_of : Result (SafetyPolicy F) PolicyError → Result (SafetyPolicy F) StartError
  policy_of (ok p) = ok p
  policy_of (err e) = err (policy e)

  -- The checks of `prepare` that come before the locks.
  unfoldable pub check_options : Cli F → Result (Unit {0}) StartError
  unfolding safety_policy_config resolve policy_of
  check_options cli = do
    _ ← policy_of (resolve (safety_policy_config cli) none)
    refuse_if
        (ltb cli.safety_max_acquisition_interval_ms cli.step_interval_ms
          || ltb cli.safety_max_sample_age_ms (saturating_mul u64_max cli.step_interval_ms 10))
        step_interval

  -- `prepare`, by the process `pid`. Which processes exist, and whether the removal fails, at the check
  -- of the legacy lock are `alive` and `remove_fails`; `calls` are those on the process lock.
  unfoldable pub prepare :
      (pid : ℕ)
      → (alive : ℕ → Bool) → (remove_fails : Bool) → List Call
      → Cli F
      → Locks
      → Result (Unit {0}) StartError × Locks
  unfolding check_options prepare_with
  prepare pid alive remove_fails calls cli locks =
      prepare_with pid alive remove_fails calls (check_options cli) locks
