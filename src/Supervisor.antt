-- ===== src/Supervisor.antt =====
-- src/daemon.rs: the supervisor loop. A slot says whether it holds a task; what a task returned, what
-- was read and when, and which driver workers ended, are the inputs of an iteration.
use thalamic_relay.Prelude.{
  ℕ, suc, ◌+◌, ◌*◌, ◌%◌, ltb, ◌==◌, Bool, true, false, not, ◌&&◌, ◌||◌, if◌then◌else◌, Option, none,
  some, is_none, String, List, [], ◌∷◌, Result, ok, err,
}
use thalamic_relay.Float.{Float}
use thalamic_relay.Time.{UnixMillis, SampleClock}
use thalamic_relay.Telemetry.{TelemetrySource}
use thalamic_relay.Telemetry.Frame.{RawTelemetry, TelemetryFrame, from_raw_with_clock}
use thalamic_relay.Telemetry.Mapping.{to_sensory_mapping_at}
use thalamic_relay.Machine.{
  BrakeIntent, hold, apply, release, ActuatorOutcome, applied, released, apply_failed,
  release_failed, SafetySnapshot, SafetyMachine, seed_brake_applied, snapshot, evaluate,
  record_actuator,
}
use thalamic_relay.Machine.Hysteresis.{Call, evaluates, records}
use thalamic_relay.PowerLimit.{PowerLimitObservation, classify_power_limit, brake_fraction}
use thalamic_relay.Gate.{NvmlRunError, NvmlGate, try_enter, drop_permit}
use thalamic_relay.Publish.Queue.{TryLock}
use thalamic_relay.Publish.Publisher.{SensoryPublisher, evaluate_then_try_publish}
pub mod Dispatch
pub mod Report
pub mod Loop
pub mod Tick
pub mod Exit

unfoldable pub is_multiple_of_ten : ℕ → Bool
is_multiple_of_ten n = n % 10 == 0

is_unavailable : TelemetrySource → Bool
is_unavailable TelemetrySource.nvml_unavailable = true
is_unavailable _ = false

unfoldable pub should_evaluate_tick : ℕ → TelemetrySource → Bool
unfolding is_multiple_of_ten is_unavailable
should_evaluate_tick step_count source =
    step_count == 1 || is_multiple_of_ten step_count || is_unavailable source

-- The derived `==` of the intents.
unfoldable pub same_intent : BrakeIntent → BrakeIntent → Bool
same_intent hold hold = true
same_intent apply apply = true
same_intent release release = true
same_intent _ _ = false

unfoldable pub should_dispatch_intent :
    ℕ → (prior current : BrakeIntent) → (actuation_failed_this_tick : Bool) → Bool
unfolding same_intent is_multiple_of_ten
should_dispatch_intent step_count prior current failed =
    if same_intent current hold
    then false
    else if not (same_intent current prior)
    then true
    else not failed && (step_count == 1 || is_multiple_of_ten step_count)

-- The two slots, and the intent that waits for the gate.
pub record Slots : Type 0 where
  pub brake_task : Bool
  pub release_task : Bool
  pub pending_intent : Option BrakeIntent

pub data DispatchResult : Type 0 where
  spawned gate_busy already_in_flight no_intent : DispatchResult

-- `spawn_intent`, once the slots are empty and the gate was asked.
spawn_on : BrakeIntent → Result (Unit {0}) NvmlRunError → Slots → DispatchResult × Slots
spawn_on hold entered s = (no_intent, s)
spawn_on intent (err _) s = (gate_busy, s)
spawn_on apply (ok _) s = (spawned, record s { brake_task = true })
spawn_on release (ok _) s = (spawned, record s { release_task = true })

-- Whether `spawn_intent` gets as far as to ask the gate.
asks_gate : BrakeIntent → Bool
asks_gate hold = false
asks_gate _ = true

spawn_when : (in_flight : Bool) → BrakeIntent → NvmlGate → Slots → DispatchResult × Slots × NvmlGate
unfolding spawn_on asks_gate try_enter
spawn_when true intent gate s = (already_in_flight, s, gate)
spawn_when false intent gate s =
    let (entered, gate') = try_enter gate in
    let (result, s') = spawn_on intent entered s in
    (result, s', if asks_gate intent then gate' else gate)

unfoldable pub spawn_intent : BrakeIntent → NvmlGate → Slots → DispatchResult × Slots × NvmlGate
unfolding spawn_when
spawn_intent intent gate s = spawn_when (s.brake_task || s.release_task) intent gate s

pending_is : Option BrakeIntent → BrakeIntent → Bool
unfolding same_intent
pending_is none intent = false
pending_is (some waiting) intent = same_intent waiting intent

-- What still waits after an attempt.
waits : DispatchResult → BrakeIntent → Option BrakeIntent
waits gate_busy intent = some intent
waits _ intent = none

is_spawned : DispatchResult → Bool
is_spawned spawned = true
is_spawned _ = false

dispatch_when : (attempted : Bool) → BrakeIntent → NvmlGate → Slots → Bool × Slots × NvmlGate
unfolding spawn_intent waits is_spawned
dispatch_when true intent gate s =
    let (result, s', gate') = spawn_intent intent gate s in
    (is_spawned result, record s' { pending_intent = waits result intent }, gate')
dispatch_when false intent gate s = (false, record s { pending_intent = none }, gate)

-- `dispatch_due_or_pending`: whether a task was spawned, the slots and the gate. An intent that waits
-- is kept only if it is the snapshot's.
unfoldable pub dispatch_due_or_pending :
    BrakeIntent → NvmlGate → (due : Bool) → Slots → Bool × Slots × NvmlGate
unfolding dispatch_when pending_is
dispatch_due_or_pending intent gate due s =
    dispatch_when (due || pending_is s.pending_intent intent) intent gate s
