-- ===== src/Supervisor/Dispatch.antt =====
-- When the loop evaluates, and what it dispatches.
use thalamic_relay.Prelude.{
  ℕ, ◌%◌, ◌≡◌, refl, ◌↔◌, ◌⊎◌, Bool, true, false, ◌||◌, Option, some, arith,
}
use thalamic_relay.Telemetry.{TelemetrySource}
use thalamic_relay.Machine.{BrakeIntent, hold, apply, release}
use thalamic_relay.Gate.{NvmlGate, try_enter}
use thalamic_relay.Supervisor.{
  should_evaluate_tick, Slots, spawn_on, spawn_when, is_spawned, same_intent, pending_is,
  spawn_intent, dispatch_when, dispatch_due_or_pending,
}

-- At most one actuation is in flight.
abbrev pub IsSingle : Slots → Type 0
IsSingle s = s.brake_task ≡ true → s.release_task ≡ false

spawn-IsSingle :
    (in_flight : Bool) (intent : BrakeIntent) (gate : NvmlGate) (s : Slots)
    → (s.brake_task || s.release_task) ≡ in_flight
    → IsSingle s
    → IsSingle (spawn_when in_flight intent gate s).1
unfolding spawn_when spawn_on
spawn-IsSingle true intent gate s h single e = single e
spawn-IsSingle false hold gate s h single e = single e
spawn-IsSingle false apply gate s h single e = ground arith
spawn-IsSingle false release gate s h single e = ground arith

dispatch_when-IsSingle :
    (attempted : Bool) (intent : BrakeIntent) (gate : NvmlGate) (s : Slots)
    → IsSingle s
    → IsSingle (dispatch_when attempted intent gate s).1
unfolding dispatch_when spawn_intent
dispatch_when-IsSingle true intent gate s single e = spawn-IsSingle _ intent gate s refl single e
dispatch_when-IsSingle false intent gate s single e = single e

pub dispatch-IsSingle :
    (intent : BrakeIntent) (gate : NvmlGate) (due : Bool) (s : Slots)
    → IsSingle s
    → IsSingle (dispatch_due_or_pending intent gate due s).1
unfolding dispatch_due_or_pending
dispatch-IsSingle intent gate due s single = dispatch_when-IsSingle _ intent gate s single

-- The loop evaluates the first frame, every tenth one, and every frame that could not be read.
pub should_evaluate_tick_iff :
    (step_count : ℕ) (source : TelemetrySource)
    → (should_evaluate_tick step_count source ≡ true)
      ↔ ((step_count ≡ 1) ⊎ (step_count % 10 ≡ 0) ⊎ (source ≡ TelemetrySource.nvml_unavailable))
unfolding should_evaluate_tick
should_evaluate_tick_iff step_count source = (λ e. ground arith, λ h. ground arith)

spawn_when-spawned_iff :
    (in_flight : Bool) (intent : BrakeIntent) (gate : NvmlGate) (s : Slots)
    → (is_spawned (spawn_when in_flight intent gate s).0 ≡ true)
      ↔ ((in_flight ≡ false) × (same_intent intent hold ≡ false) × (gate.held ≡ false))
unfolding spawn_when spawn_on is_spawned same_intent try_enter
spawn_when-spawned_iff true intent gate s = (λ e. absurd (ground arith), λ h. absurd (ground arith))
spawn_when-spawned_iff false hold gate s = (λ e. absurd (ground arith), λ h. absurd (ground arith))
spawn_when-spawned_iff false apply gate s = (λ e. (refl, refl, ground arith), λ h. ground arith)
spawn_when-spawned_iff false release gate s = (λ e. (refl, refl, ground arith), λ h. ground arith)

dispatch_when-spawned_iff :
    (attempted : Bool) (intent : BrakeIntent) (gate : NvmlGate) (s : Slots)
    → ((dispatch_when attempted intent gate s).0 ≡ true) ↔ (
        (attempted ≡ true)
        × ((s.brake_task || s.release_task) ≡ false)
        × (same_intent intent hold ≡ false)
        × (gate.held ≡ false))
unfolding dispatch_when spawn_intent
dispatch_when-spawned_iff true intent gate s =
    let spawns = spawn_when-spawned_iff (s.brake_task || s.release_task) intent gate s in
    (λ e. let (a, b, c) = spawns.0 e in (refl, a, b, c), λ (h, a, b, c). spawns.1 (a, b, c))
dispatch_when-spawned_iff false intent gate s =
    (λ e. absurd (ground arith), λ h. absurd (ground arith))

pending_iff :
    (due : Bool) (pending : Option BrakeIntent) (intent : BrakeIntent)
    → ((due || pending_is pending intent) ≡ true) ↔ ((due ≡ true) ⊎ (pending ≡ some intent))
unfolding pending_is same_intent
pending_iff due pending intent = (λ e. ground arith, λ h. ground arith)

-- An actuation is spawned exactly when it is due, or waits for the gate and is still what the snapshot
-- asks for, no task is in flight, the snapshot asks for something, and the gate is free.
pub dispatch_due_or_pending-spawned_iff :
    (intent : BrakeIntent) (gate : NvmlGate) (due : Bool) (s : Slots)
    → ((dispatch_due_or_pending intent gate due s).0 ≡ true) ↔ (
        ((due ≡ true) ⊎ (s.pending_intent ≡ some intent))
        × ((s.brake_task || s.release_task) ≡ false)
        × (same_intent intent hold ≡ false)
        × (gate.held ≡ false))
unfolding dispatch_due_or_pending
dispatch_due_or_pending-spawned_iff intent gate due s =
    let asked = pending_iff due s.pending_intent intent in
    let spawns =
      dispatch_when-spawned_iff (due || pending_is s.pending_intent intent) intent gate s in
    (
      λ e. let (attempted, a, b, c) = spawns.0 e in (asked.0 attempted, a, b, c),
      λ (asks, a, b, c). spawns.1 (asked.1 asks, a, b, c),
    )
