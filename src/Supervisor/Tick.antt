-- ===== src/Supervisor/Tick.antt =====
-- src/daemon.rs: one iteration of the loop in `run`, and the orderly shutdown after it.
use thalamic_relay.Prelude.{
  and_then, ℕ, ◌+◌, ◌%◌, Bool, true, false, ◌||◌, if◌then◌else◌, Option, none, some, String, List,
  [], ◌∷◌,
}
use thalamic_relay.Float.{Float}
use thalamic_relay.Telemetry.Frame.{TelemetryFrame}
use thalamic_relay.Telemetry.Mapping.{to_sensory_mapping_at}
use thalamic_relay.Machine.{
  BrakeIntent, apply, ActuatorOutcome, applied, released, apply_failed, release_failed, snapshot,
}
use thalamic_relay.Shutdown.{
  ShutdownReason, from_tasks, ShutdownActuation, await_apply, await_authorized_release,
  ShutdownPlan, plan_shutdown, InFlightJoin, succeeded, failed, panicked, timed_out, Waited,
  join_in_flight,
}
use thalamic_relay.Metrics.{RelayMetrics, record_shutdown}
use thalamic_relay.Publish.Publisher.{SensoryPublisher}
use thalamic_relay.Supervisor.{
  should_evaluate_tick, should_dispatch_intent, pending_is, Slots, dispatch_due_or_pending,
}
use thalamic_relay.Supervisor.Loop.{
  Cli, Event, spawns, Supervisor, Reading, settle, acquire, record_and_store, evaluate_and_store,
  reassess_after_actuation,
}
pub mod Guard

-- What one iteration meets. A result is missing while its task runs, and holds the text of an error or
-- of a panic.
pub record Iteration (F : Type 0) : Type 0 where
  pub ended_before_retry : Bool
  pub ended_before_dispatch : Bool
  pub reading : Reading F
  pub brake_result : Option (Option String)
  pub after_brake : Reading F
  pub release_result : Option (Option String)
  pub after_release : Reading F

-- `evaluated_this_iter`, `actuation_failed_this_tick` and `dispatch_due`.
pub record Flow : Type 0 where
  pub evaluated : Bool
  pub failed : Bool
  pub due : Bool

abbrev start_of_flow : Flow
start_of_flow = record { evaluated = false; failed = false; due = false }

logged : {F : Type 0} → Bool → BrakeIntent → List (Event F) → List (Event F)
logged true intent log = spawns intent ∷ log
logged false intent log = log

module _ {F : Type 0} ⦃float : Float F⦄ {P : Type 0} ⦃publisher : SensoryPublisher F P⦄ where
  -- A call of `dispatch_due_or_pending` with the machine's own snapshot.
  unfoldable pub dispatch : (worker_ended due : Bool) → Supervisor F P → Supervisor F P
  unfolding dispatch_due_or_pending snapshot logged
  dispatch ended due s =
      let intent = (snapshot s.machine).intent in
      let (spawned, slots, gate) =
        dispatch_due_or_pending intent (settle ended s.gate) due s.slots in
      record s { slots = slots; gate = gate; log = logged spawned intent s.log }

  unfoldable pub retry_blocked_apply : Bool → Supervisor F P → Supervisor F P
  unfolding dispatch pending_is
  retry_blocked_apply ended s =
      if pending_is s.slots.pending_intent apply then dispatch ended false s else s

  abbrev clear_brake : Supervisor F P → Supervisor F P
  clear_brake s = let slots = s.slots in record s { slots = record slots { brake_task = false } }

  abbrev clear_release : Supervisor F P → Supervisor F P
  clear_release s =
      let slots = s.slots in record s { slots = record slots { release_task = false } }

  -- What a finished task of either kind leads to; the slot was cleared.
  unfoldable pub on_finished :
      Cli
      → (success : ActuatorOutcome) → (failure : String → ActuatorOutcome) → Option String
      → Reading F
      → Flow
      → Supervisor F P
      → Option (Flow × Supervisor F P)
  unfolding reassess_after_actuation record_and_store
  on_finished cli success failure none r flow s =
      and_then (reassess_after_actuation cli success r s)
        (λ s'. some (record flow { evaluated = true; due = true }, s'))
  on_finished cli success failure (some e) r flow s =
      some (record flow { failed = true }, record_and_store (failure e) s)

  join_task :
      Cli
      → (success : ActuatorOutcome) → (failure : String → ActuatorOutcome) → (in_flight : Bool)
      → (cleared : Supervisor F P) → Option (Option String)
      → Reading F
      → Flow
      → Supervisor F P
      → Option (Flow × Supervisor F P)
  unfolding on_finished
  join_task cli success failure true cleared (some result) r flow s =
      on_finished cli success failure result r flow cleared
  join_task cli success failure _ cleared _ r flow s = some (flow, s)

  unfoldable pub join_brake :
      Cli
      → Option (Option String)
      → Reading F
      → Flow
      → Supervisor F P
      → Option (Flow × Supervisor F P)
  unfolding join_task
  join_brake cli result r flow s =
      join_task cli applied apply_failed s.slots.brake_task (clear_brake s) result r flow s

  unfoldable pub join_release :
      Cli
      → Option (Option String)
      → Reading F
      → Flow
      → Supervisor F P
      → Option (Flow × Supervisor F P)
  unfolding join_task
  join_release cli result r flow s =
      join_task cli released release_failed s.slots.release_task (clear_release s) result r flow s

  publish_only : TelemetryFrame F → Reading F → Supervisor F P → Supervisor F P
  publish_only frame r s =
      let (result, p) =
        publisher.try_publish s.publisher r.attempts (to_sensory_mapping_at frame r.emitted_at) in
      record s { publisher = p }

  -- The evaluation or the publication of the iteration's own frame, on whether a frame was evaluated
  -- already and whether an evaluation is due.
  on_cadence :
      (evaluated turn : Bool)
      → TelemetryFrame F
      → Reading F
      → Flow
      → Supervisor F P
      → Bool × Supervisor F P
  unfolding publish_only evaluate_and_store should_dispatch_intent snapshot
  on_cadence true turn frame r flow s = (flow.due, s)
  on_cadence false true frame r flow s =
      let prior = (snapshot s.machine).intent in
      let (snap, s') = evaluate_and_store frame r s in
      (should_dispatch_intent s.step_count prior snap.intent flow.failed, s')
  on_cadence false false frame r flow s = (flow.due, publish_only frame r s)

  -- The Boolean is `dispatch_due`.
  unfoldable pub evaluate_or_publish :
      TelemetryFrame F → Reading F → Flow → Supervisor F P → Bool × Supervisor F P
  unfolding on_cadence should_evaluate_tick
  evaluate_or_publish frame r flow s =
      on_cadence flow.evaluated (should_evaluate_tick s.step_count frame.source) frame r flow s

  store_acquired : TelemetryFrame F → Supervisor F P → Supervisor F P
  store_acquired frame s =
      let metrics = s.metrics in
      record s { metrics = record metrics { telemetry_acquired_at = some frame.acquired_at } }

  -- The parts of an iteration from its end to its start: after both tasks, after the brake task, and
  -- after the read.
  after_tasks : Iteration F → TelemetryFrame F → Flow × Supervisor F P → Option (Supervisor F P)
  unfolding evaluate_or_publish dispatch store_acquired
  after_tasks it frame (flow, s) =
      let (due, s') = evaluate_or_publish frame it.reading flow s in
      some (store_acquired frame (dispatch it.ended_before_dispatch due s'))

  after_brake_task :
      Cli → Iteration F → TelemetryFrame F → Flow × Supervisor F P → Option (Supervisor F P)
  unfolding join_release after_tasks
  after_brake_task cli it frame (flow, s) =
      and_then (join_release cli it.release_result it.after_release flow s) (after_tasks it frame)

  after_read : Cli → Iteration F → TelemetryFrame F × Supervisor F P → Option (Supervisor F P)
  unfolding join_brake after_brake_task
  after_read cli it (frame, s) =
      and_then (join_brake cli it.brake_result it.after_brake start_of_flow s)
        (after_brake_task cli it frame)

  next_step : Supervisor F P → Supervisor F P
  next_step s = record s { step_count = (s.step_count + 1) % 18446744073709551616 }

  -- One iteration, up to the `select!`. `none` is the panic of the clock's stamp.
  unfoldable pub tick : Cli → Supervisor F P → Iteration F → Option (Supervisor F P)
  unfolding retry_blocked_apply acquire after_read next_step
  tick cli s it =
      and_then (acquire cli (retry_blocked_apply it.ended_before_retry (next_step s)) it.reading)
        (after_read cli it)

  unfoldable pub ticks : Cli → Supervisor F P → List (Iteration F) → Option (Supervisor F P)
  unfolding tick
  ticks cli s [] = some s
  ticks cli s (it ∷ rest) = and_then (tick cli s it) (λ s'. ticks cli s' rest)
