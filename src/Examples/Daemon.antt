-- ===== src/Examples/Daemon.antt =====
-- Examples for the supervisor loop and its shutdown.
use thalamic_relay.Prelude.{
  ◌||◌, ℕ, unwrap_or, ◌≡◌, refl, ◌↔◌, ◌⊎◌, true, false, none, some, [], ◌∷◌,
}
use thalamic_relay.Float.Fixed.{Fixed, fixed_float}
use thalamic_relay.Time.{stamp}
use thalamic_relay.Telemetry.Frame.{from_raw_with_clock}
use thalamic_relay.Policy.{SafetyPolicy}
use thalamic_relay.Metrics.{freshness_seconds_monotonic}
use thalamic_relay.Gate.{returned, default}
use thalamic_relay.Shutdown.{sigint, elapsed}
use thalamic_relay.Publish.Queue.{acquired}
use thalamic_relay.Publish.Publisher.{AbsentPublisher, absent_publisher, absent_try_publish}
use thalamic_relay.Supervisor.{same_intent, Slots, dispatch_due_or_pending}
use thalamic_relay.Machine.{apply, hold}
use thalamic_relay.Supervisor.Dispatch.{IsSingle, dispatch_due_or_pending-spawned_iff}
use thalamic_relay.Supervisor.Loop.{Cli, Supervisor, Reading, start}
use thalamic_relay.Supervisor.Tick.{Iteration, ticks}
use thalamic_relay.Supervisor.Tick.Guard.{IsTimely}
use thalamic_relay.Supervisor.Tick.Guard.Release.{ticks-IsTimely, ticks-freshness}
use thalamic_relay.Supervisor.Exit.{perform_orderly_shutdown}
use thalamic_relay.Supervisor.Exit.Brake.{spawned_of, brake_after, perform_orderly_shutdown-brake}
use thalamic_relay.Examples.Data.{config, policy, clock, reading_at}

abbrev step : ℕ
step = 20

-- An apply that was refused by the gate, once the gate is free.
abbrev waiting : Slots
waiting = record { brake_task = false; release_task = false; pending_intent = some apply }

dispatch_due_or_pending-spawned_iff_example :
    ((dispatch_due_or_pending apply default false waiting).0 ≡ true) ↔ (
      ((false ≡ true) ⊎ (waiting.pending_intent ≡ some apply))
      × ((waiting.brake_task || waiting.release_task) ≡ false)
      × (same_intent apply hold ≡ false)
      × (default.held ≡ false))
dispatch_due_or_pending-spawned_iff_example =
    dispatch_due_or_pending-spawned_iff apply default false waiting

abbrev cli : Cli
cli = record { force_software_only = false; step_interval_ms = 100 }

abbrev pub read_at : ℕ → Reading Fixed
read_at at = record {
  worker_ended = true;
  outcome = returned (reading_at 60000 at);
  read_at = at;
  now = at;
  emitted_at = at;
  attempts = λ spin. acquired;
}

abbrev pub iteration_at : ℕ → Iteration Fixed
iteration_at at = record {
  ended_before_retry = true;
  ended_before_dispatch = true;
  reading = read_at at;
  brake_result = none;
  after_brake = read_at at;
  release_result = none;
  after_release = read_at at;
}

-- A policy with a streak of one.
abbrev swift : SafetyPolicy Fixed
swift = record policy { config = record config { release_ok_streak = 1 } }

-- A start with a leftover brake.
abbrev begun : Supervisor Fixed AbsentPublisher
begun = start swift clock absent_publisher (some 150) (some 300)

abbrev ended : Supervisor Fixed AbsentPublisher
ended = unwrap_or (ticks cli begun (iteration_at 1000 ∷ [])) begun

reached : ticks cli begun (iteration_at 1000 ∷ []) ≡ some ended
unfolding ticks start from_raw_with_clock stamp
reached = refl

-- The first healthy frame is enough for this policy, and its release is spawned.
ticks-IsTimely_example : IsTimely swift ended.log × IsSingle ended.slots
ticks-IsTimely_example =
    ticks-IsTimely swift clock absent_publisher (some 150) (some 300) cli (iteration_at 1000 ∷ [])
      reached

ticks-freshness_example :
    freshness_seconds_monotonic ended.metrics.telemetry_received_instant 5000 ≡ 0
ticks-freshness_example =
    ticks-freshness swift clock absent_publisher (some 150) (some 300) cli (iteration_at 1000 ∷ [])
      5000 reached

perform_orderly_shutdown-brake_example :
    let s' = (perform_orderly_shutdown sigint begun elapsed).1 in
    (spawned_of s'.log ≡ spawned_of begun.log)
    × (s'.slots.brake_task ≡ false)
    × (s'.slots.release_task ≡ false)
    × (s'.machine.brake_engaged
        ≡ brake_after begun.slots.brake_task begun.slots.release_task elapsed
            begun.machine.brake_engaged)
perform_orderly_shutdown-brake_example = perform_orderly_shutdown-brake sigint begun elapsed
