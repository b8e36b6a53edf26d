-- ===== src/Supervisor/Loop.antt =====
-- src/daemon.rs: the state of the loop in `run`, its start, and what an iteration does in several places. The
-- log of the machine's calls and of the spawned actuations, newest first, is what the theorems speak of.
use thalamic_relay.Prelude.{
  and_then, ℕ, Bool, true, false, ◌&&◌, if◌then◌else◌, Option, none, some, List, [], ◌∷◌, ok, err,
  Result,
}
use thalamic_relay.Float.{Float}
use thalamic_relay.Time.{UnixMillis, SampleClock}
use thalamic_relay.Telemetry.Frame.{
  RawTelemetry, TelemetryFrame, idle_estimates, unavailable, from_raw_with_clock,
}
use thalamic_relay.Policy.{SafetyPolicy}
use thalamic_relay.Machine.{
  BrakeIntent, ActuatorOutcome, SafetySnapshot, SafetyMachine, with_policy, seed_brake_applied,
  snapshot, record_actuator,
}
use thalamic_relay.Machine.Hysteresis.{Call, evaluates, records}
use thalamic_relay.PowerLimit.{should_seed_leftover_brake, classify_power_limit, brake_fraction}
use thalamic_relay.Gate.{NvmlRunError, NvmlGate, default, drop_permit, Wait, run}
use thalamic_relay.Metrics.{RelayMetrics, default_metrics, record_safety_snapshot}
use thalamic_relay.Publish.Queue.{TryLock}
use thalamic_relay.Publish.Publisher.{SensoryPublisher, evaluate_then_try_publish}
use thalamic_relay.Supervisor.{Slots}

-- The two options of the command line that an iteration reads.
pub record Cli : Type 0 where
  pub force_software_only : Bool
  pub step_interval_ms : ℕ

pub data Event (F : Type 0) : Type 0 where
  calls : Call F → Event F
  spawns : BrakeIntent → Event F

pub record Supervisor (F P : Type 0) : Type 0 where
  pub machine : SafetyMachine F
  pub sample_clock : SampleClock
  pub slots : Slots
  pub gate : NvmlGate
  pub step_count : ℕ
  pub metrics : RelayMetrics
  pub publisher : P
  pub log : List (Event F)

-- One read: whether a driver worker ended before it, what the wait for it gives, the times that it, its
-- assessment and the publication read, and what the publication's `try_lock`s find.
pub record Reading (F : Type 0) : Type 0 where
  pub worker_ended : Bool
  pub outcome : Wait (RawTelemetry F)
  pub read_at : UnixMillis
  pub now : UnixMillis
  pub emitted_at : UnixMillis
  pub attempts : ℕ → TryLock

abbrev pub settle : Bool → NvmlGate → NvmlGate
settle ended gate = if ended && gate.held then drop_permit gate else gate

module _ {F : Type 0} ⦃float : Float F⦄ where
  raw_of : Result (RawTelemetry F) NvmlRunError → UnixMillis → RawTelemetry F
  raw_of (ok raw) now = raw
  raw_of (err e) now = unavailable now

  unfoldable pub acquire_raw_with_timeout :
      Bool → NvmlGate → Wait (RawTelemetry F) → UnixMillis → RawTelemetry F × NvmlGate
  unfolding raw_of run
  acquire_raw_with_timeout force_software_only gate outcome now =
      if force_software_only
      then (idle_estimates now, gate)
      else let (result, gate') = run gate outcome in (raw_of result now, gate')

  unfoldable pub seed_on : Bool → SafetyMachine F × RelayMetrics → SafetyMachine F × RelayMetrics
  unfolding record_safety_snapshot snapshot
  seed_on true (m, metrics) =
      let seeded = seed_brake_applied m in
      (seeded, record_safety_snapshot metrics (snapshot seeded))
  seed_on false (m, metrics) = (m, metrics)

  -- `seed_startup_brake`.
  unfoldable pub seed_startup_brake :
      (current_w default_w : Option ℕ)
      → SafetyMachine F × RelayMetrics
      → SafetyMachine F × RelayMetrics
  unfolding classify_power_limit should_seed_leftover_brake seed_on
  seed_startup_brake current_w default_w (m, metrics) =
      seed_on
        (should_seed_leftover_brake
          (classify_power_limit {F = F} current_w default_w brake_fraction))
        (m, metrics)

  module _ {P : Type 0} ⦃publisher : SensoryPublisher F P⦄ where
    -- The state in which `run` enters its loop.
    unfoldable pub start :
        SafetyPolicy F → SampleClock → P → (current_w default_w : Option ℕ) → Supervisor F P
    unfolding seed_startup_brake
    start policy clock p current_w default_w =
        let (m, metrics) =
          seed_startup_brake current_w default_w (with_policy policy, default_metrics) in
        record {
          machine = m;
          sample_clock = clock;
          slots = record { brake_task = false; release_task = false; pending_intent = none };
          gate = default;
          step_count = 0;
          metrics = metrics;
          publisher = p;
          log = [];
        }

    -- A read and its assessment.
    unfoldable pub acquire :
        Cli → Supervisor F P → Reading F → Option (TelemetryFrame F × Supervisor F P)
    unfolding acquire_raw_with_timeout
    acquire cli s r =
        let (raw, gate) =
          acquire_raw_with_timeout cli.force_software_only (settle r.worker_ended s.gate) r.outcome
            r.read_at in
        and_then (from_raw_with_clock raw r.now cli.step_interval_ms s.sample_clock)
          (λ (frame, clock). some (frame, record s { gate = gate; sample_clock = clock }))

    -- `record_actuator` and `store_safety`.
    unfoldable pub record_and_store : ActuatorOutcome → Supervisor F P → Supervisor F P
    unfolding record_safety_snapshot
    record_and_store outcome s =
        let (snap, m) = record_actuator s.machine outcome in
        record s {
          machine = m;
          metrics = record_safety_snapshot s.metrics snap;
          log = calls (records outcome) ∷ s.log;
        }

    -- `evaluate_then_try_publish` and `store_safety`.
    unfoldable pub evaluate_and_store :
        TelemetryFrame F → Reading F → Supervisor F P → SafetySnapshot × Supervisor F P
    unfolding evaluate_then_try_publish record_safety_snapshot
    evaluate_and_store frame r s =
        let ((snap, result), m, p) =
          evaluate_then_try_publish s.machine frame s.publisher r.attempts r.emitted_at in
        (
          snap,
          record s {
            machine = m;
            publisher = p;
            metrics = record_safety_snapshot s.metrics snap;
            log = calls (evaluates frame) ∷ s.log;
          },
        )

    unfoldable pub reassess_after_actuation :
        Cli → ActuatorOutcome → Reading F → Supervisor F P → Option (Supervisor F P)
    unfolding acquire record_and_store evaluate_and_store
    reassess_after_actuation cli outcome r s =
        and_then (acquire cli (record_and_store outcome s) r)
          (λ (frame, s'). some (evaluate_and_store frame r s').1)
