-- ===== src/Supervisor/Tick/Guard.antt =====
-- The invariant of the loop: the machine's streak is backed by the log, and so was every spawned
-- release.
use thalamic_relay.Prelude.{
  and_then, Holds, Holds-and_then, OnState, ℕ, ◌+◌, ◌≤◌, ◌≡◌, refl, ◌≢◌, ◌⊎◌, inl, inr, Bool, true,
  false, ◌&&◌, Option, none, some, Option-cases, String, List, [], ◌∷◌, arith, ap, if◌then◌else◌,
  subst,
}
use thalamic_relay.Float.{Float}
use thalamic_relay.Time.{SampleClock}
use thalamic_relay.Telemetry.Frame.{TelemetryFrame, from_raw_with_clock}
use thalamic_relay.Policy.{SafetyPolicy}
use thalamic_relay.Classify.{FrameAssessment, classify_frame_with_policy}
use thalamic_relay.Machine.{
  SafetyState, healthy_real, BrakeIntent, hold, apply, release, ActuatorOutcome, applied, released,
  apply_failed, release_failed, SafetyMachine, with_policy, seed_brake_applied, snapshot,
  evaluate_assessment, evaluate, record_actuator,
}
use thalamic_relay.Machine.Hysteresis.{Call, evaluates, records, after, trailing_ok, after_ok_count}
use thalamic_relay.Gate.{NvmlGate}
use thalamic_relay.Publish.Publisher.{SensoryPublisher, evaluate_then_try_publish}
use thalamic_relay.Supervisor.Loop.{
  Cli, Event, calls, spawns, Supervisor, Reading, start, acquire, record_and_store,
  evaluate_and_store, reassess_after_actuation, seed_startup_brake,
}
use thalamic_relay.Supervisor.Dispatch.{IsSingle, dispatch-IsSingle}
use thalamic_relay.Supervisor.Tick.{
  Iteration, Flow, dispatch, retry_blocked_apply, on_finished, join_task, join_brake, join_release,
  publish_only, on_cadence, evaluate_or_publish, store_acquired, tick, ticks, logged, pending_is,
}
pub mod Steps
pub mod Release

module _ {F : Type 0} where
  -- The calls of the machine in a log.
  abbrev pub calls_of : List (Event F) → List (Call F)
  calls_of [] = []
  calls_of (calls c ∷ past) = c ∷ calls_of past
  calls_of (spawns i ∷ past) = calls_of past

  -- No healthy state while the brake is engaged.
  abbrev pub IsCalm : SafetyMachine F → Type 0
  IsCalm m = m.brake_engaged ≡ true → m.last_policy_state ≢ healthy_real

  snapshot_release :
      (m : SafetyMachine F)
      → IsCalm m
      → (snapshot m).intent ≡ release
      → m.policy.config.release_ok_streak ≤ m.ok_count
  unfolding snapshot
  snapshot_release m calm e = ground arith

  evaluate_assessment-IsCalm :
      (m : SafetyMachine F) (a : FrameAssessment) → IsCalm (evaluate_assessment m a).1
  unfolding evaluate_assessment
  evaluate_assessment-IsCalm m a e h = ground arith

  pub record_failed-IsCalm :
      (m : SafetyMachine F) (e : String)
      → IsCalm m
      → IsCalm (record_actuator m (apply_failed e)).1
        × IsCalm (record_actuator m (release_failed e)).1
  unfolding record_actuator
  record_failed-IsCalm m e calm = (λ b h. ground arith, λ b h. ground arith)

-- A command that leaves a calm machine calm.
abbrev pub KeepsCalm : (F : Type 0) → (String → ActuatorOutcome) → Type 0
KeepsCalm F failure =
    (m : SafetyMachine F) (e : String) → IsCalm m → IsCalm (record_actuator m (failure e)).1

module _ {F : Type 0} ⦃float : Float F⦄ where
  evaluate-IsCalm : (m : SafetyMachine F) (f : TelemetryFrame F) → IsCalm (evaluate m f).1
  unfolding evaluate
  evaluate-IsCalm m f = evaluate_assessment-IsCalm m (classify_frame_with_policy f m.policy)

  -- Before each spawned release, as many healthy frames in a row as the policy asks for.
  abbrev pub IsTimely : SafetyPolicy F → List (Event F) → Type 0
  IsTimely p [] = Unit
  IsTimely p (spawns release ∷ past) =
      (p.config.release_ok_streak ≤ trailing_ok p (calls_of past)) × IsTimely p past
  IsTimely p (_ ∷ past) = IsTimely p past

  logged-IsTimely :
      (p : SafetyPolicy F) (spawned : Bool) (intent : BrakeIntent) (log : List (Event F))
      → IsTimely p log
      → (intent ≡ release → p.config.release_ok_streak ≤ trailing_ok p (calls_of log))
      → IsTimely p (logged spawned intent log)
        × (trailing_ok p (calls_of (logged spawned intent log)) ≡ trailing_ok p (calls_of log))
  unfolding logged
  logged-IsTimely p true release log t h = ((h refl, t), refl)
  logged-IsTimely p true _ log t h = (t, refl)
  logged-IsTimely p false intent log t h = (t, refl)

  module _ {P : Type 0} ⦃publisher : SensoryPublisher F P⦄ (p : SafetyPolicy F) where
    pub record IsTracked (s : Supervisor F P) : Type 0 where
      pub policy : s.machine.policy ≡ p
      pub streak : s.machine.ok_count ≤ trailing_ok p (calls_of s.log)
      pub timely : IsTimely p s.log
      pub single : IsSingle s.slots
      pub unstamped : s.metrics.telemetry_received_instant ≡ none

    abbrev pub IsGuarded : Supervisor F P → Type 0
    IsGuarded s = IsTracked s × IsCalm s.machine

    pub record_and_store-IsTracked :
        (o : ActuatorOutcome) (s : Supervisor F P) → IsTracked s → IsTracked (record_and_store o s)
    unfolding record_and_store after
    record_and_store-IsTracked o s t =
        let (same, bound) =
          after_ok_count s.machine p (records o) (calls_of s.log) t.policy t.streak in
        record {
          policy = same;
          streak = bound;
          timely = t.timely;
          single = t.single;
          unstamped = t.unstamped;
        }

    pub evaluate_and_store-IsGuarded :
        (f : TelemetryFrame F) (r : Reading F) (s : Supervisor F P)
        → IsTracked s
        → IsGuarded (evaluate_and_store f r s).1
    unfolding evaluate_and_store after
    evaluate_and_store-IsGuarded f r s t =
        let (same, bound) =
          after_ok_count s.machine p (evaluates f) (calls_of s.log) t.policy t.streak in
        (
          record {
            policy = same;
            streak = bound;
            timely = t.timely;
            single = t.single;
            unstamped = t.unstamped;
          },
          evaluate-IsCalm s.machine f,
        )

    pub dispatch-IsGuarded :
        (ended due : Bool) (s : Supervisor F P) → IsGuarded s → IsGuarded (dispatch ended due s)
    unfolding dispatch
    dispatch-IsGuarded ended due s (t, calm) =
        let same = t.policy in
        let bound = t.streak in
        let (timely, kept) = logged-IsTimely p _ (snapshot s.machine).intent s.log t.timely (λ e.
          let enough = snapshot_release s.machine calm e in
          let asked = ap (λ (q : SafetyPolicy F). q.config.release_ok_streak) same in
          omega arith) in
        let single = dispatch-IsSingle (snapshot s.machine).intent _ due s.slots t.single in
        (
          record {
            policy = same;
            streak = rw kept bound;
            timely = timely;
            single = single;
            unstamped = t.unstamped;
          },
          calm,
        )

    pub retry-IsGuarded :
        (ended : Bool) (s : Supervisor F P) → IsGuarded s → IsGuarded (retry_blocked_apply ended s)
    unfolding retry_blocked_apply
    retry-IsGuarded ended s g = go (pending_is s.slots.pending_intent apply)
      where
        go : (b : Bool) → IsGuarded (if b then dispatch ended false s else s)
        go true = dispatch-IsGuarded ended false s g
        go false = g
