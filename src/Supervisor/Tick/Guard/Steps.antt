-- ===== src/Supervisor/Tick/Guard/Steps.antt =====
-- Every part of an iteration keeps the loop's invariant.
use thalamic_relay.Prelude.{
  and_then, Holds, Holds-and_then, OnState, refl, Bool, true, false, Option, none, some, String,
  List, [], ◌∷◌, arith,
}
use thalamic_relay.Float.{Float}
use thalamic_relay.Time.{SampleClock}
use thalamic_relay.Telemetry.Frame.{TelemetryFrame}
use thalamic_relay.Policy.{SafetyPolicy}
use thalamic_relay.Machine.{ActuatorOutcome, applied, released, apply_failed, release_failed}
use thalamic_relay.Gate.{NvmlGate}
use thalamic_relay.Publish.Publisher.{SensoryPublisher}
use thalamic_relay.Supervisor.Loop.{
  Cli, Supervisor, Reading, acquire, record_and_store, reassess_after_actuation,
}
use thalamic_relay.Supervisor.Tick.{
  Iteration, Flow, on_finished, join_task, join_brake, join_release, publish_only, on_cadence,
  evaluate_or_publish, store_acquired, after_tasks, after_brake_task, after_read, next_step, tick,
  ticks,
}
use thalamic_relay.Supervisor.Tick.Guard.{
  KeepsCalm, IsTracked, IsGuarded, record_failed-IsCalm, record_and_store-IsTracked,
  evaluate_and_store-IsGuarded, dispatch-IsGuarded, retry-IsGuarded,
}

module _ {F : Type 0} ⦃float : Float F⦄ where
  module _ {P : Type 0} ⦃publisher : SensoryPublisher F P⦄ (p : SafetyPolicy F) where
    -- A read keeps what is said of the machine and the log, whatever the clock and the gate become.
    read-IsTracked :
        (s : Supervisor F P) (gate : NvmlGate) (o : Option (TelemetryFrame F × SampleClock))
        → IsTracked p s
        → Holds (OnState (IsTracked p)) (
            and_then o
              (λ (frame, clock). some (frame, record s { gate = gate; sample_clock = clock })))
    read-IsTracked s gate none t = tt
    read-IsTracked s gate (some (f, c)) t = record {
      policy = t.policy;
      streak = t.streak;
      timely = t.timely;
      single = t.single;
      unstamped = t.unstamped;
    }

    acquire-IsTracked :
        (cli : Cli) (s : Supervisor F P) (r : Reading F)
        → IsTracked p s
        → Holds (OnState (IsTracked p)) (acquire cli s r)
    unfolding acquire
    acquire-IsTracked cli s r t = read-IsTracked s _ _ t

    read-IsGuarded :
        (s : Supervisor F P) (gate : NvmlGate) (o : Option (TelemetryFrame F × SampleClock))
        → IsGuarded p s
        → Holds (OnState (IsGuarded p)) (
            and_then o
              (λ (frame, clock). some (frame, record s { gate = gate; sample_clock = clock })))
    read-IsGuarded s gate none g = tt
    read-IsGuarded s gate (some (f, c)) (t, calm) = (
      record {
        policy = t.policy;
        streak = t.streak;
        timely = t.timely;
        single = t.single;
        unstamped = t.unstamped;
      },
      calm,
    )

    acquire-IsGuarded :
        (cli : Cli) (s : Supervisor F P) (r : Reading F)
        → IsGuarded p s
        → Holds (OnState (IsGuarded p)) (acquire cli s r)
    unfolding acquire
    acquire-IsGuarded cli s r g = read-IsGuarded s _ _ g

    reassess-IsGuarded :
        (cli : Cli) (o : ActuatorOutcome) (r : Reading F) (s : Supervisor F P)
        → IsTracked p s
        → Holds (IsGuarded p) (reassess_after_actuation cli o r s)
    unfolding reassess_after_actuation
    reassess-IsGuarded cli o r s t =
        Holds-and_then (OnState (IsTracked p)) (IsGuarded p) _ _
          (acquire-IsTracked cli (record_and_store o s) r (record_and_store-IsTracked p o s t))
          (λ (f, s') t'. evaluate_and_store-IsGuarded p f r s' t')

    on_finished-IsGuarded :
        (cli : Cli) (success : ActuatorOutcome) (failure : String → ActuatorOutcome)
        (result : Option String) (r : Reading F) (flow : Flow) (s : Supervisor F P)
        → KeepsCalm F failure
        → IsGuarded p s
        → Holds (OnState (IsGuarded p)) (on_finished cli success failure result r flow s)
    unfolding on_finished record_and_store
    on_finished-IsGuarded cli success failure none r flow s keeps (t, calm) =
        Holds-and_then (IsGuarded {P = P} p) (OnState (IsGuarded p)) _ _
          (reassess-IsGuarded cli success r s t) (λ s' g. g)
    on_finished-IsGuarded cli success failure (some e) r flow s keeps (t, calm) =
        (record_and_store-IsTracked p (failure e) s t, keeps s.machine e calm)

    join_task-IsGuarded :
        (cli : Cli) (success : ActuatorOutcome) (failure : String → ActuatorOutcome)
        (in_flight : Bool) (cleared : Supervisor F P) (result : Option (Option String))
        (r : Reading F) (flow : Flow) (s : Supervisor F P)
        → KeepsCalm F failure
        → IsGuarded p cleared
        → IsGuarded p s
        → Holds
            (OnState (IsGuarded p))
            (join_task cli success failure in_flight cleared result r flow s)
    unfolding join_task
    join_task-IsGuarded cli success failure true cleared (some result) r flow s keeps gc g =
        on_finished-IsGuarded cli success failure result r flow cleared keeps gc
    join_task-IsGuarded cli success failure true cleared none r flow s keeps gc g = g
    join_task-IsGuarded cli success failure false cleared result r flow s keeps gc g = g

    join_brake-IsGuarded :
        (cli : Cli) (result : Option (Option String)) (r : Reading F) (flow : Flow)
        (s : Supervisor F P)
        → IsGuarded p s
        → Holds (OnState (IsGuarded p)) (join_brake cli result r flow s)
    unfolding join_brake
    join_brake-IsGuarded cli result r flow s (t, calm) =
        join_task-IsGuarded cli applied apply_failed s.slots.brake_task _ result r flow s
          (λ m e c. (record_failed-IsCalm m e c).0)
          (
            record {
              policy = t.policy;
              streak = t.streak;
              timely = t.timely;
              single = λ e. absurd (ground arith);
              unstamped = t.unstamped;
            },
            calm,
          )
          (t, calm)

    join_release-IsGuarded :
        (cli : Cli) (result : Option (Option String)) (r : Reading F) (flow : Flow)
        (s : Supervisor F P)
        → IsGuarded p s
        → Holds (OnState (IsGuarded p)) (join_release cli result r flow s)
    unfolding join_release
    join_release-IsGuarded cli result r flow s (t, calm) =
        join_task-IsGuarded cli released release_failed s.slots.release_task _ result r flow s
          (λ m e c. (record_failed-IsCalm m e c).1)
          (
            record {
              policy = t.policy;
              streak = t.streak;
              timely = t.timely;
              single = λ e. refl;
              unstamped = t.unstamped;
            },
            calm,
          )
          (t, calm)

    store-IsGuarded :
        (f : TelemetryFrame F) (s : Supervisor F P)
        → IsGuarded p s
        → IsGuarded p (store_acquired f s)
    unfolding store_acquired
    store-IsGuarded f s (t, calm) = (
      record {
        policy = t.policy;
        streak = t.streak;
        timely = t.timely;
        single = t.single;
        unstamped = t.unstamped;
      },
      calm,
    )

    on_cadence-IsGuarded :
        (evaluated turn : Bool) (f : TelemetryFrame F) (r : Reading F) (flow : Flow)
        (s : Supervisor F P)
        → IsGuarded p s
        → IsGuarded p (on_cadence evaluated turn f r flow s).1
    unfolding on_cadence publish_only
    on_cadence-IsGuarded true turn f r flow s g = g
    on_cadence-IsGuarded false true f r flow s (t, calm) = evaluate_and_store-IsGuarded p f r s t
    on_cadence-IsGuarded false false f r flow s (t, calm) = (
      record {
        policy = t.policy;
        streak = t.streak;
        timely = t.timely;
        single = t.single;
        unstamped = t.unstamped;
      },
      calm,
    )

    after_tasks-IsGuarded :
        (it : Iteration F) (f : TelemetryFrame F) (x : Flow × Supervisor F P)
        → OnState (IsGuarded p) x
        → Holds (IsGuarded p) (after_tasks it f x)
    unfolding after_tasks evaluate_or_publish
    after_tasks-IsGuarded it f (flow, s) g = store-IsGuarded f _ (
        dispatch-IsGuarded p it.ended_before_dispatch _ _
          (on_cadence-IsGuarded flow.evaluated _ f it.reading flow s g))

    after_brake_task-IsGuarded :
        (cli : Cli) (it : Iteration F) (f : TelemetryFrame F) (x : Flow × Supervisor F P)
        → OnState (IsGuarded p) x
        → Holds (IsGuarded p) (after_brake_task cli it f x)
    unfolding after_brake_task
    after_brake_task-IsGuarded cli it f (flow, s) g =
        Holds-and_then (OnState (IsGuarded p)) (IsGuarded p) _ (after_tasks it f)
          (join_release-IsGuarded cli it.release_result it.after_release flow s g)
          (after_tasks-IsGuarded it f)

    after_read-IsGuarded :
        (cli : Cli) (it : Iteration F) (x : TelemetryFrame F × Supervisor F P)
        → OnState (IsGuarded p) x
        → Holds (IsGuarded p) (after_read cli it x)
    unfolding after_read
    after_read-IsGuarded cli it (f, s) g =
        Holds-and_then (OnState (IsGuarded p)) (IsGuarded p) _ (after_brake_task cli it f)
          (join_brake-IsGuarded cli it.brake_result it.after_brake _ s g)
          (after_brake_task-IsGuarded cli it f)

    next_step-IsGuarded : (s : Supervisor F P) → IsGuarded p s → IsGuarded p (next_step s)
    unfolding next_step
    next_step-IsGuarded s (t, calm) = (
      record {
        policy = t.policy;
        streak = t.streak;
        timely = t.timely;
        single = t.single;
        unstamped = t.unstamped;
      },
      calm,
    )

    pub tick-IsGuarded :
        (cli : Cli) (s : Supervisor F P) (it : Iteration F)
        → IsGuarded p s
        → Holds (IsGuarded p) (tick cli s it)
    unfolding tick
    tick-IsGuarded cli s it g =
        Holds-and_then (OnState (IsGuarded p)) (IsGuarded p) _ (after_read cli it)
          (acquire-IsGuarded cli _ it.reading
            (retry-IsGuarded p it.ended_before_retry _ (next_step-IsGuarded s g)))
          (after_read-IsGuarded cli it)

    pub ticks-IsGuarded :
        (cli : Cli) (s : Supervisor F P) (its : List (Iteration F))
        → IsGuarded p s
        → Holds (IsGuarded p) (ticks cli s its)
    unfolding ticks
    ticks-IsGuarded cli s [] g = g
    ticks-IsGuarded cli s (it ∷ rest) g =
        Holds-and_then (IsGuarded {P = P} p) (IsGuarded {P = P} p) _ _ (tick-IsGuarded cli s it g)
          (λ s' g'. ticks-IsGuarded cli s' rest g')
