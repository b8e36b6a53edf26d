-- ===== src/Supervisor/Tick/Guard/Release.antt =====
-- From the start on: no early release, one actuation at a time, and what the metrics never hold.
use thalamic_relay.Prelude.{
  Holds, ℕ, ◌≡◌, refl, Bool, true, false, Option, none, some, List, arith, ap, subst,
}
use thalamic_relay.Float.{Float}
use thalamic_relay.Time.{SampleClock}
use thalamic_relay.Policy.{SafetyPolicy}
use thalamic_relay.Machine.{SafetyMachine, with_policy, seed_brake_applied}
use thalamic_relay.Metrics.{RelayMetrics, default_metrics, freshness_seconds_monotonic}
use thalamic_relay.Publish.Publisher.{SensoryPublisher}
use thalamic_relay.Supervisor.Dispatch.{IsSingle}
use thalamic_relay.Supervisor.Loop.{Cli, Supervisor, start, seed_on, seed_startup_brake}
use thalamic_relay.Supervisor.Tick.{Iteration, ticks}
use thalamic_relay.Supervisor.Tick.Guard.{IsCalm, IsTimely, IsGuarded}
use thalamic_relay.Supervisor.Tick.Guard.Steps.{ticks-IsGuarded}

module _ {F : Type 0} where
  seeded_frame :
      (p : SafetyPolicy F)
      → let m = seed_brake_applied (with_policy p) in (m.policy ≡ p) × (m.ok_count ≡ 0) × IsCalm m
  unfolding seed_brake_applied with_policy
  seeded_frame p = (refl, refl, λ e h. ground arith)

  fresh_frame :
      (p : SafetyPolicy F) → let m = with_policy p in (m.policy ≡ p) × (m.ok_count ≡ 0) × IsCalm m
  unfolding with_policy
  fresh_frame p = (refl, refl, λ e h. ground arith)

module _ {F : Type 0} ⦃float : Float F⦄ where
  seed_on_frame :
      (seeds : Bool) (p : SafetyPolicy F) (metrics : RelayMetrics)
      → let m = (seed_on seeds (with_policy p, metrics)).0 in
        (m.policy ≡ p) × (m.ok_count ≡ 0) × IsCalm m
  unfolding seed_on
  seed_on_frame true p metrics = seeded_frame p
  seed_on_frame false p metrics = fresh_frame p

  seed_on_unstamped :
      (seeds : Bool) (m : SafetyMachine F)
      → (seed_on seeds (m, default_metrics)).1.telemetry_received_instant ≡ none
  unfolding seed_on default_metrics
  seed_on_unstamped true m = refl
  seed_on_unstamped false m = refl

  seed_startup_frame :
      (p : SafetyPolicy F) (current_w default_w : Option ℕ) (metrics : RelayMetrics)
      → let m = (seed_startup_brake current_w default_w (with_policy p, metrics)).0 in
        (m.policy ≡ p) × (m.ok_count ≡ 0) × IsCalm m
  unfolding seed_startup_brake
  seed_startup_frame p current_w default_w metrics = seed_on_frame _ p metrics

  seed_startup_unstamped :
      (p : SafetyPolicy F) (current_w default_w : Option ℕ)
      → (seed_startup_brake current_w default_w
          (with_policy p, default_metrics)).1.telemetry_received_instant
        ≡ none
  unfolding seed_startup_brake
  seed_startup_unstamped p current_w default_w = seed_on_unstamped _ (with_policy p)

  module _ {P : Type 0} ⦃publisher : SensoryPublisher F P⦄ where
    pub start-IsGuarded :
        (p : SafetyPolicy F) (clock : SampleClock) (q : P) (current_w default_w : Option ℕ)
        → IsGuarded p (start p clock q current_w default_w)
    unfolding start
    start-IsGuarded p clock q current_w default_w =
        let (same, zero_streak, calm) = seed_startup_frame p current_w default_w _ in
        (
          record {
            policy = same;
            streak = omega arith;
            timely = tt;
            single = λ e. refl;
            unstamped = seed_startup_unstamped p current_w default_w;
          },
          calm,
        )

    -- However readings, results of tasks, free and busy gates and the publisher play out, from the start
    -- (with or without a leftover brake) and over any number of iterations: each spawned release came
    -- after at least as many healthy evaluations in a row as the policy's streak, with no successful
    -- release among them; and never are an apply and a release in flight at once.
    pub ticks-IsTimely :
        (p : SafetyPolicy F) (clock : SampleClock) (q : P) (current_w default_w : Option ℕ)
        (cli : Cli) (its : List (Iteration F)) {s : Supervisor F P}
        → ticks cli (start p clock q current_w default_w) its ≡ some s
        → IsTimely p s.log × IsSingle s.slots
    ticks-IsTimely p clock q current_w default_w cli its e =
        let (t, calm) =
          subst (Holds (IsGuarded p)) e
            (ticks-IsGuarded p cli _ its (start-IsGuarded p clock q current_w default_w)) in
        (t.timely, t.single)

    -- The age that the collector exports is 0 after any number of iterations, whenever it is read: the
    -- loop never stores the instant of a frame.
    pub ticks-freshness :
        (p : SafetyPolicy F) (clock : SampleClock) (q : P) (current_w default_w : Option ℕ)
        (cli : Cli) (its : List (Iteration F)) {s : Supervisor F P} (now : ℕ)
        → ticks cli (start p clock q current_w default_w) its ≡ some s
        → freshness_seconds_monotonic s.metrics.telemetry_received_instant now ≡ 0
    unfolding freshness_seconds_monotonic
    ticks-freshness p clock q current_w default_w cli its {s} now e =
        let (t, calm) =
          subst (Holds (IsGuarded p)) e
            (ticks-IsGuarded p cli _ its (start-IsGuarded p clock q current_w default_w)) in
        ap (λ received. freshness_seconds_monotonic received now) t.unstamped
