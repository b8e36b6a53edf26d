-- ===== src/Startup/Run/Brake.antt =====
-- src/daemon.rs: the state in which `run` enters its loop, and the brake that an earlier run left.
use thalamic_relay.Prelude.{
  some, ℕ, ◌≡◌, ◌↔◌, refl, sym, inl, inr, ap, ◌∙◌, subst, Bool, true, false, Option, none, ◌⊎◌,
  String, ok, err, Result,
}
use thalamic_relay.Float.{Float}
use thalamic_relay.Policy.{SafetyPolicy, PolicyError}
use thalamic_relay.Machine.{with_policy, seed_brake_applied}
use thalamic_relay.PowerLimit.{should_seed_leftover_brake, classify_power_limit, brake_fraction}
use thalamic_relay.PowerLimit.Leftover.{IsLeft, seeds-IsLeft_iff}
use thalamic_relay.Gate.{Wait, NvmlGate, default, returned, join_error, elapsed, run, drop_permit}
use thalamic_relay.Gpu.{Nvml, GpuTarget, TargetError, resolve_target}
use thalamic_relay.Gpu.Bridge.{query_power_limit_w, query_default_power_limit_w}
use thalamic_relay.Gpu.Actuator.{query_power_limits_w}
use thalamic_relay.Metrics.{RelayMetrics, default_metrics}
use thalamic_relay.Publish.Publisher.{SensoryPublisher}
use thalamic_relay.Supervisor.Loop.{start, settle, seed_on, seed_startup_brake}
use thalamic_relay.Startup.{Cli, ChosenPublisher, resolve_gpu_target}
use thalamic_relay.Startup.Run.{
  Driver, Started, waited, startup_limits, enter_loop, run_to_loop, Services, RunError, launch,
  loop_state,
}

-- Both driver calls returned, a target was resolved, and its limits are those of the relay's brake.
pub record FindsBrake (F : Type 0) ⦃float : Float F⦄ (driver : Driver) : Type 0 where
  target : GpuTarget
  resolution_is : driver.resolution ≡ returned tt
  resolved : resolve_target driver.at_resolution ≡ ok target
  query_is : driver.query ≡ returned tt
  left :
      IsLeft F
        (query_power_limit_w driver.at_query target)
        (query_default_power_limit_w driver.at_query target)

-- The limits that the two calls yield.
abbrev probed :
    (at_query : Option Nvml) (resolution : Wait (Unit {0})) (ended : Bool)
    → Result GpuTarget TargetError
    → (query : Wait (Unit {0})) → Option ℕ × Option ℕ
probed at_query resolution ended resolved query =
    let (target, gate) = resolve_gpu_target default (waited resolution resolved) in
    (startup_limits at_query target query (settle ended gate)).0

no_limits_at :
    (held : Bool) (permits : ℕ) (query : Wait (Unit {0})) (driver : Option Nvml)
    → (startup_limits driver none query (record { held = held; permits = permits })).0
      ≡ (none, none)
unfolding startup_limits query_power_limits_w run
no_limits_at true permits query driver = refl
no_limits_at false permits (returned u) driver = refl
no_limits_at false permits join_error driver = refl
no_limits_at false permits elapsed driver = refl

no_limits :
    (gate : NvmlGate) (query : Wait (Unit {0})) (driver : Option Nvml)
    → (startup_limits driver none query gate).0 ≡ (none, none)
no_limits gate = no_limits_at gate.held gate.permits

probed_read :
    (at_query : Option Nvml) (ended : Bool) (target : GpuTarget)
    → probed at_query (returned tt) ended (ok target) (returned tt)
      ≡ (query_power_limit_w at_query target, query_default_power_limit_w at_query target)
unfolding resolve_gpu_target startup_limits run drop_permit query_power_limits_w default
probed_read at_query true target = refl
probed_read at_query false target = refl

probed_unread :
    (at_query : Option Nvml) (ended : Bool) (resolution query : Wait (Unit {0}))
    (resolved : Result GpuTarget TargetError)
    → (probed at_query resolution ended resolved query ≡ (none, none))
      ⊎ ((target : GpuTarget) × (resolution ≡ returned tt)
          × (resolved ≡ ok target)
          × (query ≡ returned tt))
unfolding resolve_gpu_target startup_limits run drop_permit default
probed_unread at_query ended (returned u) (returned v) (ok target) = inr (target, refl, refl, refl)
probed_unread at_query true (returned u) join_error (ok target) = inl refl
probed_unread at_query false (returned u) join_error (ok target) = inl refl
probed_unread at_query true (returned u) elapsed (ok target) = inl refl
probed_unread at_query false (returned u) elapsed (ok target) = inl refl
probed_unread at_query ended (returned u) query (err e) = inl (no_limits _ query at_query)
probed_unread at_query ended join_error query resolved = inl (no_limits _ query at_query)
probed_unread at_query ended elapsed query resolved = inl (no_limits _ query at_query)

module _ (F : Type 0) ⦃float : Float F⦄ where
  abbrev limits_of : Driver → Option ℕ × Option ℕ
  limits_of driver =
      probed driver.at_query driver.resolution driver.resolution_ended
        (resolve_target driver.at_resolution) driver.query

  known :
      (driver : Driver) → FindsBrake F driver → IsLeft F (limits_of driver).0 (limits_of driver).1
  known driver b =
      let read = probed_read driver.at_query driver.resolution_ended b.target in
      rw (b.resolution_is, b.resolved, b.query_is, read) b.left

  finds :
      (driver : Driver) → IsLeft F (limits_of driver).0 (limits_of driver).1 → FindsBrake F driver
  finds driver l =
      elim (probed_unread driver.at_query driver.resolution_ended driver.resolution driver.query
        (resolve_target driver.at_resolution)) [
          | inl e ↦
              absurd (let unread = ap (λ limits. limits.0) e in let known = l.current_is in cc)
          | inr (target, a, b, c) ↦
              let read = probed_read driver.at_query driver.resolution_ended target in
              let same : limits_of driver ≡ _ = rw (a, b, c) read in
              record {
                target = target;
                resolution_is = a;
                resolved = b;
                query_is = c;
                left = subst (λ limits. IsLeft F limits.0 limits.1) same l;
              }
        ]

module _ {F : Type 0} ⦃float : Float F⦄ where
  seed_on_brake :
      (seeds : Bool) (p : SafetyPolicy F) (metrics : RelayMetrics)
      → (seed_on seeds (with_policy p, metrics)).0.brake_engaged ≡ seeds
  unfolding seed_on with_policy seed_brake_applied
  seed_on_brake true p metrics = refl
  seed_on_brake false p metrics = refl

  seed_on_policy :
      (seeds : Bool) (p : SafetyPolicy F) (metrics : RelayMetrics)
      → (seed_on seeds (with_policy p, metrics)).0.policy ≡ p
  unfolding seed_on with_policy seed_brake_applied
  seed_on_policy true p metrics = refl
  seed_on_policy false p metrics = refl

  pub seed_startup_policy :
      (p : SafetyPolicy F) (current_w default_w : Option ℕ)
      → (seed_startup_brake current_w default_w (with_policy p, default_metrics)).0.policy ≡ p
  unfolding seed_startup_brake
  seed_startup_policy p current_w default_w = seed_on_policy _ p default_metrics

  seed_startup_brake_lem :
      (p : SafetyPolicy F) (current_w default_w : Option ℕ)
      → (seed_startup_brake current_w default_w (with_policy p, default_metrics)).0.brake_engaged
        ≡ should_seed_leftover_brake
            (classify_power_limit current_w default_w (brake_fraction {F = F}))
  unfolding seed_startup_brake
  seed_startup_brake_lem p current_w default_w = seed_on_brake _ p default_metrics

  module _ {P : Type 0} ⦃publisher : SensoryPublisher F P⦄ where
    abbrev pub OnStarted : (Started F P → Type 0) → Result (Started F P) RunError → Type 0
    OnStarted Q (err e) = Unit
    OnStarted Q (ok r) = Q r

    -- What holds of every state that the last steps can launch, holds of the start.
    pub launch-OnStarted :
        (Q : Started F P → Type 0) (recorder : Bool) (publisher : Option ChosenPublisher)
        (sigterm : Bool) (state : ChosenPublisher → Started F P)
        → ((chosen : ChosenPublisher) → Q (state chosen))
        → OnStarted Q (launch recorder publisher sigterm state)
    unfolding launch
    launch-OnStarted Q false publisher sigterm state h = tt
    launch-OnStarted Q true none sigterm state h = tt
    launch-OnStarted Q true (some chosen) false state h = tt
    launch-OnStarted Q true (some chosen) true state h = h chosen

    -- The policy and the brake of the machine that the loop starts with.
    record IsEntered (limits : Option ℕ × Option ℕ) (policy : Result (SafetyPolicy F) PolicyError)
        (r : Started F P) : Type 0 where
      policy_is : policy ≡ ok r.supervisor.machine.policy
      brake_is :
          r.supervisor.machine.brake_engaged
          ≡ should_seed_leftover_brake
              (classify_power_limit limits.0 limits.1 (brake_fraction {F = F}))

    state-IsEntered :
        (cli : Cli F) (generated : String) (q : P) (target : Option GpuTarget)
        (limits : Option ℕ × Option ℕ) (gate : NvmlGate) (p : SafetyPolicy F)
        → IsEntered limits (ok p) (loop_state cli generated q target limits gate p)
    unfolding loop_state start
    state-IsEntered cli generated q target (c, d) gate p = record {
      policy_is = sym (ap ok (seed_startup_policy p c d));
      brake_is = seed_startup_brake_lem p c d;
    }

    entered :
        (cli : Cli F) (generated : String) (connect : ChosenPublisher → P) (services : Services)
        (target : Option GpuTarget) (limits : Option ℕ × Option ℕ) (gate : NvmlGate)
        (policy : Result (SafetyPolicy F) PolicyError)
        → OnStarted
            (IsEntered limits policy)
            (enter_loop cli generated connect services target limits gate policy)
    unfolding enter_loop
    entered cli generated connect services target limits gate (err e) = tt
    entered cli generated connect services target limits gate (ok p) =
        launch-OnStarted _ services.recorder_installs _ services.sigterm_registers _
          (λ chosen. state-IsEntered cli generated (connect chosen) target limits gate p)

    -- The machine with which the loop starts has its brake engaged exactly where both driver calls
    -- returned, the target was resolved, and the limits that the driver reports for that target are
    -- those of the relay's own brake.
    pub run_to_loop-FindsBrake_iff :
        (cli : Cli F) (generated : String) (connect : ChosenPublisher → P) (services : Services)
        (driver : Driver) {r : Started F P}
        → run_to_loop cli generated connect services driver ≡ ok r
        → (r.supervisor.machine.brake_engaged ≡ true) ↔ FindsBrake F driver
    unfolding run_to_loop
    run_to_loop-FindsBrake_iff cli generated connect services driver {r} h =
        let i =
          subst (OnStarted (IsEntered _ _)) h (entered cli generated connect services _ _ _ _) in
        let (seeds, left) = seeds-IsLeft_iff F _ _ in
        (
          (λ engaged. finds F driver (seeds (sym i.brake_is ∙ engaged))),
          (λ b. i.brake_is ∙ left (known F driver b)),
        )
