-- ===== src/Startup/Run/Timely.antt =====
-- src/daemon.rs: `run` as a whole, from its start over any number of iterations.
use thalamic_relay.Prelude.{Holds, ℕ, ◌≡◌, Option, some, List, String, Result, ok, err, subst, refl}
use thalamic_relay.Float.{Float}
use thalamic_relay.Policy.{SafetyPolicy, PolicyError}
use thalamic_relay.Gate.{NvmlGate}
use thalamic_relay.Gpu.{GpuTarget}
use thalamic_relay.Publish.Publisher.{SensoryPublisher}
use thalamic_relay.Supervisor.Dispatch.{IsSingle}
use thalamic_relay.Supervisor.Loop.{Supervisor, start}
use thalamic_relay.Supervisor.Tick.{Iteration, ticks}
use thalamic_relay.Supervisor.Tick.Guard.{IsTimely, IsGuarded}
use thalamic_relay.Supervisor.Tick.Guard.Steps.{ticks-IsGuarded}
use thalamic_relay.Supervisor.Tick.Guard.Release.{start-IsGuarded}
use thalamic_relay.Startup.{Cli, ChosenPublisher}
use thalamic_relay.Startup.Run.{
  Driver, Started, Services, startup_policy, loop_state, enter_loop, run_to_loop,
}
use thalamic_relay.Startup.Run.Brake.{OnStarted, launch-OnStarted}

-- What an iteration reads of the options.
abbrev pub loop_options : {F : Type 0} → Cli F → thalamic_relay.Supervisor.Loop.Cli
loop_options cli = record {
  force_software_only = cli.force_software_only;
  step_interval_ms = cli.step_interval_ms;
}

module _ {F : Type 0} ⦃float : Float F⦄ {P : Type 0} ⦃publisher : SensoryPublisher F P⦄ where
  with_gate-IsGuarded :
      (p : SafetyPolicy F) (s : Supervisor F P) (gate : NvmlGate)
      → IsGuarded p s
      → IsGuarded p (record s { gate = gate })
  with_gate-IsGuarded p s gate (t, calm) = (
    record {
      policy = t.policy;
      streak = t.streak;
      timely = t.timely;
      single = t.single;
      unstamped = t.unstamped;
    },
    calm,
  )

  -- Guarded under the policy that the start resolved.
  abbrev GuardedStart : Cli F → Started F P → Type 0
  GuardedStart cli r =
      (p : SafetyPolicy F) × (startup_policy cli r.default_w ≡ ok p) × IsGuarded p r.supervisor

  state-GuardedStart :
      (cli : Cli F) (generated : String) (q : P) (target : Option GpuTarget)
      (limits : Option ℕ × Option ℕ) (gate : NvmlGate) (p : SafetyPolicy F)
      → startup_policy cli limits.1 ≡ ok p
      → GuardedStart cli (loop_state cli generated q target limits gate p)
  unfolding loop_state
  state-GuardedStart cli generated q target (c, d) gate p h =
      (p, h, with_gate-IsGuarded p _ gate (start-IsGuarded p _ q c d))

  enter_loop-GuardedStart :
      (cli : Cli F) (generated : String) (connect : ChosenPublisher → P) (services : Services)
      (target : Option GpuTarget) (limits : Option ℕ × Option ℕ) (gate : NvmlGate)
      (resolved : Result (SafetyPolicy F) PolicyError)
      → startup_policy cli limits.1 ≡ resolved
      → OnStarted
          (GuardedStart cli)
          (enter_loop cli generated connect services target limits gate resolved)
  unfolding enter_loop
  enter_loop-GuardedStart cli generated connect services target limits gate (err e) h = tt
  enter_loop-GuardedStart cli generated connect services target limits gate (ok p) h =
      launch-OnStarted _ services.recorder_installs _ services.sigterm_registers _
        (λ chosen. state-GuardedStart cli generated (connect chosen) target limits gate p h)

  -- Whatever the driver calls of the start give, and however readings, results of tasks, gates and the
  -- publisher play out over any number of iterations after it: each spawned release came after at least
  -- as many healthy evaluations in a row as the streak of the policy that the start resolved, with no
  -- successful release among them; and an apply and a release are never in flight at once.
  pub run_to_loop-ticks-IsTimely :
      (cli : Cli F) (generated : String) (connect : ChosenPublisher → P) (services : Services)
      (driver : Driver) (its : List (Iteration F)) {r : Started F P} {s : Supervisor F P}
      → run_to_loop cli generated connect services driver ≡ ok r
      → ticks (loop_options cli) r.supervisor its ≡ some s
      → ((p : SafetyPolicy F) × (startup_policy cli r.default_w ≡ ok p) × IsTimely p s.log)
        × IsSingle s.slots
  unfolding run_to_loop
  run_to_loop-ticks-IsTimely cli generated connect services driver its {r} {s} h e =
      let (p, resolved, guarded) =
        subst (OnStarted (GuardedStart cli)) h
          (enter_loop-GuardedStart cli generated connect services _ _ _ _ refl) in
      let (t, calm) =
        subst (Holds (IsGuarded p)) e (ticks-IsGuarded p (loop_options cli) _ its guarded) in
      ((p, resolved, t.timely), t.single)
