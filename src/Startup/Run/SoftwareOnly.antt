-- ===== src/Startup/Run/SoftwareOnly.antt =====
-- src/daemon.rs: a start that simulates its telemetry.
use thalamic_relay.Prelude.{
  ℕ, ◌≤◌, ◌≡◌, refl, sym, ap, ◌∙◌, inl, inr, Bool, Bool-cases, true, false, Option, none, some,
  List, String, Result, ok, same_text, if◌then◌else◌,
}
use thalamic_relay.Float.{Float}
use thalamic_relay.Policy.{SafetyPolicy, PolicyError, resolve}
use thalamic_relay.Gate.{NvmlGate}
use thalamic_relay.Gpu.{GpuTarget}
use thalamic_relay.Publish.Publisher.{SensoryPublisher}
use thalamic_relay.Supervisor.Loop.{start}
use thalamic_relay.Startup.{
  Cli, Locks, ChosenPublisher, absent, chosen, safety_policy_config, build_publisher, prepare,
}
use thalamic_relay.Lock.{Call}
use thalamic_relay.Publish.{QueueConfig}
use thalamic_relay.Publish.Config.{new-accepts_iff}
use thalamic_relay.Startup.Ready.{prepare-check_options}
use thalamic_relay.Startup.Run.{
  Driver, Started, Services, startup_policy, loop_state, launch, enter_loop, run_to_loop,
}
use thalamic_relay.Startup.Run.Brake.{seed_startup_policy}

publisher_of :
    (session : Option String) (config : QueueConfig) (parses spawned : Bool)
    → (c : ChosenPublisher) × (chosen session (ok config) parses spawned ≡ some c)
unfolding chosen
publisher_of session config true true = (_, refl)
publisher_of session config true false = (_, refl)
publisher_of session config false _ = (_, refl)

module _ {F : Type 0} ⦃float : Float F⦄ where
  simulated_policy :
      (cli : Cli F) (default_w : Option ℕ)
      → cli.force_software_only ≡ true
      → startup_policy cli default_w ≡ resolve (safety_policy_config cli) none
  unfolding startup_policy
  simulated_policy cli default_w h = rw h refl

  -- A capacity that the parser of the options lets through never makes the publisher's `expect` panic.
  build_publisher-total :
      (cli : Cli F) (parses spawned : Bool)
      → 1 ≤ cli.sensory_queue_capacity
      → cli.sensory_queue_capacity ≤ 4096
      → (c : ChosenPublisher) × (build_publisher cli parses spawned ≡ some c)
  unfolding build_publisher
  build_publisher-total cli parses spawned low high = elim (Bool-cases cli.ipc_disabled) [
    | inl off ↦ (absent, rw off refl)
    | inr on ↦
        let accepted =
          (new-accepts_iff cli.sensory_queue_capacity cli.sensory_queue_full_policy).0.1
            (low, high) in
        let (c, e) =
          publisher_of (if same_text cli.ipc_session_id "" then none else some cli.ipc_session_id)
            (record {
              capacity = cli.sensory_queue_capacity;
              policy = cli.sensory_queue_full_policy;
            })
            parses spawned in
        (c, rw (on, accepted) e)
  ]

  module _ {P : Type 0} ⦃publisher : SensoryPublisher F P⦄ where
    loop_state-policy :
        (cli : Cli F) (generated : String) (q : P) (target : Option GpuTarget)
        (limits : Option ℕ × Option ℕ) (gate : NvmlGate) (p : SafetyPolicy F)
        → (loop_state cli generated q target limits gate p).supervisor.machine.policy ≡ p
    unfolding loop_state start
    loop_state-policy cli generated q target (c, d) gate p = seed_startup_policy p c d

    enters :
        (cli : Cli F) (generated : String) (connect : ChosenPublisher → P) (services : Services)
        (target : Option GpuTarget) (limits : Option ℕ × Option ℕ) (gate : NvmlGate)
        {policy checked : Result (SafetyPolicy F) PolicyError} (p : SafetyPolicy F)
        (c : ChosenPublisher)
        → policy ≡ checked
        → checked ≡ ok p
        → services.recorder_installs ≡ true
        → services.sigterm_registers ≡ true
        → build_publisher cli services.endpoint_parses services.publisher_spawns ≡ some c
        → (r : Started F P) × (enter_loop cli generated connect services target limits gate policy
            ≡ ok r)
          × (checked ≡ ok r.supervisor.machine.policy)
    unfolding enter_loop launch
    enters cli generated connect services target limits gate p c same resolves recorder sigterm
          built =
        (
          loop_state cli generated (connect c) target limits gate p,
          rw (same, resolves, recorder, sigterm, built) refl,
          resolves ∙ sym (ap ok (loop_state-policy cli generated (connect c) target limits gate p)),
        )

    -- With simulated telemetry, whatever the driver reports or fails to report, a start that `prepare`
    -- let through reaches its loop, under the policy that `prepare` checked, provided that the metrics
    -- recorder is installed, the handler of SIGTERM is registered, and the capacity of the queue is one
    -- that the command line accepts. It does not matter whether corpus-ipc can be reached.
    pub run_to_loop-software_only :
        (pid : ℕ) (alive : ℕ → Bool) (remove_fails : Bool) (calls : List Call) (cli : Cli F)
        (before after : Locks) (generated : String) (connect : ChosenPublisher → P)
        (services : Services) (driver : Driver)
        → prepare pid alive remove_fails calls cli before ≡ (ok tt, after)
        → cli.force_software_only ≡ true
        → 1 ≤ cli.sensory_queue_capacity
        → cli.sensory_queue_capacity ≤ 4096
        → services.recorder_installs ≡ true
        → services.sigterm_registers ≡ true
        → (r : Started F P) × (run_to_loop cli generated connect services driver ≡ ok r)
          × (resolve (safety_policy_config cli) none ≡ ok r.supervisor.machine.policy)
    unfolding run_to_loop
    run_to_loop-software_only pid alive remove_fails calls cli before after generated connect
          services driver prepared simulated low high recorder sigterm =
        let (p, resolves) =
          prepare-check_options pid alive remove_fails calls cli before after prepared in
        let (c, built) =
          build_publisher-total cli services.endpoint_parses services.publisher_spawns low high in
        enters cli generated connect services _ _ _ p c (simulated_policy cli _ simulated) resolves
          recorder sigterm built
