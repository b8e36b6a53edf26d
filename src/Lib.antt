-- ===== src/Lib.antt =====
-- vahtisiru (thalamic-relay): a relay that watches a GPU, brakes it when it is unsafe, and publishes what
-- it senses.
--
-- The parts, and how they interact. The supervisor (src/daemon.rs) reads raw telemetry through a gate
-- that lets one driver call run at a time (src/nvml_gate.rs), assembles a frame of validated samples
-- (src/telemetry.rs) that a clock has numbered (src/time.rs), and at times evaluates it: the frame is
-- classified against the operator's policy (src/safety.rs, src/safety/policy.rs), and the safety machine
-- turns the class into a wish to apply or release the brake. The loop spawns the wish as a task, which
-- sets a power limit by a plan with `nvidia-smi` (src/gpu.rs), and records what the task returned. Every frame is also
-- offered to a publisher (src/publish.rs), whose bounded queue a worker drains. On a signal the loop ends
-- by a plan that starts nothing (src/shutdown.rs). The metrics (src/cpu.rs) copy the machine's state.
-- Before the loop, `prepare` checks the options and takes the process lock (src/daemon.rs). Apart from
-- the loop, the crate reads and writes telemetry as CSV (src/telemetry_csv.rs).
--
-- Which file models which part:
--   Prelude    tests on native numbers, options and results as Rust has them, u32 and u64 arithmetic,
--              decimal texts (20 digits are enough for a u64, as is proved there), results of code that
--              may panic (an Option, `none` being the panic), and Rust's operations on texts (trim,
--              split, lines, parse), over lists of code points
--   Float      f32 as an interface of operations, with the laws that hold of IEEE 754; Float.Fixed is a
--              concrete type that meets them, which the examples compute with; Float.Printed is how f32
--              is read and printed
--   Time       SampleClock, SourceTimeStatus; Time.Field parse_source_timestamp_field (src/time.rs)
--   Telemetry  signals; Telemetry.Sample, Telemetry.Frame, Telemetry.Mapping, Telemetry.Fixtures
--              (src/telemetry.rs)
--   Policy     SafetyPolicyConfig::resolve (src/safety/policy.rs)
--   Classify   classify_frame_with_policy and what it calls (src/safety.rs)
--   Csv        the CSV reader and writer; Csv.Fields, Csv.RoundTrip, Csv.Counts, Csv.Replay what holds of
--              them (src/telemetry_csv.rs)
--   Machine    SafetyMachine; Machine.Default the default policy (src/safety.rs)
--   PowerLimit classify_power_limit (src/safety.rs), plan_brake_apply and plan_brake_release (src/gpu.rs);
--              PowerLimit.Fake the trait of the actuators and FakeActuator (src/safety.rs)
--   Gpu        GpuTarget; Gpu.Bridge HardwareBridge, Gpu.Actuator NvmlActuator (src/gpu.rs)
--   Shutdown   plan_shutdown, join_in_flight (src/shutdown.rs)
--   Gate       NvmlGate (src/nvml_gate.rs)
--   Publish    QueueConfig; Publish.Queue the queue, Publish.Batch the wire batch, Publish.Publisher the
--              publishers, Publish.Worker run_udp_worker, Publish.Exposition the Prometheus text
--              (src/publish.rs)
--   Metrics    RelayMetrics; Metrics.Gauges the gauges (src/cpu.rs, src/publish.rs)
--   Lock       LockGuard, try_acquire_lock, check_legacy_lock: one start, undisturbed or among
--              others, and starts that interleave (src/daemon.rs)
--   Supervisor dispatch decisions; Supervisor.Loop and Supervisor.Tick the loop of `run`, Supervisor.Exit
--              perform_orderly_shutdown, Supervisor.Report the log and the dashboard (src/daemon.rs)
--   Startup    prepare, build_publisher, resolve_gpu_target; Startup.Run `run` up to its loop,
--              Startup.Smoke the hardware check (src/daemon.rs)
--   Examples   concrete runs
--
-- State is passed explicitly: a method that mutates an object is a function that returns the new one.
-- Loops run over lists of their inputs or are structural. Those with a bound: the spin on the queue's
-- mutex, whose 128 attempts are the constant of the source; the worker of the queue, whose rounds are
-- proved to be enough; and a start at a lock that no other process touches, which ends within six
-- system calls. A start among others has no bound and runs over the list of its calls. Machine words
-- keep their saturation or wrap-around.
--
-- What runs outside the program is an input: what the driver (nvml-wrapper), nvidia-smi or a wait for a
-- task returns, the time, which workers have ended, what each `try_lock` finds, which processes exist,
-- which system calls fail, and the validation of corpus-ipc, a parameter of the publisher. Not modelled:
-- generated session ids, the command line parser, sockets, threads and JSON, the metrics registry and
-- its exporter, and the construction of the async runtime: these are calls of other libraries.
pub mod Prelude
pub mod Float
pub mod Time
pub mod Telemetry
pub mod Policy
pub mod Classify
pub mod Csv
pub mod Machine
pub mod PowerLimit
pub mod Gpu
pub mod Shutdown
pub mod Gate
pub mod Publish
pub mod Metrics
pub mod Lock
pub mod Supervisor
pub mod Startup
pub mod Examples
