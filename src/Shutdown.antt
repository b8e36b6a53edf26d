-- ===== src/Shutdown.antt =====
-- src/shutdown.rs: the decision on an orderly shutdown. A plan has no action that starts an
-- actuation. The waits of `join_in_flight` are represented by what they end in.
use thalamic_relay.Prelude.{Bool, true, false, ◌||◌, is_some, if◌then◌else◌, String, Result, Option}
use thalamic_relay.Machine.{
  SafetyState, healthy_real, warning, critical_braked, recovering, telemetry_missing,
  telemetry_stale, telemetry_invalid, simulated_software_only, actuator_failure, SafetySnapshot,
}
pub mod Plan

pub data ShutdownReason : Type 0 where
  sigint sigterm : ShutdownReason

unfoldable pub reason_as_str : ShutdownReason → String
reason_as_str sigint = "sigint"
reason_as_str sigterm = "sigterm"

pub data InFlightActuation : Type 0 where
  idle apply release : InFlightActuation

unfoldable pub from_tasks : (apply release : Bool) → InFlightActuation
from_tasks true _ = apply
from_tasks false true = release
from_tasks false false = idle

pub data ShutdownActuation : Type 0 where
  idle await_apply await_authorized_release : ShutdownActuation

pub record ShutdownPlan : Type 0 where
  pub reason : ShutdownReason
  pub actuation : ShutdownActuation
  pub leave_brake_engaged : Bool
  pub unresolved_brake : Bool
  pub unresolved_actuator : Bool
  pub summary : String

-- The last `match`, on the state and on whether the brake is engaged.
state_summary : SafetyState → (brake_engaged : Bool) → String
state_summary healthy_real false = "healthy; leave hardware unchanged; release process lock"
state_summary healthy_real true = "brake still claimed; leave engaged; no restore on exit"
state_summary warning false = "warned, brake not engaged; do not apply or restore on exit"
state_summary warning true = "warned with brake held; leave brake engaged"
state_summary critical_braked true = "critical, brake active; leave brake engaged"
state_summary critical_braked false =
    "critical, brake requested but not yet applied; do not restore; next start will apply"
state_summary recovering _ =
    "recovering; abandon undispatched release; leave brake engaged for hysteresis on restart"
state_summary telemetry_missing _ = "telemetry unverified; leave hardware unchanged (fail closed)"
state_summary telemetry_stale _ = "telemetry unverified; leave hardware unchanged (fail closed)"
state_summary telemetry_invalid _ = "telemetry unverified; leave hardware unchanged (fail closed)"
state_summary simulated_software_only true =
    "simulated telemetry cannot authorize release of a real brake; leave engaged"
state_summary simulated_software_only false = "software-only; leave hardware unchanged"
state_summary actuator_failure _ =
    "actuator failed; do not retry on the way out; leave unresolved for restart"

unfoldable pub shutdown_summary : SafetySnapshot → InFlightActuation → String
unfolding state_summary
shutdown_summary snap InFlightActuation.apply =
    "await in-flight apply; do not restore default power limit"
shutdown_summary snap InFlightActuation.release =
    "await already-authorized in-flight release; no new actuation"
shutdown_summary snap InFlightActuation.idle =
    if is_some snap.last_actuator_error || snap.actuator_failed
    then "actuator failed; do not retry on the way out; leave unresolved for restart"
    else state_summary snap.state snap.brake_engaged

is_apply : InFlightActuation → Bool
is_apply InFlightActuation.apply = true
is_apply _ = false

unfoldable pub actuation_of : InFlightActuation → ShutdownActuation
actuation_of InFlightActuation.apply = await_apply
actuation_of InFlightActuation.release = await_authorized_release
actuation_of InFlightActuation.idle = ShutdownActuation.idle

unfoldable pub plan_shutdown : ShutdownReason → SafetySnapshot → InFlightActuation → ShutdownPlan
unfolding actuation_of is_apply shutdown_summary
plan_shutdown reason snap in_flight = record {
  reason = reason;
  actuation = actuation_of in_flight;
  leave_brake_engaged = snap.brake_engaged || is_apply in_flight;
  unresolved_brake = snap.brake_engaged || snap.desired_brake || is_apply in_flight;
  unresolved_actuator = is_some snap.last_actuator_error || snap.actuator_failed;
  summary = shutdown_summary snap in_flight;
}

pub data InFlightJoin : Type 0 where
  succeeded timed_out : InFlightJoin
  failed panicked : String → InFlightJoin

-- What `tokio::time::timeout(timeout, task).await` gives for a task that returns `Result<(), E>`:
-- the task's own result, the text of a join error, or that the time is up.
pub data Waited : Type 0 where
  returned : Option String → Waited
  join_error : String → Waited
  elapsed : Waited

-- `join_in_flight`: the result, and whether the task is aborted.
unfoldable pub join_in_flight : Waited → InFlightJoin × Bool
join_in_flight (returned Option.none) = (succeeded, false)
join_in_flight (returned (Option.some e)) = (failed e, false)
join_in_flight (join_error e) = (panicked e, false)
join_in_flight elapsed = (timed_out, true)
