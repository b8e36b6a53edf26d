-- ===== src/Supervisor/Exit.antt =====
-- src/daemon.rs: `perform_orderly_shutdown`. What a wait for a task gives is an argument; the collector's
-- own shutdown is not part of the state.
use thalamic_relay.Prelude.{Bool, true, false, none, String}
use thalamic_relay.Float.{Float}
use thalamic_relay.Machine.{
  ActuatorOutcome, applied, released, apply_failed, release_failed, snapshot,
}
use thalamic_relay.Shutdown.{
  ShutdownReason, from_tasks, ShutdownActuation, await_apply, await_authorized_release,
  ShutdownPlan, plan_shutdown, InFlightJoin, succeeded, timed_out, failed, panicked, Waited,
  join_in_flight,
}
use thalamic_relay.Metrics.{record_shutdown}
use thalamic_relay.Publish.Publisher.{SensoryPublisher}
use thalamic_relay.Supervisor.{Slots}
use thalamic_relay.Supervisor.Loop.{Supervisor, record_and_store}
pub mod Brake

module _ {F : Type 0} ⦃float : Float F⦄ {P : Type 0} ⦃publisher : SensoryPublisher F P⦄ where
  -- The arms of the `match` on a join.
  on_join :
      (success : ActuatorOutcome)
      → (failure : String → ActuatorOutcome) → InFlightJoin
      → Supervisor F P
      → Supervisor F P
  unfolding record_and_store
  on_join success failure succeeded s = record_and_store success s
  on_join success failure (failed e) s = record_and_store (failure e) s
  on_join success failure (panicked e) s = record_and_store (failure e) s
  on_join success failure timed_out s = s

  -- `if let Some(task) = slot.take()`.
  join_slot :
      (in_flight : Bool)
      → (success : ActuatorOutcome) → (failure : String → ActuatorOutcome) → Waited
      → Supervisor F P
      → Supervisor F P
  unfolding on_join join_in_flight
  join_slot false success failure waited s = s
  join_slot true success failure waited s = on_join success failure (join_in_flight waited).0 s

  actuate : ShutdownActuation → Waited → Supervisor F P → Supervisor F P
  unfolding join_slot
  actuate ShutdownActuation.idle waited s = s
  actuate await_apply waited s = join_slot s.slots.brake_task applied apply_failed waited s
  actuate await_authorized_release waited s =
      join_slot s.slots.release_task released release_failed waited s

  -- Every arm takes both tasks out of their slots, awaited or aborted.
  take_tasks : Supervisor F P → Supervisor F P
  take_tasks s =
      let slots = s.slots in
      record s { slots = record slots { brake_task = false; release_task = false } }

  unfoldable pub perform_orderly_shutdown :
      ShutdownReason → Supervisor F P → Waited → ShutdownPlan × Supervisor F P
  unfolding actuate take_tasks plan_shutdown from_tasks snapshot record_shutdown
  perform_orderly_shutdown reason s waited =
      let plan =
        plan_shutdown reason (snapshot s.machine)
          (from_tasks s.slots.brake_task s.slots.release_task) in
      let recorded = record s { metrics = record_shutdown s.metrics plan } in
      (plan, take_tasks (actuate plan.actuation waited recorded))
