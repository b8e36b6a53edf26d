-- ===== src/Shutdown/Plan.antt =====
-- What a shutdown plan says of the tasks in flight and of the brake.
use thalamic_relay.Prelude.{◌≡◌, ◌↔◌, Bool, true, false, none, arith}
use thalamic_relay.Machine.{SafetySnapshot}
use thalamic_relay.Shutdown.{
  ShutdownReason, from_tasks, ShutdownActuation, await_apply, await_authorized_release,
  plan_shutdown,
}

-- A shutdown waits for an apply exactly when one is in flight, for a release exactly when one and no
-- apply is in flight, and otherwise for nothing. What the machine still wishes plays no part.
pub plan_shutdown-actuation_iff :
    (reason : ShutdownReason) (snap : SafetySnapshot) (applying releasing : Bool)
    → let awaited = (plan_shutdown reason snap (from_tasks applying releasing)).actuation in
      ((awaited ≡ await_apply) ↔ (applying ≡ true))
      × ((awaited ≡ await_authorized_release) ↔ ((applying ≡ false) × (releasing ≡ true)))
      × ((awaited ≡ ShutdownActuation.idle) ↔ ((applying ≡ false) × (releasing ≡ false)))
unfolding plan_shutdown from_tasks
plan_shutdown-actuation_iff reason snap applying releasing = (
  (λ e. ground arith, λ h. ground arith),
  (λ e. (ground arith, ground arith), λ h. ground arith),
  (λ e. (ground arith, ground arith), λ h. ground arith),
)

-- A shutdown reports no unresolved brake only if the brake is not engaged, is not wished for and is
-- not being applied; then the plan does not leave a brake engaged. It reports no unresolved actuator
-- exactly when no error is kept and the last command did not fail.
pub plan_shutdown-unresolved_iff :
    (reason : ShutdownReason) (snap : SafetySnapshot) (applying releasing : Bool)
    → let plan = plan_shutdown reason snap (from_tasks applying releasing) in
      ((plan.unresolved_brake ≡ false)
        ↔ ((snap.brake_engaged ≡ false) × (snap.desired_brake ≡ false) × (applying ≡ false)))
      × ((plan.unresolved_brake ≡ false) → (plan.leave_brake_engaged ≡ false))
      × ((plan.unresolved_actuator ≡ false)
          ↔ ((snap.last_actuator_error ≡ none) × (snap.actuator_failed ≡ false)))
unfolding plan_shutdown from_tasks
plan_shutdown-unresolved_iff reason snap applying releasing = (
  (λ e. (ground arith, ground arith, ground arith), λ h. ground arith),
  λ e. ground arith,
  (λ e. (ground arith, ground arith), λ h. ground arith),
)
