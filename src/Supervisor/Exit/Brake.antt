-- ===== src/Supervisor/Exit/Brake.antt =====
-- What an orderly shutdown does to the brake and to the tasks.
use thalamic_relay.Prelude.{
  ◌≡◌, refl, Bool, true, false, none, some, String, List, [], ◌∷◌, arith, ap, ◌∙◌,
}
use thalamic_relay.Float.{Float}
use thalamic_relay.Machine.{
  BrakeIntent, ActuatorOutcome, applied, released, apply_failed, release_failed, SafetyMachine,
  record_actuator, snapshot,
}
use thalamic_relay.Metrics.{record_shutdown}
use thalamic_relay.Shutdown.{
  ShutdownReason, ShutdownActuation, await_apply, await_authorized_release, actuation_of, Waited,
  returned, join_error, elapsed, join_in_flight, plan_shutdown, from_tasks,
}
use thalamic_relay.Publish.Publisher.{SensoryPublisher}
use thalamic_relay.Supervisor.Loop.{Event, calls, spawns, Supervisor, record_and_store}
use thalamic_relay.Supervisor.Exit.{
  on_join, join_slot, actuate, take_tasks, perform_orderly_shutdown,
}

-- The actuations that a log has spawned.
abbrev pub spawned_of : {F : Type 0} → List (Event F) → List BrakeIntent
spawned_of [] = []
spawned_of (calls c ∷ past) = spawned_of past
spawned_of (spawns i ∷ past) = i ∷ spawned_of past

-- A wait that ends with an error or a panic of the task.
abbrev pub is_failure : Waited → Bool
is_failure (returned none) = false
is_failure (returned (some e)) = true
is_failure (join_error e) = true
is_failure elapsed = false

module _ {F : Type 0} where
  engaged_after :
      (m : SafetyMachine F) (e : String)
      → ((record_actuator m applied).1.brake_engaged ≡ true)
        × ((record_actuator m released).1.brake_engaged ≡ false)
        × ((record_actuator m (apply_failed e)).1.brake_engaged ≡ false)
        × ((record_actuator m (release_failed e)).1.brake_engaged ≡ m.brake_engaged)
  unfolding record_actuator
  engaged_after m e = (ground arith, ground arith, ground arith, ground arith)

-- The claim on the brake after a shutdown: an apply that is awaited decides it, else a release that is;
-- a wait that times out and an exit without tasks change nothing.
abbrev pub brake_after : (applying releasing : Bool) → Waited → (engaged : Bool) → Bool
brake_after true releasing (returned none) engaged = true
brake_after true releasing elapsed engaged = engaged
brake_after true releasing _ engaged = false
brake_after false true (returned none) engaged = false
brake_after false _ _ engaged = engaged

module _ {F : Type 0} ⦃float : Float F⦄ {P : Type 0} ⦃publisher : SensoryPublisher F P⦄ where
  join_apply :
      (in_flight : Bool) (w : Waited) (s : Supervisor F P)
      → (join_slot in_flight applied apply_failed w s).machine.brake_engaged
        ≡ brake_after in_flight false w s.machine.brake_engaged
  unfolding join_slot on_join join_in_flight record_and_store
  join_apply false w s = refl
  join_apply true (returned none) s = (engaged_after s.machine "").0
  join_apply true (returned (some e)) s = (engaged_after s.machine e).2
  join_apply true (join_error e) s = (engaged_after s.machine e).2
  join_apply true elapsed s = refl

  join_release :
      (in_flight : Bool) (w : Waited) (s : Supervisor F P)
      → (join_slot in_flight released release_failed w s).machine.brake_engaged
        ≡ brake_after false in_flight w s.machine.brake_engaged
  unfolding join_slot on_join join_in_flight record_and_store
  join_release false w s = refl
  join_release true (returned none) s = (engaged_after s.machine "").1
  join_release true (returned (some e)) s = (engaged_after s.machine e).3
  join_release true (join_error e) s = (engaged_after s.machine e).3
  join_release true elapsed s = refl

  join_slot_spawned :
      (in_flight : Bool) (success : ActuatorOutcome) (failure : String → ActuatorOutcome)
      (w : Waited) (s : Supervisor F P)
      → spawned_of (join_slot in_flight success failure w s).log ≡ spawned_of s.log
  unfolding join_slot on_join join_in_flight record_and_store
  join_slot_spawned false success failure w s = refl
  join_slot_spawned true success failure (returned none) s = refl
  join_slot_spawned true success failure (returned (some e)) s = refl
  join_slot_spawned true success failure (join_error e) s = refl
  join_slot_spawned true success failure elapsed s = refl

  actuate_spawned :
      (a : ShutdownActuation) (w : Waited) (s : Supervisor F P)
      → spawned_of (actuate a w s).log ≡ spawned_of s.log
  unfolding actuate
  actuate_spawned ShutdownActuation.idle w s = refl
  actuate_spawned await_apply w s = join_slot_spawned _ _ _ w s
  actuate_spawned await_authorized_release w s = join_slot_spawned _ _ _ w s

  actuate_brake :
      (applying releasing : Bool) (w : Waited) (s : Supervisor F P)
      → s.slots.brake_task ≡ applying
      → s.slots.release_task ≡ releasing
      → (actuate (actuation_of (from_tasks applying releasing)) w s).machine.brake_engaged
        ≡ brake_after applying releasing w s.machine.brake_engaged
  unfolding actuate from_tasks actuation_of
  actuate_brake true releasing w s ea er =
      ap (λ b. (join_slot {F = F} {P = P} b applied apply_failed w s).machine.brake_engaged) ea
      ∙ join_apply true w s
      ∙ brake_after_apply releasing w s.machine.brake_engaged
    where
      brake_after_apply :
          (r : Bool) (x : Waited) (b : Bool) → brake_after true false x b ≡ brake_after true r x b
      brake_after_apply r x b = ground arith
  actuate_brake false true w s ea er =
      ap (λ b. (join_slot {F = F} {P = P} b released release_failed w s).machine.brake_engaged) er
      ∙ join_release true w s
  actuate_brake false false w s ea er = ground arith

  -- An orderly shutdown starts no actuation and leaves no task in a slot. The claim on the brake changes
  -- only by the task that it awaits: an apply that succeeds sets it and one that fails clears it, a
  -- release that succeeds clears it; a release that fails, a wait that times out, and an exit without a
  -- task in flight, with or without an undispatched release, leave it as it was.
  pub perform_orderly_shutdown-brake :
      (reason : ShutdownReason) (s : Supervisor F P) (w : Waited)
      → let s' = (perform_orderly_shutdown reason s w).1 in
        (spawned_of s'.log ≡ spawned_of s.log)
        × (s'.slots.brake_task ≡ false)
        × (s'.slots.release_task ≡ false)
        × (s'.machine.brake_engaged
            ≡ brake_after s.slots.brake_task s.slots.release_task w s.machine.brake_engaged)
  unfolding perform_orderly_shutdown take_tasks plan_shutdown
  perform_orderly_shutdown-brake reason s w =
      let plan =
        plan_shutdown reason (snapshot s.machine)
          (from_tasks s.slots.brake_task s.slots.release_task) in
      let recorded = record s { metrics = record_shutdown s.metrics plan } in
      (
        actuate_spawned plan.actuation w recorded,
        refl,
        refl,
        actuate_brake s.slots.brake_task s.slots.release_task w recorded refl refl,
      )
