-- ===== src/Gpu/Actuator/Commands.antt =====
-- src/gpu.rs: which commands the actuator runs, and what its success means.
use thalamic_relay.Prelude.{
  ℕ, ◌+◌, ◌≤◌, ◌<◌, ◌≡◌, inl, inr, refl, sym, subst, Bool, true, false, Option, none, some, [], ◌∷◌,
  Result, ok, err, String, arith,
}
use thalamic_relay.Float.{Float}
use thalamic_relay.PowerLimit.{
  ActuatorError, brake_fraction, plan_brake_apply, plan_brake_release, unambiguous_brake_target,
}
use thalamic_relay.PowerLimit.Ownership.{IsNear, plan_brake_apply_lem, plan_brake_release_lem}
use thalamic_relay.Gpu.{Nvml, GpuTarget}
use thalamic_relay.Gpu.Bridge.{query_power_limit_w, query_default_power_limit_w}
use thalamic_relay.Gpu.Actuator.{
  Exec, Attempt, power_limit_command_args, command_result, refused_attempt, run_power_limit,
  run_power_limit_command, run_planned, planned_command, on_apply_plan, on_release_plan,
  apply_emergency_brake, release_emergency_brake, no_target_error,
}

command_result-ok : (w : ℕ) (r : Result Bool String) → command_result w r ≡ ok tt → r ≡ ok true
unfolding command_result
command_result-ok w (err e) h = cc
command_result-ok w (ok true) h = refl
command_result-ok w (ok false) h = cc

-- One command, which sets `w` watts on the target; the attempt succeeds only if the command does.
pub record SetsLimit (exec : Exec) (target : GpuTarget) (w : ℕ) (a : Attempt) : Type 0 where
  pub command : a.commands ≡ power_limit_command_args target w ∷ []
  pub succeeds : a.result ≡ ok tt → exec (power_limit_command_args target w) ≡ ok true

run-SetsLimit :
    (exec : Exec) (target : GpuTarget) (w : ℕ)
    → SetsLimit exec target w (run_power_limit exec (some target) w)
unfolding run_power_limit run_planned planned_command run_power_limit_command
run-SetsLimit exec target w = record { command = refl; succeeds = command_result-ok w _ }

-- The attempt has failed, and has run no command.
pub record IsRefused (a : Attempt) : Type 0 where
  pub error : ActuatorError
  pub failed : a.result ≡ err error
  pub quiet : a.commands ≡ []

module _ (F : Type 0) ⦃float : Float F⦄ (exec : Exec) (driver : Option Nvml) where
  -- The limits of the target as the driver reports them, and the brake target of its default.
  pub record IsMeasured (target : GpuTarget) (current default brake : ℕ) : Type 0 where
    pub current_is : query_power_limit_w driver target ≡ some current
    pub default_is : query_default_power_limit_w driver target ≡ some default
    pub brake_is : unambiguous_brake_target default (brake_fraction {F = F}) ≡ some brake

  -- The three ends of an apply.
  pub data AppliesBrake (actuator : Option GpuTarget) (a : Attempt) : Type 0 where
    refused : IsRefused a → AppliesBrake actuator a
    already :
        {target : GpuTarget} {c d t : ℕ}
        → actuator ≡ some target
        → IsMeasured target c d t
        → IsNear c t
        → a.commands ≡ []
        → AppliesBrake actuator a
    sets :
        {target : GpuTarget} {c d t : ℕ}
        → actuator ≡ some target
        → IsMeasured target c d t
        → (d ≤ c + 2) × (t + 4 < d)
        → SetsLimit exec target t a
        → AppliesBrake actuator a

  -- The two ends of a release.
  pub data ReleasesBrake (actuator : Option GpuTarget) (a : Attempt) : Type 0 where
    refused : IsRefused a → ReleasesBrake actuator a
    restores :
        {target : GpuTarget} {c d t : ℕ}
        → actuator ≡ some target
        → IsMeasured target c d t
        → IsNear c t
        → SetsLimit exec target d a
        → ReleasesBrake actuator a

  refused_attempt-IsRefused : (e : ActuatorError) → IsRefused (refused_attempt e)
  unfolding refused_attempt
  refused_attempt-IsRefused e = record { error = e; failed = refl; quiet = refl }

  apply_of_plan :
      (target : GpuTarget) (oc od : Option ℕ) (plan : Result (Option ℕ) ActuatorError)
      → query_power_limit_w driver target ≡ oc
      → query_default_power_limit_w driver target ≡ od
      → plan_brake_apply oc od (brake_fraction {F = F}) ≡ plan
      → AppliesBrake (some target) (on_apply_plan exec (some target) plan)
  unfolding on_apply_plan
  apply_of_plan target oc od (err e) qc qd h = refused (refused_attempt-IsRefused e)
  apply_of_plan target none od (ok plan) qc qd h = absurd (unfold plan_brake_apply in ground arith)
  apply_of_plan target (some c) none (ok plan) qc qd h =
      absurd (unfold plan_brake_apply in ground arith)
  apply_of_plan target (some c) (some d) (ok none) qc qd h =
      let (t, b, gap, cases) = plan_brake_apply_lem F c d h in
      let m : IsMeasured target c d t = record { current_is = qc; default_is = qd; brake_is = b } in
      elim cases [ inl (e, _) ↦ absurd (cc) | inr (_, near) ↦ already refl m near refl ]
  apply_of_plan target (some c) (some d) (ok (some w)) qc qd h =
      let (t, b, gap, cases) = plan_brake_apply_lem F c d h in
      let m : IsMeasured target c d t = record { current_is = qc; default_is = qd; brake_is = b } in
      elim cases [
        | inl (e, high) ↦
            let same : t ≡ w = cc in
            sets refl m (high, gap)
              (subst (λ v. SetsLimit exec target v (run_power_limit exec (some target) w))
                (sym same) (run-SetsLimit exec target w))
        | inr (e, _) ↦ absurd (cc)
      ]

  -- Whatever an apply runs is one command, for the relay's own target: it sets the brake target of the
  -- device's default, more than 4 W below it, and only where the current limit is within 2 W of the
  -- default or above. It succeeds only if that command does, or if the brake is already on. Otherwise,
  -- and without a target, it fails and runs nothing.
  pub apply_emergency_brake-AppliesBrake :
      (actuator : Option GpuTarget)
      → AppliesBrake actuator (apply_emergency_brake exec driver actuator (brake_fraction {F = F}))
  unfolding apply_emergency_brake
  apply_emergency_brake-AppliesBrake none = refused (refused_attempt-IsRefused no_target_error)
  apply_emergency_brake-AppliesBrake (some target) = apply_of_plan target _ _ _ refl refl refl

  release_of_plan :
      (target : GpuTarget) (oc od : Option ℕ) (plan : Result ℕ ActuatorError)
      → query_power_limit_w driver target ≡ oc
      → query_default_power_limit_w driver target ≡ od
      → plan_brake_release F oc od ≡ plan
      → ReleasesBrake (some target) (on_release_plan exec (some target) plan)
  unfolding on_release_plan
  release_of_plan target oc od (err e) qc qd h = refused (refused_attempt-IsRefused e)
  release_of_plan target none od (ok w) qc qd h = absurd (unfold plan_brake_release in ground arith)
  release_of_plan target (some c) none (ok w) qc qd h =
      absurd (unfold plan_brake_release in ground arith)
  release_of_plan target (some c) (some d) (ok w) qc qd h =
      let (same, (t, b, near)) = plan_brake_release_lem F c d h in
      let m : IsMeasured target c d t = record { current_is = qc; default_is = qd; brake_is = b } in
      restores refl m near (
        subst (λ v. SetsLimit exec target v (run_power_limit exec (some target) w)) same
          (run-SetsLimit exec target w))

  -- Whatever a release runs is one command, for the relay's own target: it restores the device's
  -- default, and only from within 2 W of the relay's own brake. It succeeds only if that command does.
  -- Otherwise, and without a target, it fails and runs nothing.
  pub release_emergency_brake-ReleasesBrake :
      (actuator : Option GpuTarget)
      → ReleasesBrake actuator (release_emergency_brake F exec driver actuator)
  unfolding release_emergency_brake
  release_emergency_brake-ReleasesBrake none = refused (refused_attempt-IsRefused no_target_error)
  release_emergency_brake-ReleasesBrake (some target) = release_of_plan target _ _ _ refl refl refl
