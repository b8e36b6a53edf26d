-- ===== src/Gpu/Actuator.antt =====
-- src/gpu.rs: the actuator that sets power limits with `nvidia-smi`. `exec` is what the command gives
-- for its arguments: whether it succeeds, or the text of the error where it cannot be started. An
-- operation also returns the commands that it has run, in order.
pub mod Commands
use thalamic_relay.Prelude.{
  ℕ, Bool, true, false, Option, none, some, List, [], ◌∷◌, Result, ok, err, String, concat,
  show_u64, Chars, codes, u64_chars,
}
use thalamic_relay.Float.{Float}
use thalamic_relay.PowerLimit.{ActuatorError, command_failed, plan_brake_apply, plan_brake_release}
use thalamic_relay.Gpu.{Nvml, GpuTarget}
use thalamic_relay.Gpu.Bridge.{query_power_limit_w, query_default_power_limit_w}

abbrev pub Command : Type 0
Command = List Chars

abbrev pub Exec : Type 0
Exec = Command → Result Bool String

pub record Attempt : Type 0 where
  pub result : Result (Unit {0}) ActuatorError
  pub commands : List Command

abbrev pub no_target_error : ActuatorError
no_target_error = command_failed "no GPU target resolved at startup; refusing power-limit mutation"

-- The arguments of `timeout`.
unfoldable pub power_limit_command_args : GpuTarget → (limit_w : ℕ) → Command
power_limit_command_args target limit_w =
    codes "-k"
    ∷ codes "2"
    ∷ codes "5s"
    ∷ codes "sudo"
    ∷ codes "-n"
    ∷ codes "nvidia-smi"
    ∷ codes "-i"
    ∷ target.uuid
    ∷ codes "-pl"
    ∷ u64_chars limit_w
    ∷ []

command_result : (limit_w : ℕ) → Result Bool String → Result (Unit {0}) ActuatorError
command_result limit_w (err e) =
    err (command_failed (concat ("Failed to exec nvidia-smi: " ∷ e ∷ [])))
command_result limit_w (ok true) = ok tt
command_result limit_w (ok false) = err (
    command_failed (
      concat (
        "nvidia-smi -pl "
        ∷ show_u64 limit_w
        ∷ " failed (timeout, missing passwordless sudo, or command error)"
        ∷ [])))

unfoldable pub run_power_limit_command : Exec → Command → (limit_w : ℕ) → Attempt
unfolding command_result
run_power_limit_command exec args limit_w = record {
  result = command_result limit_w (exec args);
  commands = args ∷ [];
}

unfoldable pub planned_command : Option GpuTarget → (limit_w : ℕ) → Option Command
unfolding power_limit_command_args
planned_command none limit_w = none
planned_command (some target) limit_w = some (power_limit_command_args target limit_w)

refused_attempt : ActuatorError → Attempt
refused_attempt e = record { result = err e; commands = [] }

run_planned : Exec → (limit_w : ℕ) → Option Command → Attempt
unfolding refused_attempt run_power_limit_command
run_planned exec limit_w none = refused_attempt no_target_error
run_planned exec limit_w (some args) = run_power_limit_command exec args limit_w

unfoldable pub run_power_limit : Exec → Option GpuTarget → (limit_w : ℕ) → Attempt
unfolding run_planned planned_command
run_power_limit exec target limit_w = run_planned exec limit_w (planned_command target limit_w)

on_apply_plan : Exec → Option GpuTarget → Result (Option ℕ) ActuatorError → Attempt
unfolding refused_attempt run_power_limit
on_apply_plan exec target (err e) = refused_attempt e
on_apply_plan exec target (ok none) = record { result = ok tt; commands = [] }
on_apply_plan exec target (ok (some target_pl)) = run_power_limit exec target target_pl

on_release_plan : Exec → Option GpuTarget → Result ℕ ActuatorError → Attempt
unfolding refused_attempt run_power_limit
on_release_plan exec target (err e) = refused_attempt e
on_release_plan exec target (ok default_limit) = run_power_limit exec target default_limit

-- `query_power_limits_w`.
unfoldable pub query_power_limits_w : Option Nvml → Option GpuTarget → Option ℕ × Option ℕ
query_power_limits_w driver none = (none, none)
query_power_limits_w driver (some target) =
    (query_power_limit_w driver target, query_default_power_limit_w driver target)

module _ {F : Type 0} ⦃float : Float F⦄ where
  unfoldable pub apply_emergency_brake :
      Exec → Option Nvml → (actuator : Option GpuTarget) → (pct : F) → Attempt
  unfolding on_apply_plan refused_attempt
  apply_emergency_brake exec driver none pct = refused_attempt no_target_error
  apply_emergency_brake exec driver (some target) pct = on_apply_plan exec (some target) (
      plan_brake_apply (query_power_limit_w driver target)
        (query_default_power_limit_w driver target) pct)

unfoldable pub release_emergency_brake :
    (F : Type 0) ⦃float : Float F⦄ → Exec → Option Nvml → (actuator : Option GpuTarget) → Attempt
unfolding on_release_plan refused_attempt
release_emergency_brake F exec driver none = refused_attempt no_target_error
release_emergency_brake F exec driver (some target) = on_release_plan exec (some target) (
    plan_brake_release F (query_power_limit_w driver target)
      (query_default_power_limit_w driver target))
