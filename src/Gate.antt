-- ===== src/Gate.antt =====
-- src/nvml_gate.rs: at most one driver call. The gate is the shared AtomicBool; beside it, the model
-- counts the permits that blocking workers hold. A worker that returns or panics drops its permit.
use thalamic_relay.Prelude.{ℕ, ◌+◌, ◌-◌, ◌<◌, ◌≡◌, Bool, true, false, Result, ok, err}
pub mod SingleFlight

pub data NvmlRunError : Type 0 where
  busy timed_out worker_failed : NvmlRunError

pub record NvmlGate : Type 0 where
  pub held : Bool
  pub permits : ℕ

unfoldable pub default : NvmlGate
default = record { held = false; permits = 0 }

-- The `compare_exchange(false, true)` of `try_enter`, on the flag it finds.
enter : Bool → NvmlGate → Result (Unit {0}) NvmlRunError × NvmlGate
enter true gate = (err busy, gate)
enter false gate = (ok tt, record gate { held = true; permits = gate.permits + 1 })

unfoldable pub try_enter : NvmlGate → Result (Unit {0}) NvmlRunError × NvmlGate
unfolding enter
try_enter gate = enter gate.held gate

-- `Drop for Permit`.
unfoldable pub drop_permit : NvmlGate → NvmlGate
drop_permit gate = record gate { held = false; permits = gate.permits - 1 }

-- What `tokio::time::timeout(timeout, task).await` gives: the worker's value, that it panicked, or that
-- the time is up while the worker still runs.
pub data Wait (T : Type 0) : Type 0 where
  returned : T → Wait T
  join_error elapsed : Wait T

module _ {T : Type 0} where
  finish : Wait T → NvmlGate → Result T NvmlRunError × NvmlGate
  unfolding drop_permit
  finish (returned value) gate = (ok value, drop_permit gate)
  finish join_error gate = (err worker_failed, drop_permit gate)
  finish elapsed gate = (err timed_out, gate)

  enter_then : Result (Unit {0}) NvmlRunError → Wait T → NvmlGate → Result T NvmlRunError × NvmlGate
  unfolding finish
  enter_then (err e) wait gate = (err e, gate)
  enter_then (ok _) wait gate = finish wait gate

  -- `run`: the permit is held until the worker ends, also when the wait was given up.
  unfoldable pub run : NvmlGate → Wait T → Result T NvmlRunError × NvmlGate
  unfolding try_enter enter_then
  run gate wait = let (entered, gate') = try_enter gate in enter_then entered wait gate'

-- The steps of the callers and workers that share a gate. A wait that ends while its worker runs moves
-- nothing, and neither does a refused entry.
pub data Step : NvmlGate → NvmlGate → Type 0 where
  enters : (gate : NvmlGate) → Step gate (try_enter gate).1
  gives_up : (gate : NvmlGate) → Step gate gate
  worker_ends : (gate : NvmlGate) → 0 < gate.permits → Step gate (drop_permit gate)

-- The gates that any number of steps reaches from the new one.
pub data Reachable : NvmlGate → Type 0 where
  start : Reachable default
  next : {a b : NvmlGate} → Reachable a → Step a b → Reachable b
