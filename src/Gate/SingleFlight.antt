-- ===== src/Gate/SingleFlight.antt =====
-- No two driver calls at once, and what a wait that was given up leaves behind.
use thalamic_relay.Prelude.{◌≤◌, ◌≡◌, ◌↔◌, true, false, err, arith}
use thalamic_relay.Gate.{
  busy, timed_out, NvmlGate, default, try_enter, drop_permit, Wait, elapsed, run, Step, enters,
  gives_up, worker_ends, Reachable, start, next,
}

-- The flag tells whether a permit is out, and at most one is.
abbrev pub IsSingle : NvmlGate → Type 0
IsSingle gate = (gate.permits ≤ 1) × ((gate.held ≡ true) ↔ (gate.permits ≡ 1))

Step-IsSingle : {a b : NvmlGate} → Step a b → IsSingle a → IsSingle b
unfolding try_enter drop_permit
Step-IsSingle (enters gate) s = ground arith
Step-IsSingle (gives_up gate) s = s
Step-IsSingle (worker_ends gate h) s = ground arith

-- However callers enter, give up and workers end, at most one permit is out, and the flag is set
-- exactly while one is.
pub reachable-IsSingle : {gate : NvmlGate} → Reachable gate → IsSingle gate
unfolding default
reachable-IsSingle start = ground arith
reachable-IsSingle (next r s) = Step-IsSingle s (reachable-IsSingle r)

module _ {T : Type 0} where
  -- On a free gate whose wait was given up, the call reports the timeout and leaves the gate taken:
  -- every further call is refused, however its own wait would have ended, until the worker ends, and
  -- then the gate is as it was.
  pub run-elapsed :
      (gate : NvmlGate) (later : Wait T)
      → gate.held ≡ false
      → let (result, gate') = run {T = T} gate elapsed in
        (result ≡ err timed_out)
        × (run gate' later ≡ (err busy, gate'))
        × (drop_permit gate' ≡ gate)
  unfolding run drop_permit
  run-elapsed gate later free = (ground arith, ground arith, ground arith)
