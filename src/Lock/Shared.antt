-- ===== src/Lock/Shared.antt =====
-- src/daemon.rs: starts of several processes at once, as interleavings of their system calls on one
-- lock file, with the drop of the guard. Every process of the system exists (`alive`), and its pid is a
-- u32.
pub mod Exclusive
use thalamic_relay.Prelude.{
  ℕ, ◌≤◌, ◌≡◌, ◌≢◌, ◌⊎◌, inl, inr, refl, subst, if◌then◌else◌, ◌==◌, Bool, true, false, Bool-cases,
  Option, none, some, arith, Chars, u32_max, parse_unsigned-nil, sym, and_then, [],
}
use thalamic_relay.Lock.{
  LockFile, absent, file, unreadable, active, Phase, creating, writing, reading, probing, removing,
  holding, refused, recorded_pid, pid_line, lock_step, asked, read_text, after_read, write_pid,
  drop_guard,
}
use thalamic_relay.Lock.Alone.{IsStale, stale, recorded_pid-pid_line}

-- The processes that run, by pid, each at its place, and the lock file.
pub record System : Type 0 where
  pub phases : ℕ → Option Phase
  pub lock : LockFile

abbrev pub set : ℕ → Option Phase → (ℕ → Option Phase) → ℕ → Option Phase
set pid p phases q = if q == pid then p else phases q

-- The system after a system call of the process `pid`.
abbrev pub moved : ℕ → Phase × LockFile → System → System
moved pid (p, f) s = record { phases = set pid (some p) s.phases; lock = f }

module _ (alive : ℕ → Bool) where
  pub data Step : System → System → Type 0 where
    begin :
        {s : System} (pid : ℕ)
        → pid ≤ u32_max
        → alive pid ≡ true
        → s.phases pid ≡ none
        → Step s (record s { phases = set pid (some creating) s.phases })
    call :
        {s : System} (pid : ℕ) (fails : Bool) (p : Phase)
        → s.phases pid ≡ some p
        → Step s (moved pid (lock_step pid fails (alive (asked p)) p s.lock) s)
    release :
        {s : System} (pid : ℕ) (fails : Bool)
        → s.phases pid ≡ some holding
        → Step s (record { phases = set pid none s.phases; lock = drop_guard fails s.lock })

  pub data Reachable (s₀ : System) : System → Type 0 where
    here : Reachable s₀ s₀
    next : {s t : System} → Reachable s₀ s → Step s t → Reachable s₀ t

-- No process has begun, and the lock is the file `f`.
abbrev pub idle : LockFile → System
idle f = record { phases = λ pid. none; lock = f }
