-- ===== src/Lock.antt =====
-- src/daemon.rs: the process lock. One path of the file system is a state: no file, a file with the
-- process that created it and its text, or one that cannot be read. Every system call of
-- `try_acquire_lock` is a step, so that processes can be interleaved; whether the call fails and
-- whether `/proc/<pid>` exists are inputs. The messages of the refusals are constructors.
use thalamic_relay.Prelude.{
  ℕ, Bool, true, false, Option, none, some, and_then, List, [], ◌∷◌, ◌++◌, Result, ok, err,
  if◌then◌else◌, ◌==◌, Chars, trim, parse_unsigned, u64_chars, u32_max,
}
pub mod Alone
pub mod Shared
pub mod Race
pub mod Disturbed

pub data LockFile : Type 0 where
  absent : LockFile
  file : (creator : ℕ) → (text : Chars) → LockFile
  unreadable : LockFile

-- Why a start is refused.
pub data Refusal : Type 0 where
  create_failed : Refusal
  write_failed : Refusal
  unparseable : Refusal
  read_failed : Refusal
  active : (recorded_pid : ℕ) → Refusal
  remove_failed : Refusal

-- Where a process stands in `try_acquire_lock`: before `create_new`, before the write of its pid,
-- before the read of the file, before the test of `/proc`, before `remove_file`; or it has returned.
pub data Phase : Type 0 where
  creating : Phase
  writing : Phase
  reading : Phase
  probing : (recorded_pid : ℕ) → Phase
  removing : (recorded_pid : ℕ) → Phase
  holding : Phase
  refused : Refusal → Phase

-- `content.trim().parse::<u32>().ok()`.
unfoldable pub recorded_pid : Chars → Option ℕ
recorded_pid content = parse_unsigned u32_max (trim content)

-- `writeln!(file, "{}", std::process::id())`.
abbrev pub pid_line : ℕ → Chars
pid_line pid = u64_chars pid ++ 10 ∷ []

-- A write goes to the file that the process has created, also after its name was removed.
write_pid : (pid : ℕ) → LockFile → LockFile
write_pid pid (file creator text) =
    if creator == pid then file creator (pid_line pid) else file creator text
write_pid pid f = f

-- `read_to_string`; no file is an error too.
read_text : LockFile → Option Chars
read_text (file creator text) = some text
read_text _ = none

after_read : Option ℕ → Phase
after_read none = refused unparseable
after_read (some recorded) = probing recorded

-- One system call of the process `pid`. `fails` says that the call is refused for another reason than
-- the state of the file.
unfoldable pub lock_step : (pid : ℕ) → (fails alive : Bool) → Phase → LockFile → Phase × LockFile
unfolding write_pid read_text after_read recorded_pid
lock_step pid fails alive creating absent =
    if fails then (refused create_failed, absent) else (writing, file pid [])
lock_step pid fails alive creating f = (if fails then refused create_failed else reading, f)
lock_step pid fails alive writing f =
    if fails then (refused write_failed, f) else (holding, write_pid pid f)
lock_step pid fails alive reading f =
    (if fails then refused unparseable else after_read (and_then (read_text f) recorded_pid), f)
lock_step pid fails alive (probing recorded) f =
    (if alive then refused (active recorded) else removing recorded, f)
lock_step pid fails alive (removing recorded) absent = (refused remove_failed, absent)
lock_step pid fails alive (removing recorded) f =
    if fails then (refused remove_failed, f) else (creating, absent)
lock_step pid fails alive holding f = (holding, f)
lock_step pid fails alive (refused r) f = (refused r, f)

-- The pid that a phase asks `/proc` for.
pub asked : Phase → ℕ
asked (probing recorded) = recorded
asked _ = 0

-- The surroundings of one system call of a start: what the other processes have made of the file since
-- the call before, whether the call fails, and which processes exist.
pub record Call : Type 0 where
  pub others : LockFile → LockFile
  pub fails : Bool
  pub alive : ℕ → Bool

has_returned : Phase → Bool
has_returned holding = true
has_returned (refused r) = true
has_returned _ = false

run_calls : (pid : ℕ) → List Call → Phase × LockFile → Phase × LockFile
unfolding lock_step asked has_returned
run_calls pid [] s = s
run_calls pid (c ∷ calls) (p, f) = elim (has_returned p) [
  | true ↦ (p, f)
  | false ↦ run_calls pid calls (lock_step pid c.fails (c.alive (asked p)) p (c.others f))
]

-- `try_acquire_lock`, over its system calls in order. The loop has no bound of its own: where the list
-- ends first, the phase is the one that the process has reached.
unfoldable pub try_acquire_lock : (pid : ℕ) → List Call → LockFile → Phase × LockFile
unfolding run_calls
try_acquire_lock pid calls f = run_calls pid calls (creating, f)

-- The calls of a start whose lock no other process touches, each with whether it fails.
abbrev pub undisturbed : (alive : ℕ → Bool) → List Bool → List Call
undisturbed alive [] = []
undisturbed alive (b ∷ fails) =
    record { others = λ f. f; fails = b; alive = alive } ∷ undisturbed alive fails

-- `Drop for LockGuard`: the error of `remove_file` is ignored.
unfoldable pub drop_guard : (fails : Bool) → LockFile → LockFile
drop_guard fails f = if fails then f else absent

-- What `check_legacy_lock` does once the text is read.
legacy_owner :
    (remove_fails : Bool)
    → (alive : ℕ → Bool) → LockFile
    → Option ℕ
    → Result (Unit {0}) Refusal × LockFile
legacy_owner remove_fails alive f none = (err unparseable, f)
legacy_owner remove_fails alive f (some recorded) =
    if alive recorded
    then (err (active recorded), f)
    else if remove_fails
    then (err remove_failed, f)
    else (ok tt, absent)

-- A file that cannot be read has a message of its own here.
unfoldable pub check_legacy_lock :
    (remove_fails : Bool) → (alive : ℕ → Bool) → LockFile → Result (Unit {0}) Refusal × LockFile
unfolding legacy_owner recorded_pid
check_legacy_lock remove_fails alive absent = (ok tt, absent)
check_legacy_lock remove_fails alive unreadable = (err read_failed, unreadable)
check_legacy_lock remove_fails alive (file creator text) =
    legacy_owner remove_fails alive (file creator text) (recorded_pid text)
