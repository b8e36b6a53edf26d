-- ===== src/Startup/Ready.antt =====
-- src/daemon.rs: what holds when `prepare` has succeeded.
use thalamic_relay.Prelude.{
  ℕ, ◌*◌, ◌≤◌, ◌≡◌, inl, inr, refl, ◌∙◌, ap, ap₂, sym, List, length, Bool, none, Result, ok, err,
  Result-cases, arith,
}
use thalamic_relay.Float.{Float}
use thalamic_relay.Policy.{SafetyPolicyConfig, SafetyPolicy, resolve}
use thalamic_relay.Lock.{
  LockFile, absent, file, Refusal, Phase, pid_line, check_legacy_lock, try_acquire_lock, Call,
  undisturbed,
}
use thalamic_relay.Lock.Alone.{
  IsFree, legacy-IsFree, Starts, takes, refuses, gives_up, try_acquire_lock-Starts,
}
use thalamic_relay.Startup.{
  Cli, Locks, StartError, safety_policy_config, check_options, take_process_lock, prepare_with,
  prepare, policy_of, lock_result,
}

module _ (alive : ℕ → Bool) where
  lock_taken :
      (pid : ℕ) (fails : List Bool) (f f' : LockFile)
      → length fails ≡ 6
      → lock_result (try_acquire_lock pid (undisturbed alive fails) f) ≡ (ok tt, f')
      → (f' ≡ file pid (pid_line pid)) × IsFree alive f
  unfolding lock_result
  lock_taken pid fails f f' six h =
      of_start f f' _ (try_acquire_lock-Starts pid alive fails f six) h
    where
      of_start :
          (f f' : LockFile) (r : Phase × LockFile)
          → Starts pid alive fails f r
          → lock_result r ≡ (ok tt, f')
          → (f' ≡ file pid (pid_line pid)) × IsFree alive f
      of_start f f' _ (takes free) h = (sym (ap (λ r. r.1) h), free)
      of_start f f' _ (refuses why a b) h = absurd (let e = ap (λ r. r.0) h in cc)
      of_start f f' _ (gives_up why a b c) h = absurd (let e = ap (λ r. r.0) h in cc)

  -- Both locks are free before, and the process holds its own after.
  record HasLocks (pid : ℕ) (before after : Locks) : Type 0 where
    legacy_was : IsFree alive before.legacy
    process_was : IsFree alive before.process
    legacy_is : after.legacy ≡ absent
    process_is : after.process ≡ file pid (pid_line pid)

  locks_taken :
      (pid : ℕ) (remove_fails : Bool) (fails : List Bool) (before after : Locks)
      (l : Result (Unit {0}) Refusal × LockFile)
      → length fails ≡ 6
      → check_legacy_lock remove_fails alive before.legacy ≡ l
      → take_process_lock pid (undisturbed alive fails) l before.process ≡ (ok tt, after)
      → HasLocks pid before after
  unfolding take_process_lock
  locks_taken pid remove_fails fails before after (err why, f) six e h =
      absurd (let h' = ap (λ r. r.0) h in cc)
  locks_taken pid remove_fails fails before after (ok tt, f) six e h =
      let (gone, free) = legacy-IsFree alive remove_fails before.legacy f e in
      let q = ap₂ (λ a b. (a, b)) (ap (λ r. r.0) h) (ap (λ r. r.1.process) h) in
      let (mine, was) = lock_taken pid fails before.process after.process six q in
      record {
        legacy_was = free;
        process_was = was;
        legacy_is = sym (ap (λ r. r.1.legacy) h) ∙ gone;
        process_is = mine;
      }

  -- Everything that a successful `prepare` has made sure of.
  pub record IsReady {F : Type 0} ⦃float : Float F⦄ (pid : ℕ) (cli : Cli F) (before after : Locks)
      : Type 0 where
    pub policy : (p : SafetyPolicy F) × (resolve (safety_policy_config cli) none ≡ ok p)
    pub interval : cli.step_interval_ms ≤ cli.safety_max_acquisition_interval_ms
    pub ten_ticks : cli.step_interval_ms * 10 ≤ cli.safety_max_sample_age_ms
    pub legacy_was : IsFree alive before.legacy
    pub process_was : IsFree alive before.process
    pub legacy_is : after.legacy ≡ absent
    pub process_is : after.process ≡ file pid (pid_line pid)

module _ {F : Type 0} ⦃float : Float F⦄ where
  age_bound :
      (c : SafetyPolicyConfig F) {p : SafetyPolicy F}
      → resolve c none ≡ ok p
      → c.max_sample_age_ms ≤ 2000
  unfolding resolve
  age_bound c {p} h = ground arith

  intervals_checked :
      (cli : Cli F) {p : SafetyPolicy F}
      → resolve (safety_policy_config cli) none ≡ ok p
      → check_options cli ≡ ok tt
      → cli.safety_max_sample_age_ms ≤ 2000
      → (cli.step_interval_ms ≤ cli.safety_max_acquisition_interval_ms)
        × (cli.step_interval_ms * 10 ≤ cli.safety_max_sample_age_ms)
  unfolding check_options policy_of
  intervals_checked cli q h age = let h' = rw q at h in (ground (arith, h'), ground (arith, h'))

  options_checked :
      (cli : Cli F)
      → check_options cli ≡ ok tt
      → ((p : SafetyPolicy F) × (resolve (safety_policy_config cli) none ≡ ok p))
        × (cli.step_interval_ms ≤ cli.safety_max_acquisition_interval_ms)
        × (cli.step_interval_ms * 10 ≤ cli.safety_max_sample_age_ms)
  unfolding check_options policy_of
  options_checked cli h = elim (Result-cases (resolve (safety_policy_config cli) none)) [
    | inr (e, q) ↦ absurd (ground (arith, q))
    | inl (p, q) ↦
        let (a, b) = intervals_checked cli q h (age_bound (safety_policy_config cli) q) in
        ((p, q), a, b)
  ]

  IsReady-of :
      (pid : ℕ) (alive : ℕ → Bool) (remove_fails : Bool) (fails : List Bool) (cli : Cli F)
      (locks after : Locks) (checked : Result (Unit {0}) StartError)
      → length fails ≡ 6
      → check_options cli ≡ checked
      → prepare_with pid alive remove_fails (undisturbed alive fails) checked locks ≡ (ok tt, after)
      → IsReady alive pid cli locks after
  unfolding prepare_with
  IsReady-of pid alive remove_fails fails cli locks after (err e) six q h =
      absurd (let h' = ap (λ r. r.0) h in cc)
  IsReady-of pid alive remove_fails fails cli locks after (ok tt) six q h =
      let (p, interval, ten) = options_checked cli q in
      let l = locks_taken alive pid remove_fails fails locks after _ six refl h in
      record {
        policy = p;
        interval = interval;
        ten_ticks = ten;
        legacy_was = l.legacy_was;
        process_was = l.process_was;
        legacy_is = l.legacy_is;
        process_is = l.process_is;
      }

  -- A `prepare` that succeeds, while no other process touches the two locks and whichever of its calls
  -- on them fail, has options that resolve to a policy, a step within the acquisition limit and ten
  -- steps within the sample age. Each lock was missing or named a process that does not
  -- exist; the legacy lock is gone, and the process lock names this process.
  pub prepare-IsReady :
      (pid : ℕ) (alive : ℕ → Bool) (remove_fails : Bool) (fails : List Bool) (cli : Cli F)
      (locks after : Locks)
      → length fails ≡ 6
      → prepare pid alive remove_fails (undisturbed alive fails) cli locks ≡ (ok tt, after)
      → IsReady alive pid cli locks after
  unfolding prepare
  prepare-IsReady pid alive remove_fails fails cli locks after six h =
      IsReady-of pid alive remove_fails fails cli locks after (check_options cli) six refl h

  -- The options alone, of any `prepare` that succeeds.
  pub prepare-check_options :
      (pid : ℕ) (alive : ℕ → Bool) (remove_fails : Bool) (calls : List Call) (cli : Cli F)
      (locks after : Locks)
      → prepare pid alive remove_fails calls cli locks ≡ (ok tt, after)
      → (p : SafetyPolicy F) × (resolve (safety_policy_config cli) none ≡ ok p)
  unfolding prepare prepare_with
  prepare-check_options pid alive remove_fails calls cli locks after h =
      elim (Result-cases (check_options cli)) [
        | inl (tt, q) ↦ (options_checked cli q).0
        | inr (e, q) ↦ absurd (let h' = rw q at h in let h'' = ap (λ r. r.0) h' in cc)
      ]
