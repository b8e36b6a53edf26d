-- ===== src/Lock/Shared/Exclusive.antt =====
-- src/daemon.rs: that two processes do not hold the lock at once, as long as no lock is stale.
use thalamic_relay.Prelude.{
  ℕ, ◌≤◌, ◌≡◌, ◌≢◌, ◌⊎◌, inl, inr, refl, subst, if◌then◌else◌, Bool, true, false, Bool-cases,
  Option, none, some, arith, Chars, u32_max, parse_unsigned-nil, sym, and_then, [],
}
use thalamic_relay.Lock.{
  LockFile, absent, file, unreadable, active, Phase, creating, writing, reading, probing, removing,
  holding, refused, recorded_pid, pid_line, lock_step, asked, read_text, after_read, write_pid,
  drop_guard,
}
use thalamic_relay.Lock.Alone.{IsStale, stale, recorded_pid-pid_line}
use thalamic_relay.Lock.Shared.{
  System, set, moved, Step, begin, call, release, Reachable, here, next, idle,
}

module _ (alive : ℕ → Bool) where
  -- What a process knows of the lock at its place: it has created the file that it writes to or holds,
  -- and it asks only for a pid that exists.
  abbrev Knows : ℕ → Phase → LockFile → Type 0
  Knows pid writing f = (text : Chars) × (f ≡ file pid text)
  Knows pid holding f = (text : Chars) × (f ≡ file pid text)
  Knows pid (probing recorded) f = alive recorded ≡ true
  Knows pid (removing recorded) f = ⊥
  Knows pid _ f = Unit

  record Inv (s : System) : Type 0 where
    exists : (pid : ℕ) (p : Phase) → s.phases pid ≡ some p → (pid ≤ u32_max) × (alive pid ≡ true)
    knows : (pid : ℕ) (p : Phase) → s.phases pid ≡ some p → Knows pid p s.lock
    fresh : ¬ IsStale alive s.lock

  -- What a call of `pid` does to the file: nothing, or it makes the missing file or writes its own.
  abbrev Kept : ℕ → LockFile → LockFile → Type 0
  Kept pid f f' = (f' ≡ f) ⊎ ((f ≡ absent) ⊎ ((text : Chars) × (f ≡ file pid text)))

  StepOk : ℕ → LockFile → Phase × LockFile → Type 0
  StepOk pid f (p, f') = Knows pid p f' × (¬ IsStale alive f') × Kept pid f f'

  not_stale_absent : ¬ IsStale alive absent
  not_stale_absent h = elim h [ ]

  not_stale_of_owner :
      (pid : ℕ) (text : Chars)
      → (recorded_pid text ≡ none) ⊎ (recorded_pid text ≡ some pid)
      → alive pid ≡ true
      → ¬ IsStale alive (file pid text)
  not_stale_of_owner pid text (inl e) a (stale e' a') = cc
  not_stale_of_owner pid text (inr e) a (stale e' a') = grind arith

  no_pid_in_empty : recorded_pid [] ≡ none
  unfolding recorded_pid
  no_pid_in_empty = parse_unsigned-nil u32_max

  wrote : (pid : ℕ) (text : Chars) → write_pid pid (file pid text) ≡ file pid (pid_line pid)
  unfolding write_pid
  wrote pid text = ground arith

  write_ok :
      (pid : ℕ) (f : LockFile)
      → pid ≤ u32_max
      → alive pid ≡ true
      → (text : Chars) × (f ≡ file pid text)
      → StepOk pid f (holding, write_pid pid f)
  unfolding StepOk
  write_ok pid f small a (text, e) =
      let w : write_pid pid f ≡ file pid (pid_line pid) = rw e (wrote pid text) in
      let fresh = not_stale_of_owner pid (pid_line pid) (inr (recorded_pid-pid_line pid small)) a in
      ((pid_line pid, w), subst (λ g. ¬ IsStale alive g) (sym w) fresh, inr (inr (text, e)))

  read_ok :
      (pid : ℕ) (f : LockFile) (o : Option ℕ)
      → and_then (read_text f) recorded_pid ≡ o
      → ¬ IsStale alive f
      → Knows pid (after_read o) f
  unfolding after_read read_text
  read_ok pid f none e fresh = tt
  read_ok pid absent (some recorded) e fresh = cc
  read_ok pid unreadable (some recorded) e fresh = cc
  read_ok pid (file c t) (some recorded) e fresh = elim (Bool-cases (alive recorded)) [
    | inl a ↦ a
    | inr a ↦ absurd (fresh (stale e a))
  ]

  lock_step-StepOk :
      (pid : ℕ) (fails : Bool) (p : Phase) (f : LockFile)
      → pid ≤ u32_max
      → alive pid ≡ true
      → Knows pid p f
      → ¬ IsStale alive f
      → StepOk pid f (lock_step pid fails (alive (asked p)) p f)
  unfolding lock_step StepOk asked
  lock_step-StepOk pid true creating absent small a k fresh = (tt, fresh, inl refl)
  lock_step-StepOk pid false creating absent small a k fresh =
      (([], refl), not_stale_of_owner pid [] (inl no_pid_in_empty) a, inr (inl refl))
  lock_step-StepOk pid true creating (file c t) small a k fresh = (tt, fresh, inl refl)
  lock_step-StepOk pid false creating (file c t) small a k fresh = (tt, fresh, inl refl)
  lock_step-StepOk pid true creating unreadable small a k fresh = (tt, fresh, inl refl)
  lock_step-StepOk pid false creating unreadable small a k fresh = (tt, fresh, inl refl)
  lock_step-StepOk pid true writing f small a k fresh = (tt, fresh, inl refl)
  lock_step-StepOk pid false writing f small a k fresh = write_ok pid f small a k
  lock_step-StepOk pid true reading f small a k fresh = (tt, fresh, inl refl)
  lock_step-StepOk pid false reading f small a k fresh =
      (read_ok pid f _ refl fresh, fresh, inl refl)
  lock_step-StepOk pid fails (probing recorded) f small a k fresh =
      subst (λ b. StepOk pid f (if b then refused (active recorded) else removing recorded, f))
        (sym k) (tt, fresh, inl refl)
  lock_step-StepOk pid fails (removing recorded) f small a k fresh = absurd k
  lock_step-StepOk pid fails holding f small a k fresh = (k, fresh, inl refl)
  lock_step-StepOk pid fails (refused r) f small a k fresh = (tt, fresh, inl refl)

  Kept-Knows :
      (pid q : ℕ) (p : Phase) (f f' : LockFile)
      → q ≢ pid
      → Kept pid f f'
      → Knows q p f
      → Knows q p f'
  Kept-Knows pid q p f f' ne (inl e) k = subst (Knows q p) (sym e) k
  Kept-Knows pid q writing f f' ne (inr (inl e)) (t, k) = cc
  Kept-Knows pid q holding f f' ne (inr (inl e)) (t, k) = cc
  Kept-Knows pid q writing f f' ne (inr (inr (t', e))) (t, k) = absurd (ne cc)
  Kept-Knows pid q holding f f' ne (inr (inr (t', e))) (t, k) = absurd (ne cc)
  Kept-Knows pid q creating f f' ne (inr _) k = tt
  Kept-Knows pid q reading f f' ne (inr _) k = tt
  Kept-Knows pid q (probing r) f f' ne (inr _) k = k
  Kept-Knows pid q (removing r) f f' ne (inr _) k = k
  Kept-Knows pid q (refused r) f f' ne (inr _) k = tt

  -- The phase of `q` after one of `pid` was set.
  set_cases :
      (pid q : ℕ) (o : Option Phase) (phases : ℕ → Option Phase) {p : Phase}
      → set pid o phases q ≡ some p
      → ((q ≡ pid) × (o ≡ some p)) ⊎ ((q ≢ pid) × (phases q ≡ some p))
  set_cases pid q o phases {p} e = ground arith

  set-Inv :
      {s : System} (pid : ℕ) (o : Option Phase) (f' : LockFile)
      → pid ≤ u32_max
      → alive pid ≡ true
      → ((p : Phase) → o ≡ some p → Knows pid p f')
      → ¬ IsStale alive f'
      → Kept pid s.lock f'
      → Inv s
      → Inv (record { phases = set pid o s.phases; lock = f' })
  set-Inv {s} pid o f' small a known fresh kept i = record {
    exists = λ q p e. elim (set_cases pid q o s.phases e) [
      | inl (same, _) ↦ subst (λ n. (n ≤ u32_max) × (alive n ≡ true)) (sym same) (small, a)
      | inr (_, e') ↦ i.exists q p e'
    ];
    knows = λ q p e. elim (set_cases pid q o s.phases e) [
      | inl (same, e') ↦ subst (λ n. Knows n p f') (sym same) (known p e')
      | inr (other, e') ↦ Kept-Knows pid q p s.lock f' other kept (i.knows q p e')
    ];
    fresh = fresh;
  }

  of_some :
      (pid : ℕ) (f : LockFile) {p' : Phase}
      → Knows pid p' f
      → (p : Phase) → some p' ≡ some p
      → Knows pid p f
  of_some pid f {p'} k p e = let e' : p' ≡ p = cc in subst (λ x. Knows pid x f) e' k

  call-Inv :
      {s : System} (pid : ℕ) (r : Phase × LockFile)
      → pid ≤ u32_max
      → alive pid ≡ true
      → StepOk pid s.lock r
      → Inv s
      → Inv (moved pid r s)
  unfolding StepOk
  call-Inv pid (p', f') small a (k, fresh, kept) i =
      set-Inv pid (some p') f' small a (of_some pid f' k) fresh kept i

  release-Inv :
      {s : System} (pid : ℕ) (fails : Bool)
      → s.phases pid ≡ some holding
      → Inv s
      → Inv (record { phases = set pid none s.phases; lock = drop_guard fails s.lock })
  unfolding drop_guard
  release-Inv pid true h i =
      let (small, a) = i.exists pid holding h in
      set-Inv pid none _ small a (λ p e. cc) i.fresh (inl refl) i
  release-Inv pid false h i =
      let (small, a) = i.exists pid holding h in
      set-Inv pid none _ small a (λ p e. cc) not_stale_absent (inr (inr (i.knows pid holding h))) i

  step-Inv : {s t : System} → Inv s → Step alive s t → Inv t
  step-Inv {s} i (begin pid small a e) =
      set-Inv pid (some creating) s.lock small a (of_some pid s.lock tt) i.fresh (inl refl) i
  step-Inv {s} i (call pid fails p e) =
      let (small, a) = i.exists pid p e in
      call-Inv pid _ small a (lock_step-StepOk pid fails p s.lock small a (i.knows pid p e) i.fresh)
        i
  step-Inv i (release pid fails e) = release-Inv pid fails e i

reachable-Inv :
    (alive : ℕ → Bool) (f : LockFile) {s : System}
    → ¬ IsStale alive f
    → Reachable alive (idle f) s
    → Inv alive s
reachable-Inv alive f h here = record { exists = λ pid p e. cc; knows = λ pid p e. cc; fresh = h }
reachable-Inv alive f h (next r t) = step-Inv alive (reachable-Inv alive f h r) t

-- Starts that find no stale lock exclude one another: however the calls of the processes are
-- interleaved, with calls that fail and guards that are dropped in between, no two hold the lock.
pub reachable-IsExclusive :
    (alive : ℕ → Bool) (f : LockFile) {s : System}
    → ¬ IsStale alive f
    → Reachable alive (idle f) s
    → (p q : ℕ) → s.phases p ≡ some holding
    → s.phases q ≡ some holding
    → p ≡ q
reachable-IsExclusive alive f h r p q hp hq =
    let i = reachable-Inv alive f h r in
    let (_, ep) = i.knows p holding hp in let (_, eq) = i.knows q holding hq in cc
