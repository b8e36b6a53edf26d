-- ===== src/Lock/Alone.antt =====
-- src/daemon.rs: what a start makes of a lock file that no other process touches meanwhile.
use thalamic_relay.Prelude.{
  ℕ, sym, subst, if◌then◌else◌, ◌+◌, ◌<◌, ◌≤◌, ◌≡◌, ◌≢◌, ◌⊎◌, ◌||◌, inl, inr, refl, Bool,
  Bool-cases, true, false, Option, Option-cases, none, some, arith, ok, List, [], ◌∷◌, length,
  Chars, All, All-weaken, IsInk, u64_max, u32_max, trim-newline, u64_chars-IsDigitChar, u64_chars,
  parse_unsigned-u64_chars_word,
}
use thalamic_relay.Lock.{
  LockFile, absent, file, unreadable, Refusal, create_failed, write_failed, unparseable, active,
  remove_failed, Phase, probing, removing, holding, refused, recorded_pid, pid_line, lock_step,
  run_calls, asked, read_text, after_read, write_pid, undisturbed, try_acquire_lock,
  check_legacy_lock, legacy_owner,
}

-- What a process writes into its lock, another reads back.
pub recorded_pid-pid_line : (pid : ℕ) → pid ≤ u32_max → recorded_pid (pid_line pid) ≡ some pid
unfolding recorded_pid
recorded_pid-pid_line pid h =
    let ink : All IsInk (u64_chars pid) =
      All-weaken _ (λ c d. (omega arith, omega arith)) (u64_chars-IsDigitChar pid) in
    let small : pid < u64_max + 1 = omega arith in
    rw (trim-newline (u64_chars pid) ink) (parse_unsigned-u64_chars_word u32_max pid h small)

-- The file can be read, and names a process that does not exist.
pub data IsStale (alive : ℕ → Bool) : LockFile → Type 0 where
  stale :
      {creator recorded : ℕ} {text : Chars}
      → recorded_pid text ≡ some recorded
      → alive recorded ≡ false
      → IsStale alive (file creator text)

-- Missing, or left by a process that does not exist.
abbrev pub IsFree : (alive : ℕ → Bool) → LockFile → Type 0
IsFree alive f = (f ≡ absent) ⊎ IsStale alive f

abbrev pub some_true : List Bool → Bool
some_true [] = false
some_true (b ∷ bs) = b || some_true bs

-- What a start may do whose calls fail as `fails` says: it takes over a free lock, and writes its pid;
-- it refuses to start at every other lock, and leaves that as it is; where a call has failed it may
-- give up at a free lock, which it leaves as it was, removed, or created without its pid.
pub data Starts (pid : ℕ) (alive : ℕ → Bool) (fails : List Bool) (f : LockFile)
    : Phase × LockFile → Type 0 where
  takes : IsFree alive f → Starts pid alive fails f (holding, file pid (pid_line pid))
  refuses :
      (why : Refusal) → f ≢ absent → ¬ IsStale alive f → Starts pid alive fails f (refused why, f)
  gives_up :
      {f' : LockFile} (why : Refusal)
      → IsFree alive f
      → some_true fails ≡ true
      → (f' ≡ f) ⊎ (f' ≡ absent) ⊎ (f' ≡ file pid [])
      → Starts pid alive fails f (refused why, f')

not_stale_named :
    (alive : ℕ → Bool) (creator recorded : ℕ) (text : Chars)
    → recorded_pid text ≡ some recorded
    → alive recorded ≡ true
    → ¬ IsStale alive (file creator text)
not_stale_named alive creator recorded text e a (stale e' a') = grind arith

not_stale_unnamed :
    (alive : ℕ → Bool) (creator : ℕ) (text : Chars)
    → recorded_pid text ≡ none
    → ¬ IsStale alive (file creator text)
not_stale_unnamed alive creator text e (stale e' a') = cc

not_stale_unreadable : (alive : ℕ → Bool) → ¬ IsStale alive unreadable
not_stale_unreadable alive h = elim h [ ]

stale_or_not :
    (alive : ℕ → Bool) (creator : ℕ) (text : Chars)
    → IsStale alive (file creator text) ⊎ (¬ IsStale alive (file creator text))
stale_or_not alive creator text = elim (Option-cases (recorded_pid text)) [
  | inl e ↦ inr (not_stale_unnamed alive creator text e)
  | inr (recorded, e) ↦ elim (Bool-cases (alive recorded)) [
    | inl a ↦ inr (not_stale_named alive creator recorded text e a)
    | inr a ↦ inl (stale e a)
  ]
]

module _ (pid : ℕ) (alive : ℕ → Bool) where
  writes_own : write_pid pid (file pid []) ≡ file pid (pid_line pid)
  unfolding write_pid
  writes_own = ground arith

  -- A call has failed, and the file is as it was.
  kept :
      (fails : List Bool) (why : Refusal) (creator : ℕ) (text : Chars)
      → some_true fails ≡ true
      → Starts pid alive fails (file creator text) (refused why, file creator text)
  kept fails why creator text failed = elim (stale_or_not alive creator text) [
    | inl free ↦ gives_up why (inr free) failed (inl refl)
    | inr owned ↦ refuses why (cc) owned
  ]

  on_absent :
      (b₀ b₁ b₂ b₃ b₄ b₅ : Bool)
      → let fails = b₀ ∷ b₁ ∷ b₂ ∷ b₃ ∷ b₄ ∷ b₅ ∷ [] in
        Starts pid alive fails absent (try_acquire_lock pid (undisturbed alive fails) absent)
  unfolding try_acquire_lock run_calls lock_step
  on_absent true b₁ b₂ b₃ b₄ b₅ = gives_up create_failed (inl refl) refl (inl refl)
  on_absent false true b₂ b₃ b₄ b₅ = gives_up write_failed (inl refl) refl (inr (inr refl))
  on_absent false false b₂ b₃ b₄ b₅ = rw (writes_own) (takes (inl refl))

  on_unreadable :
      (b₀ b₁ b₂ b₃ b₄ b₅ : Bool)
      → let fails = b₀ ∷ b₁ ∷ b₂ ∷ b₃ ∷ b₄ ∷ b₅ ∷ [] in
        Starts pid alive fails unreadable
          (try_acquire_lock pid (undisturbed alive fails) unreadable)
  unfolding try_acquire_lock run_calls lock_step read_text after_read
  on_unreadable true b₁ b₂ b₃ b₄ b₅ = refuses create_failed (cc) (not_stale_unreadable alive)
  on_unreadable false true b₂ b₃ b₄ b₅ = refuses unparseable (cc) (not_stale_unreadable alive)
  on_unreadable false false b₂ b₃ b₄ b₅ = refuses unparseable (cc) (not_stale_unreadable alive)

  -- From the removal of a stale lock on.
  on_stale :
      (fails : List Bool) (creator recorded : ℕ) (text : Chars) (b₃ b₄ b₅ : Bool)
      → (some_true (b₃ ∷ b₄ ∷ b₅ ∷ []) ≡ true → some_true fails ≡ true)
      → IsStale alive (file creator text)
      → Starts pid alive fails (file creator text) (
          run_calls pid
            (undisturbed alive (b₃ ∷ b₄ ∷ b₅ ∷ []))
            (removing recorded, file creator text))
  unfolding run_calls lock_step
  on_stale fails creator recorded text true b₄ b₅ failed s =
      gives_up remove_failed (inr s) (failed refl) (inl refl)
  on_stale fails creator recorded text false true b₅ failed s =
      gives_up create_failed (inr s) (failed refl) (inr (inl refl))
  on_stale fails creator recorded text false false true failed s =
      gives_up write_failed (inr s) (failed refl) (inr (inr refl))
  on_stale fails creator recorded text false false false failed s = rw (writes_own) (takes (inr s))

  -- From the test of `/proc` on.
  on_named :
      (fails : List Bool) (creator recorded : ℕ) (text : Chars) (b₂ b₃ b₄ b₅ exists : Bool)
      → (some_true (b₃ ∷ b₄ ∷ b₅ ∷ []) ≡ true → some_true fails ≡ true)
      → recorded_pid text ≡ some recorded
      → alive recorded ≡ exists
      → Starts pid alive fails (file creator text) (
          run_calls pid
            (undisturbed alive (b₂ ∷ b₃ ∷ b₄ ∷ b₅ ∷ []))
            (probing recorded, file creator text))
  unfolding run_calls lock_step asked
  on_named fails creator recorded text b₂ b₃ b₄ b₅ exists failed e a =
      subst
        (λ x. Starts pid alive fails (file creator text) (
          run_calls pid (undisturbed alive (b₃ ∷ b₄ ∷ b₅ ∷ []))
            (if x then refused (active recorded) else removing recorded, file creator text)))
        (sym a) (probed exists a)
    where
      probed :
          (x : Bool)
          → alive recorded ≡ x
          → Starts pid alive fails (file creator text) (
              run_calls pid
                (undisturbed alive (b₃ ∷ b₄ ∷ b₅ ∷ []))
                (if x then refused (active recorded) else removing recorded, file creator text))
      probed true a =
          refuses (active recorded) (cc) (not_stale_named alive creator recorded text e a)
      probed false a = on_stale fails creator recorded text b₃ b₄ b₅ failed (stale e a)

  -- From the read on.
  on_text :
      (fails : List Bool) (creator : ℕ) (text : Chars) (b₂ b₃ b₄ b₅ : Bool) (o : Option ℕ)
      → (some_true (b₃ ∷ b₄ ∷ b₅ ∷ []) ≡ true → some_true fails ≡ true)
      → recorded_pid text ≡ o
      → Starts pid alive fails (file creator text) (
          run_calls pid
            (undisturbed alive (b₂ ∷ b₃ ∷ b₄ ∷ b₅ ∷ []))
            (after_read o, file creator text))
  unfolding run_calls after_read
  on_text fails creator text b₂ b₃ b₄ b₅ none failed e =
      refuses unparseable (cc) (not_stale_unnamed alive creator text e)
  on_text fails creator text b₂ b₃ b₄ b₅ (some recorded) failed e =
      on_named fails creator recorded text b₂ b₃ b₄ b₅ (alive recorded) failed e refl

  on_file :
      (creator : ℕ) (text : Chars) (b₀ b₁ b₂ b₃ b₄ b₅ : Bool)
      → let fails = b₀ ∷ b₁ ∷ b₂ ∷ b₃ ∷ b₄ ∷ b₅ ∷ [] in
        Starts pid alive fails
          (file creator text)
          (try_acquire_lock pid (undisturbed alive fails) (file creator text))
  unfolding try_acquire_lock run_calls lock_step read_text
  on_file creator text true b₁ b₂ b₃ b₄ b₅ = kept _ create_failed creator text refl
  on_file creator text false true b₂ b₃ b₄ b₅ = kept _ unparseable creator text refl
  on_file creator text false false b₂ b₃ b₄ b₅ =
      on_text _ creator text b₂ b₃ b₄ b₅ (recorded_pid text) (λ h. ground arith) refl

  on_each :
      (f : LockFile) (b₀ b₁ b₂ b₃ b₄ b₅ : Bool)
      → let fails = b₀ ∷ b₁ ∷ b₂ ∷ b₃ ∷ b₄ ∷ b₅ ∷ [] in
        Starts pid alive fails f (try_acquire_lock pid (undisturbed alive fails) f)
  on_each absent = on_absent
  on_each unreadable = on_unreadable
  on_each (file creator text) = on_file creator text

  pub try_acquire_lock-Starts :
      (fails : List Bool) (f : LockFile)
      → length fails ≡ 6
      → Starts pid alive fails f (try_acquire_lock pid (undisturbed alive fails) f)
  try_acquire_lock-Starts (b₀ ∷ b₁ ∷ b₂ ∷ b₃ ∷ b₄ ∷ b₅ ∷ []) f h = on_each f b₀ b₁ b₂ b₃ b₄ b₅
  try_acquire_lock-Starts [] f h = absurd (omega arith)
  try_acquire_lock-Starts (_ ∷ []) f h = absurd (omega arith)
  try_acquire_lock-Starts (_ ∷ _ ∷ []) f h = absurd (omega arith)
  try_acquire_lock-Starts (_ ∷ _ ∷ _ ∷ []) f h = absurd (omega arith)
  try_acquire_lock-Starts (_ ∷ _ ∷ _ ∷ _ ∷ []) f h = absurd (omega arith)
  try_acquire_lock-Starts (_ ∷ _ ∷ _ ∷ _ ∷ _ ∷ []) f h = absurd (omega arith)
  try_acquire_lock-Starts (_ ∷ _ ∷ _ ∷ _ ∷ _ ∷ _ ∷ _ ∷ _) f h = absurd (omega arith)

taken :
    (pid : ℕ) (alive : ℕ → Bool) (fails : List Bool) (f : LockFile) (r : Phase × LockFile)
    → Starts pid alive fails f r
    → some_true fails ≡ false
    → IsFree alive f
    → r ≡ (holding, file pid (pid_line pid))
taken pid alive fails f _ (takes _) none_fails free = refl
taken pid alive fails f _ (refuses why a b) none_fails (inl e) = absurd (a e)
taken pid alive fails f _ (refuses why a b) none_fails (inr s) = absurd (b s)
taken pid alive fails f _ (gives_up why _ failed _) none_fails free = cc

owned :
    (pid : ℕ) (alive : ℕ → Bool) (fails : List Bool) (f : LockFile) (r : Phase × LockFile)
    → Starts pid alive fails f r
    → ¬ IsFree alive f
    → (why : Refusal) × (r ≡ (refused why, f))
owned pid alive fails f _ (takes free) busy = absurd (busy free)
owned pid alive fails f _ (refuses why a b) busy = (why, refl)
owned pid alive fails f _ (gives_up why free _ _) busy = absurd (busy free)

not-IsFree_named :
    (alive : ℕ → Bool) (pid : ℕ)
    → pid ≤ u32_max
    → alive pid ≡ true
    → ¬ IsFree alive (file pid (pid_line pid))
not-IsFree_named alive pid h a (inl e) = cc
not-IsFree_named alive pid h a (inr s) =
    not_stale_named alive pid pid (pid_line pid) (recorded_pid-pid_line pid h) a s

-- Two starts, one after the other: the first, none of whose calls fail, takes a missing or stale lock,
-- and as long as its process exists the second is refused, and leaves the lock alone.
pub try_acquire_lock_twice :
    (first second : ℕ) (alive : ℕ → Bool) (fails fails' : List Bool) (f : LockFile)
    → first ≤ u32_max
    → alive first ≡ true
    → length fails ≡ 6
    → length fails' ≡ 6
    → some_true fails ≡ false
    → IsFree alive f
    → (why : Refusal) × (try_acquire_lock second
          (undisturbed alive fails')
          (try_acquire_lock first (undisturbed alive fails) f).1
        ≡ (refused why, file first (pid_line first)))
try_acquire_lock_twice first second alive fails fails' f h a six six' none_fails free =
    rw
      (taken first alive fails f _ (try_acquire_lock-Starts first alive fails f six) none_fails
        free)
      (owned second alive fails' (file first (pid_line first)) _
        (try_acquire_lock-Starts second alive fails' (file first (pid_line first)) six')
        (not-IsFree_named alive first h a))

module _ (alive : ℕ → Bool) where
  owner_gone :
      (remove_fails : Bool) (f f' : LockFile) (o : Option ℕ)
      → legacy_owner remove_fails alive f o ≡ (ok tt, f')
      → (recorded : ℕ) × (o ≡ some recorded) × (alive recorded ≡ false) × (f' ≡ absent)
  unfolding legacy_owner
  owner_gone remove_fails f f' none h = cc
  owner_gone remove_fails f f' (some recorded) h = (recorded, refl, ground arith, ground arith)

  pub legacy-IsFree :
      (remove_fails : Bool) (f f' : LockFile)
      → check_legacy_lock remove_fails alive f ≡ (ok tt, f')
      → (f' ≡ absent) × IsFree alive f
  unfolding check_legacy_lock
  legacy-IsFree remove_fails absent f' h = (cc, inl refl)
  legacy-IsFree remove_fails unreadable f' h = absurd (cc)
  legacy-IsFree remove_fails (file c t) f' h =
      let (recorded, e, a, gone) = owner_gone remove_fails (file c t) f' (recorded_pid t) h in
      (gone, inr (stale e a))
