-- ===== src/Lock/Race.antt =====
-- src/daemon.rs: two starts at a stale lock. Between the test of `/proc` and `remove_file` the other
-- process may have taken the lock, and its file is then the one that is removed.
use thalamic_relay.Prelude.{
  ℕ, ◌≤◌, ◌≡◌, ◌≢◌, refl, ap, subst, Bool, true, false, some, arith, Chars, [], u32_max,
}
use thalamic_relay.Lock.{
  LockFile, absent, file, Phase, creating, writing, reading, probing, removing, holding,
  recorded_pid, pid_line, lock_step, asked, read_text, after_read, write_pid,
}
use thalamic_relay.Lock.Alone.{IsStale, stale}
use thalamic_relay.Lock.Shared.{System, moved, begin, call, Reachable, here, next, idle}

module _ (alive : ℕ → Bool) (f₀ : LockFile) (p q : ℕ) (ne : p ≢ q) where
  -- A system that is reached, in which `p` and `q` stand at `x` and `y`, and the lock is `f`.
  record Race (x y : Phase) (f : LockFile) : Type 0 where
    system : System
    reached : Reachable alive (idle f₀) system
    first : system.phases p ≡ some x
    second : system.phases q ≡ some y
    lock_is : system.lock ≡ f

  both_begin :
      p ≤ u32_max → q ≤ u32_max → alive p ≡ true → alive q ≡ true → Race creating creating f₀
  both_begin hp hq ap aq = record {
    system = _;
    reached = next (next here (begin p hp ap refl)) (begin q hq aq (ground arith));
    first = ground arith;
    second = ground arith;
    lock_is = refl;
  }

  move_first :
      {x y : Phase} {f : LockFile} (x' : Phase) (f' : LockFile)
      → lock_step p false (alive (asked x)) x f ≡ (x', f')
      → Race x y f
      → Race x' y f'
  move_first {x} {f = f} x' f' e r =
      let e' : lock_step p false (alive (asked x)) x r.system.lock ≡ (x', f') = rw r.lock_is e in
      let t = next r.reached (call p false x r.first) in
      record {
        system = moved p (x', f') r.system;
        reached = subst (λ o. Reachable alive (idle f₀) (moved p o r.system)) e' t;
        first = ground arith;
        second = ground (arith, r.second);
        lock_is = refl;
      }

  move_second :
      {x y : Phase} {f : LockFile} (y' : Phase) (f' : LockFile)
      → lock_step q false (alive (asked y)) y f ≡ (y', f')
      → Race x y f
      → Race x y' f'
  move_second {y = y} {f = f} y' f' e r =
      let e' : lock_step q false (alive (asked y)) y r.system.lock ≡ (y', f') = rw r.lock_is e in
      let t = next r.reached (call q false y r.second) in
      record {
        system = moved q (y', f') r.system;
        reached = subst (λ o. Reachable alive (idle f₀) (moved q o r.system)) e' t;
        first = ground (arith, r.first);
        second = ground arith;
        lock_is = refl;
      }

-- The calls of a process, as far as the lock is not taken by it.
finds_lock :
    (pid c : ℕ) (text : Chars) (b : Bool)
    → lock_step pid false b creating (file c text) ≡ (reading, file c text)
unfolding lock_step
finds_lock pid c text b = refl

reads_owner :
    (pid c recorded : ℕ) (text : Chars) (b : Bool)
    → recorded_pid text ≡ some recorded
    → lock_step pid false b reading (file c text) ≡ (probing recorded, file c text)
unfolding lock_step read_text after_read
reads_owner pid c recorded text b e = rw e refl

finds_dead :
    (pid c recorded : ℕ) (text : Chars) (alive : ℕ → Bool)
    → alive recorded ≡ false
    → lock_step pid false (alive (asked (probing recorded))) (probing recorded) (file c text)
      ≡ (removing recorded, file c text)
unfolding lock_step asked
finds_dead pid c recorded text alive e = rw e refl

removes :
    (pid c recorded : ℕ) (text : Chars) (b : Bool)
    → lock_step pid false b (removing recorded) (file c text) ≡ (creating, absent)
unfolding lock_step
removes pid c recorded text b = refl

creates : (pid : ℕ) (b : Bool) → lock_step pid false b creating absent ≡ (writing, file pid [])
unfolding lock_step
creates pid b = refl

writes :
    (pid : ℕ) (text : Chars) (b : Bool)
    → lock_step pid false b writing (file pid text) ≡ (holding, file pid (pid_line pid))
unfolding lock_step write_pid
writes pid text b = ground arith

-- The exclusion does not extend to a stale lock: two processes that both find it can take it over one
-- after the other, and both hold it then. Each has read the dead owner before the other removes the
-- file.
pub stale-both_hold :
    (alive : ℕ → Bool) (f : LockFile) (p q : ℕ)
    → p ≢ q
    → p ≤ u32_max
    → q ≤ u32_max
    → alive p ≡ true
    → alive q ≡ true
    → IsStale alive f
    → (s : System) × Reachable alive (idle f) s
      × (s.phases p ≡ some holding)
      × (s.phases q ≡ some holding)
stale-both_hold alive _ p q ne hp hq ap aq (stale {creator = c} {recorded = r} {text = t} e dead) =
    let f = file c t in
    let race = both_begin alive f p q ne hp hq ap aq in
    let p₁ = move_first alive f p q ne reading f (finds_lock p c t _) race in
    let p₂ = move_first alive f p q ne (probing r) f (reads_owner p c r t _ e) p₁ in
    let p₃ = move_first alive f p q ne (removing r) f (finds_dead p c r t alive dead) p₂ in
    let q₁ = move_second alive f p q ne reading f (finds_lock q c t _) p₃ in
    let q₂ = move_second alive f p q ne (probing r) f (reads_owner q c r t _ e) q₁ in
    let q₃ = move_second alive f p q ne (removing r) f (finds_dead q c r t alive dead) q₂ in
    let p₄ = move_first alive f p q ne creating absent (removes p c r t _) q₃ in
    let p₅ = move_first alive f p q ne writing (file p []) (creates p _) p₄ in
    let p₆ = move_first alive f p q ne holding (file p (pid_line p)) (writes p [] _) p₅ in
    let q₄ = move_second alive f p q ne creating absent (removes q p r (pid_line p) _) p₆ in
    let q₅ = move_second alive f p q ne writing (file q []) (creates q _) q₄ in
    let q₆ = move_second alive f p q ne holding (file q (pid_line q)) (writes q [] _) q₅ in
    (q₆.system, q₆.reached, q₆.first, q₆.second)
