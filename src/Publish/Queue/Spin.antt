-- ===== src/Publish/Queue/Spin.antt =====
-- The bounded spin on the queue's mutex.
use thalamic_relay.Prelude.{
  ℕ, zero, suc, ◌+◌, ◌≤◌, ◌<◌, ◌≡◌, refl, ◌⊎◌, inl, inr, Result, ok, err, sym, arith, ℕ_discrete,
}
use thalamic_relay.Publish.Queue.{
  TryLock, acquired, would_block, TryLockQueueError, contended, spin_from, try_lock_with_spin,
}

-- All attempts from one spin up to another find the mutex held.
abbrev IsBlocked : (ℕ → TryLock) → (first last : ℕ) → Type 0
IsBlocked attempts first last = (i : ℕ) → first ≤ i → i < last → attempts i ≡ would_block

-- The first attempt that does not find the mutex held, and what it finds.
abbrev pub Answers : (ℕ → TryLock) → (first last : ℕ) → TryLock → Type 0
Answers attempts first last found =
    (k : ℕ) × (first ≤ k) × (k < last) × IsBlocked attempts first k × (attempts k ≡ found)

-- What a spin returns and the reason, with `last` the spin at which it ends.
abbrev pub Spun : Result (Unit {0}) TryLockQueueError → (ℕ → TryLock) → (first last : ℕ) → Type 0
Spun result attempts first last =
    ((result ≡ ok tt) × Answers attempts first last acquired)
    ⊎ ((result ≡ err TryLockQueueError.poisoned) × Answers attempts first last TryLock.poisoned)
    ⊎ ((result ≡ err contended) × IsBlocked attempts first last)

TryLock-cases : (t : TryLock) → (t ≡ acquired) ⊎ (t ≡ would_block) ⊎ (t ≡ TryLock.poisoned)
TryLock-cases acquired = inl refl
TryLock-cases would_block = inr (inl refl)
TryLock-cases TryLock.poisoned = inr (inr refl)

IsBlocked-from :
    (attempts : ℕ → TryLock) (first last : ℕ)
    → attempts first ≡ would_block
    → IsBlocked attempts (suc first) last
    → IsBlocked attempts first last
IsBlocked-from attempts first last e rest i low high = elim (ℕ_discrete first i) [
  | yes same ↦ rw (sym same) e
  | no other ↦ rest i (omega arith) high
]

Answers-from :
    (attempts : ℕ → TryLock) (first last : ℕ) (found : TryLock)
    → attempts first ≡ would_block
    → Answers attempts (suc first) last found
    → Answers attempts first last found
Answers-from attempts first last found e (k, low, high, before, at) =
    (k, omega arith, high, IsBlocked-from attempts first k e before, at)

spin_from-Spun :
    (left spin : ℕ) (attempts : ℕ → TryLock)
    → spin + left ≡ 128
    → Spun (spin_from left spin attempts) attempts spin 128
unfolding spin_from
spin_from-Spun zero spin attempts h = inr (inr (refl, λ i low high. absurd (omega arith)))
spin_from-Spun (suc left) spin attempts h = elim (TryLock-cases (attempts spin)) [
  | inl e ↦
      inl (ground arith, (spin, omega arith, omega arith, λ i low high. absurd (omega arith), e))
  | inr (inr e) ↦
      inr (
        inl (ground arith, (spin, omega arith, omega arith, λ i low high. absurd (omega arith), e)))
  | inr (inl e) ↦ elim (spin_from-Spun left (suc spin) attempts (omega arith)) [
    | inl (r, a) ↦ inl (ground arith, Answers-from attempts spin 128 acquired e a)
    | inr (inl (r, a)) ↦
        inr (inl (ground arith, Answers-from attempts spin 128 TryLock.poisoned e a))
    | inr (inr (r, b)) ↦ inr (inr (ground arith, IsBlocked-from attempts spin 128 e b))
  ]
]

-- The spin makes at most 128 attempts and takes the answer of the first that does not find the mutex
-- held: the lock, or that the mutex is poisoned. It reports contention only after 128 blocked ones.
pub try_lock_with_spin-Spun :
    (attempts : ℕ → TryLock) → Spun (try_lock_with_spin attempts) attempts 0 128
unfolding try_lock_with_spin
try_lock_with_spin-Spun attempts = spin_from-Spun 128 0 attempts refl
