-- ===== src/Publish/Queue.antt =====
-- src/publish.rs: the bounded queue between the supervisor and the worker. A method that locks the
-- mutex returns the new queue. What each `try_lock` finds is an argument; a `lock` is one on a mutex
-- that is not poisoned. The counters of the metrics registry are not part of the state.
use thalamic_relay.Prelude.{
  ℕ, zero, suc, ◌+◌, ◌-◌, ◌%◌, ltb, ◌==◌, Bool, true, false, if◌then◌else◌, Option, none, some,
  Result, ok, err, List, [], ◌∷◌, ◌++◌, length, drop, replicate, u64_max, saturating_add, ◌>>=◌,
}
use thalamic_relay.Publish.{
  PublishError, QueueFullPolicy, DropReason, as_id, QueueConfig, QueueConfigError,
  validate_capacity,
}
pub mod Slots
pub mod Bounds
pub mod History
pub mod Held
pub mod Account
pub mod Order
pub mod Spin

-- `slot.saturating_add(n)` on the slot at an index; an index out of range changes nothing.
unfoldable pub saturating_add_at : (i n : ℕ) → List ℕ → List ℕ
saturating_add_at i n [] = []
saturating_add_at zero n (slot ∷ slots) = saturating_add u64_max slot n ∷ slots
saturating_add_at (suc i) n (slot ∷ slots) = slot ∷ saturating_add_at i n slots

-- u64 addition in a release build, and AtomicU64::fetch_add.
abbrev pub wrapping_add : ℕ → ℕ → ℕ
wrapping_add a b = (a + b) % 18446744073709551616

-- `fetch_add(1)` on the slot at an index.
unfoldable pub fetch_add_at : ℕ → List ℕ → List ℕ
fetch_add_at i [] = []
fetch_add_at zero (slot ∷ slots) = wrapping_add slot 1 ∷ slots
fetch_add_at (suc i) (slot ∷ slots) = slot ∷ fetch_add_at i slots

abbrev pub wrapping_sum : List ℕ → ℕ
wrapping_sum [] = 0
wrapping_sum (n ∷ ns) = wrapping_add n (wrapping_sum ns)

abbrev pub zip_add : List ℕ → List ℕ → List ℕ
zip_add (a ∷ xs) (b ∷ ys) = wrapping_add a b ∷ zip_add xs ys
zip_add xs ys = xs

pub record QueueSnapshot : Type 0 where
  pub capacity : ℕ
  pub policy : QueueFullPolicy
  pub depth : ℕ
  pub enqueued_total : ℕ
  pub dropped_by_reason : List ℕ

unfoldable pub dropped_total : QueueSnapshot → ℕ
dropped_total snap = wrapping_sum snap.dropped_by_reason

pub record QueueInner (T : Type 0) : Type 0 where
  pub buf : List T
  pub capacity : ℕ
  pub policy : QueueFullPolicy
  pub connected : Bool
  pub producers : ℕ
  pub enqueued_total : ℕ
  pub dropped_by_reason : List ℕ

pub record SharedQueue (T : Type 0) : Type 0 where
  pub inner : QueueInner T
  pub dropped_lock_free : List ℕ

pub data WorkerPoll (T : Type 0) : Type 0 where
  message : T → WorkerPoll T
  idle finished : WorkerPoll T

-- What one `try_lock` finds.
pub data TryLock : Type 0 where
  acquired would_block poisoned : TryLock

pub data TryLockQueueError : Type 0 where
  contended poisoned : TryLockQueueError

abbrev pub enqueue_try_lock_spins : ℕ
enqueue_try_lock_spins = 128

-- The loop from one spin on; `left` spins remain.
unfoldable pub spin_from : (left spin : ℕ) → (ℕ → TryLock) → Result (Unit {0}) TryLockQueueError
spin_from zero spin attempts = err contended
spin_from (suc left) spin attempts =
    let rest = spin_from left (suc spin) attempts in
    elim (attempts spin) [
      | acquired ↦ ok tt
      | would_block ↦ if spin + 1 == enqueue_try_lock_spins then err contended else rest
      | TryLock.poisoned ↦ err TryLockQueueError.poisoned
    ]

unfoldable pub try_lock_with_spin : (ℕ → TryLock) → Result (Unit {0}) TryLockQueueError
unfolding spin_from
try_lock_with_spin attempts = spin_from enqueue_try_lock_spins 0 attempts

module _ {T : Type 0} where
  unfoldable pub inner_snapshot : QueueInner T → QueueSnapshot
  inner_snapshot q = record {
    capacity = q.capacity;
    policy = q.policy;
    depth = length q.buf;
    enqueued_total = q.enqueued_total;
    dropped_by_reason = q.dropped_by_reason;
  }

  unfoldable pub record_drops : DropReason → ℕ → QueueInner T → QueueInner T
  unfolding saturating_add_at
  record_drops reason n q = record q {
    dropped_by_reason = saturating_add_at (as_id reason) n q.dropped_by_reason;
  }

  unfoldable pub record_drop : DropReason → QueueInner T → QueueInner T
  unfolding record_drops
  record_drop reason q = record_drops reason 1 q

  unfoldable pub record_enqueue : QueueInner T → QueueInner T
  record_enqueue q = record q { enqueued_total = saturating_add u64_max q.enqueued_total 1 }

  -- `SensoryQueueConsumer::record_loss`.
  unfoldable pub record_loss : DropReason → QueueInner T → QueueInner T
  unfolding record_drop
  record_loss reason q = record_drop reason q

  push_back : T → QueueInner T → QueueInner T
  push_back item q = record q { buf = q.buf ++ (item ∷ []) }

  enqueue_full : QueueFullPolicy → QueueInner T → T → Result (Unit {0}) PublishError × QueueInner T
  unfolding record_drop push_back record_enqueue
  enqueue_full QueueFullPolicy.reject_newest q item =
      (err PublishError.slow_consumer, record_drop DropReason.reject_newest q)
  enqueue_full QueueFullPolicy.drop_oldest q item =
      let popped = record q { buf = drop 1 q.buf } in
      (ok tt, record_enqueue (push_back item (record_drop DropReason.drop_oldest popped)))

  -- `try_enqueue` under the lock, on the answers of its two tests.
  enqueue_on :
      (connected room : Bool) → QueueInner T → T → Result (Unit {0}) PublishError × QueueInner T
  unfolding enqueue_full record_drop push_back record_enqueue
  enqueue_on false room q item =
      (err PublishError.disconnected, record_drop DropReason.disconnected q)
  enqueue_on true true q item = (ok tt, record_enqueue (push_back item q))
  enqueue_on true false q item = enqueue_full q.policy q item

  unfoldable pub enqueue_locked : QueueInner T → T → Result (Unit {0}) PublishError × QueueInner T
  unfolding enqueue_on
  enqueue_locked q item = enqueue_on q.connected (ltb (length q.buf) q.capacity) q item

  unfoldable pub record_lock_free_drop : DropReason → SharedQueue T → SharedQueue T
  unfolding fetch_add_at
  record_lock_free_drop reason s = record s {
    dropped_lock_free = fetch_add_at (as_id reason) s.dropped_lock_free;
  }

  on_lock :
      Result (Unit {0}) TryLockQueueError
      → SharedQueue T
      → T
      → Result (Unit {0}) PublishError × SharedQueue T
  unfolding enqueue_locked record_lock_free_drop
  on_lock (ok _) s item =
      let (result, q) = enqueue_locked s.inner item in (result, record s { inner = q })
  on_lock (err TryLockQueueError.poisoned) s item = (err PublishError.disconnected, s)
  on_lock (err contended) s item =
      (err PublishError.slow_consumer, record_lock_free_drop DropReason.mutex_contended s)

  unfoldable pub try_enqueue :
      SharedQueue T → (ℕ → TryLock) → T → Result (Unit {0}) PublishError × SharedQueue T
  unfolding on_lock try_lock_with_spin
  try_enqueue s attempts item = on_lock (try_lock_with_spin attempts) s item

  loss_on_lock : Result (Unit {0}) TryLockQueueError → SharedQueue T → DropReason → SharedQueue T
  unfolding record_drop record_lock_free_drop
  loss_on_lock (ok _) s reason = record s { inner = record_drop reason s.inner }
  loss_on_lock (err _) s reason = record_lock_free_drop reason s

  unfoldable pub record_publish_loss : SharedQueue T → (ℕ → TryLock) → DropReason → SharedQueue T
  unfolding loss_on_lock try_lock_with_spin
  record_publish_loss s attempts reason = loss_on_lock (try_lock_with_spin attempts) s reason

  unfoldable pub snapshot : SharedQueue T → QueueSnapshot
  unfolding inner_snapshot
  snapshot s =
      let snap = inner_snapshot s.inner in
      record snap { dropped_by_reason = zip_add snap.dropped_by_reason s.dropped_lock_free }

  pop_front : List T → Option (T × List T)
  pop_front [] = none
  pop_front (item ∷ rest) = some (item, rest)

  unfoldable pub try_recv : QueueInner T → Option T × QueueInner T
  unfolding pop_front
  try_recv q = elim (pop_front q.buf) [
    | none ↦ (none, q)
    | some (item, rest) ↦ (some item, record q { buf = rest })
  ]

  unfoldable pub poll_worker : QueueInner T → WorkerPoll T × QueueInner T
  unfolding pop_front
  poll_worker q = elim (pop_front q.buf) [
    | none ↦ (if q.producers == 0 then finished else idle, q)
    | some (item, rest) ↦ (message item, record q { buf = rest })
  ]

  -- `Drop for SensoryQueueConsumer`.
  unfoldable pub drop_consumer : QueueInner T → QueueInner T
  unfolding saturating_add_at
  drop_consumer q =
      let leftover = length q.buf in
      record q {
        connected = false;
        buf = [];
        dropped_by_reason =
            if ltb 0 leftover
            then saturating_add_at (as_id DropReason.disconnected) leftover q.dropped_by_reason
            else q.dropped_by_reason;
      }

  -- `Clone` and `Drop` of the producer.
  unfoldable pub clone_producer : QueueInner T → QueueInner T
  clone_producer q = record q { producers = saturating_add u64_max q.producers 1 }

  unfoldable pub drop_producer : QueueInner T → QueueInner T
  drop_producer q = record q { producers = q.producers - 1 }

  -- `IsolatedPublishQueue::new`.
  unfoldable pub new : QueueConfig → Result (SharedQueue T) QueueConfigError
  unfolding validate_capacity
  new config = do
    _ ← validate_capacity config.capacity
    ok (record {
      inner = record {
        buf = [];
        capacity = config.capacity;
        policy = config.policy;
        connected = true;
        producers = 1;
        enqueued_total = 0;
        dropped_by_reason = replicate 6 0;
      };
      dropped_lock_free = replicate 6 0;
    })
