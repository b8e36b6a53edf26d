-- ===== src/Publish/Queue/Account.antt =====
-- Every frame is accounted for, and the queue stays bounded, in every history.
use thalamic_relay.Prelude.{
  ℕ, ◌+◌, ◌≤◌, ◌≡◌, refl, Result, ok, err, List, [], ◌∷◌, length, arith, u64_max,
}
use thalamic_relay.Publish.{DropReason, as_id, QueueConfig}
use thalamic_relay.Publish.Queue.{
  QueueInner, SharedQueue, TryLockQueueError, contended, record_drops, on_lock, loss_on_lock,
  try_lock_with_spin, record_lock_free_drop, clone_producer, drop_producer, dropped_total, snapshot,
  new,
}
use thalamic_relay.Publish.Queue.Slots.{
  sum, sum-fetch_add_at, length-fetch_add_at, as_id_bound, wrapping_sum-zip_add,
}
use thalamic_relay.Publish.Queue.Bounds.{
  IsBounded, new-IsBounded, record_drops-IsBounded, enqueue_locked-IsBounded, try_recv-IsBounded,
  poll_worker-IsBounded, drop_consumer-IsBounded,
}
use thalamic_relay.Publish.Queue.Held.{
  held, held-record_drops, held-enqueue_locked, held-drop_consumer, try_recv_held, poll_worker_held,
}
use thalamic_relay.Publish.Queue.History.{
  QueueCall, enqueues, loses, receives, polls, loses_sending, closes, clones, drops, Ledger, call,
  calls, counts,
}

counts_bound : (r : Result (Unit {0}) TryLockQueueError) → counts r ≤ 1
counts_bound r = ground arith

module _ {T : Type 0} where
  -- The queue is bounded, and what was offered is what was received, is held or is counted as lost.
  pub record IsBalanced (l : Ledger T) : Type 0 where
    pub bounded : IsBounded l.queue.inner
    pub lock_free_slots : length l.queue.dropped_lock_free ≡ 6
    pub balance : l.offered ≡ l.received + held l.queue.inner + sum l.queue.dropped_lock_free

  -- A frame that is held or lost under the lock.
  with_one_more :
      (l : Ledger T) (q : QueueInner T)
      → IsBalanced l
      → IsBounded q
      → held q ≡ held l.queue.inner + 1
      → IsBalanced (record l { queue = record l.queue { inner = q }; offered = l.offered + 1 })
  with_one_more l q b bounded more =
      let balance = b.balance in
      let slots = b.lock_free_slots in
      record { bounded = bounded; lock_free_slots = slots; balance = omega arith }

  without_lock :
      (l : Ledger T) (r : DropReason)
      → IsBalanced l
      → l.offered + 1 ≤ u64_max
      → IsBalanced (record l { queue = record_lock_free_drop r l.queue; offered = l.offered + 1 })
  unfolding record_lock_free_drop
  without_lock l r b small =
      let balance = b.balance in
      let slots = b.lock_free_slots in
      let low = as_id_bound r in
      let bounded = b.bounded in
      record {
        bounded = bounded;
        lock_free_slots = omega (arith, length-fetch_add_at (as_id r) l.queue.dropped_lock_free);
        balance = omega (
          arith,
          sum-fetch_add_at (as_id r) l.queue.dropped_lock_free (omega arith) (omega arith),
        );
      }

  on_lock-IsBalanced :
      (r : Result (Unit {0}) TryLockQueueError) (l : Ledger T) (item : T)
      → IsBalanced l
      → l.offered + 1 ≤ u64_max
      → IsBalanced (record l { queue = (on_lock r l.queue item).1; offered = l.offered + counts r })
  unfolding on_lock
  on_lock-IsBalanced (ok _) l item b small =
      let q = l.queue.inner in
      let balance = b.balance in
      with_one_more l _ b (enqueue_locked-IsBounded q item b.bounded)
        (held-enqueue_locked q item b.bounded (omega arith))
  on_lock-IsBalanced (err TryLockQueueError.poisoned) l item b small =
      let balance = b.balance in
      let bounded = b.bounded in
      let slots = b.lock_free_slots in
      record { bounded = bounded; lock_free_slots = slots; balance = omega arith }
  on_lock-IsBalanced (err contended) l item b small =
      without_lock l DropReason.mutex_contended b small

  loss-IsBalanced :
      (l : Ledger T) (r : DropReason)
      → IsBalanced l
      → l.offered + 1 ≤ u64_max
      → IsBalanced (record l {
        queue = record l.queue { inner = record_drops r 1 l.queue.inner };
        offered = l.offered + 1;
      })
  loss-IsBalanced l r b small =
      let q = l.queue.inner in
      let balance = b.balance in
      with_one_more l _ b (record_drops-IsBounded r 1 q b.bounded)
        (held-record_drops r 1 q b.bounded (omega arith))

  loss_on_lock-IsBalanced :
      (k : Result (Unit {0}) TryLockQueueError) (l : Ledger T) (r : DropReason)
      → IsBalanced l
      → l.offered + 1 ≤ u64_max
      → IsBalanced (record l { queue = loss_on_lock k l.queue r; offered = l.offered + 1 })
  unfolding loss_on_lock
  loss_on_lock-IsBalanced (ok _) l r b small = loss-IsBalanced l r b small
  loss_on_lock-IsBalanced (err _) l r b small = without_lock l r b small

  -- Frames that leave the queue by `k` receptions.
  moved-IsBalanced :
      (l : Ledger T) (q : QueueInner T) (k : ℕ)
      → IsBalanced l
      → IsBounded q
      → k + held q ≡ held l.queue.inner
      → IsBalanced (record l { queue = record l.queue { inner = q }; received = l.received + k })
  moved-IsBalanced l q k b bounded same =
      let balance = b.balance in
      let slots = b.lock_free_slots in
      record { bounded = bounded; lock_free_slots = slots; balance = omega arith }

  same-IsBalanced :
      (l : Ledger T) (q : QueueInner T)
      → IsBalanced l
      → IsBounded q
      → held q ≡ held l.queue.inner
      → IsBalanced (record l { queue = record l.queue { inner = q } })
  same-IsBalanced l q b bounded same =
      let balance = b.balance in
      let slots = b.lock_free_slots in
      record { bounded = bounded; lock_free_slots = slots; balance = omega arith }

  clone_producer-IsBounded : (q : QueueInner T) → IsBounded q → IsBounded (clone_producer q)
  unfolding clone_producer
  clone_producer-IsBounded q b = record {
    capacity_low = b.capacity_low;
    capacity_high = b.capacity_high;
    depth = b.depth;
    closed = b.closed;
    slots = b.slots;
  }

  drop_producer-IsBounded : (q : QueueInner T) → IsBounded q → IsBounded (drop_producer q)
  unfolding drop_producer
  drop_producer-IsBounded q b = record {
    capacity_low = b.capacity_low;
    capacity_high = b.capacity_high;
    depth = b.depth;
    closed = b.closed;
    slots = b.slots;
  }

  held_small :
      (l : Ledger T) → IsBalanced l → l.offered + 1 ≤ u64_max → held l.queue.inner ≤ u64_max
  held_small l b small = let balance = b.balance in omega arith

  call-IsBalanced :
      (l : Ledger T) (c : QueueCall T)
      → IsBalanced l
      → l.offered + 1 ≤ u64_max
      → IsBalanced (call l c) × ((call l c).offered ≤ l.offered + 1)
  unfolding call
  call-IsBalanced l (enqueues attempts item) b small = (
    on_lock-IsBalanced (try_lock_with_spin attempts) l item b small,
    omega (arith, counts_bound (try_lock_with_spin attempts)),
  )
  call-IsBalanced l (loses attempts reason) b small =
      (loss_on_lock-IsBalanced (try_lock_with_spin attempts) l reason b small, omega arith)
  call-IsBalanced l receives b small =
      let q = l.queue.inner in
      (moved-IsBalanced l _ _ b (try_recv-IsBounded q b.bounded) (try_recv_held q), omega arith)
  call-IsBalanced l polls b small =
      let q = l.queue.inner in
      (
        moved-IsBalanced l _ _ b (poll_worker-IsBounded q b.bounded) (poll_worker_held q),
        omega arith,
      )
  call-IsBalanced l (loses_sending reason) b small = (loss-IsBalanced l reason b small, omega arith)
  call-IsBalanced l closes b small =
      let q = l.queue.inner in
      (
        same-IsBalanced l _ b (drop_consumer-IsBounded q b.bounded)
            (held-drop_consumer q b.bounded (held_small l b small)),
        omega arith,
      )
  call-IsBalanced l clones b small =
      (same-IsBalanced l _ b (clone_producer-IsBounded l.queue.inner b.bounded) refl, omega arith)
  call-IsBalanced l drops b small =
      (same-IsBalanced l _ b (drop_producer-IsBounded l.queue.inner b.bounded) refl, omega arith)

  calls-IsBalanced :
      (l : Ledger T) (history : List (QueueCall T))
      → IsBalanced l
      → l.offered + length history ≤ u64_max
      → IsBalanced (calls l history) × ((calls l history).offered ≤ l.offered + length history)
  unfolding calls
  calls-IsBalanced l [] b small = (b, omega arith)
  calls-IsBalanced l (c ∷ rest) b small =
      let (b', more) = call-IsBalanced l c b (omega arith) in
      let (last, bound) = calls-IsBalanced (call l c) rest b' (omega arith) in (last, omega arith)

  new-IsBalanced :
      (config : QueueConfig) {s : SharedQueue T}
      → new config ≡ ok s
      → IsBalanced (record { queue = s; offered = 0; received = 0 })
  unfolding new
  new-IsBalanced config {s} e = record {
    bounded = new-IsBounded config e;
    lock_free_slots = ground arith;
    balance = ground arith;
  }

  -- From a new queue, after any history of at most 2 ^ 64 - 1 calls by any number of producers and the
  -- worker: the depth is at most the configured capacity, which is at most 4096, and the frames that
  -- were offered or reported as lost are exactly those that were received, are queued, or are in the
  -- snapshot's `dropped_total`. (An offer to a poisoned mutex is the one loss that is not counted.)
  pub calls-balance :
      (config : QueueConfig) {s : SharedQueue T} (history : List (QueueCall T))
      → new config ≡ ok s
      → length history ≤ u64_max
      → let l = calls (record { queue = s; offered = 0; received = 0 }) history in
        let snap = snapshot l.queue in
        (snap.depth ≤ snap.capacity)
        × (snap.capacity ≤ 4096)
        × (l.offered ≡ l.received + snap.depth + dropped_total snap)
  unfolding snapshot dropped_total
  calls-balance config {s} history e small =
      let l = calls (record { queue = s; offered = 0; received = 0 }) history in
      let (b, bound) = calls-IsBalanced _ history (new-IsBalanced config e) (omega arith) in
      let balance = b.balance in
      let slots = b.lock_free_slots in
      let bounded = b.bounded in
      (
        bounded.depth,
        bounded.capacity_high,
        omega (
          arith,
          wrapping_sum-zip_add l.queue.inner.dropped_by_reason l.queue.dropped_lock_free
              (omega arith) (omega arith),
        ),
      )
