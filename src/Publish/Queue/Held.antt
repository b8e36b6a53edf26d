-- ===== src/Publish/Queue/Held.antt =====
-- What the queue holds or has counted as lost, under each operation on the locked queue.
use thalamic_relay.Prelude.{
  ℕ, ◌+◌, ◌≤◌, ◌≡◌, refl, Bool, true, false, [], ◌∷◌, length, length-append, arith, u64_max, ltb,
}
use thalamic_relay.Publish.{DropReason, as_id, QueueFullPolicy}
use thalamic_relay.Publish.Queue.{
  QueueInner, record_drops, enqueue_full, enqueue_on, enqueue_locked, try_recv, poll_worker,
  drop_consumer,
}
use thalamic_relay.Publish.Queue.Slots.{sum, sum-saturating_add_at, as_id_bound}
use thalamic_relay.Publish.Queue.Bounds.{IsBounded, push_pop_length}
use thalamic_relay.Publish.Queue.History.{received_by, polled_by}

module _ {T : Type 0} where
  -- The frames that a queue still holds, and those it has counted as lost.
  abbrev pub held : QueueInner T → ℕ
  held q = length q.buf + sum q.dropped_by_reason

  pub held-record_drops :
      (r : DropReason) (n : ℕ) (q : QueueInner T)
      → IsBounded q
      → held q + n ≤ u64_max
      → held (record_drops r n q) ≡ held q + n
  unfolding record_drops
  held-record_drops r n q b small =
      let low = as_id_bound r in
      let six = b.slots in
      omega
        (arith, sum-saturating_add_at (as_id r) n q.dropped_by_reason (omega arith) (omega arith))

  held-enqueue_full :
      (p : QueueFullPolicy) (q : QueueInner T) (item : T)
      → length q.buf ≡ q.capacity
      → IsBounded q
      → held q + 1 ≤ u64_max
      → held (enqueue_full p q item).1 ≡ held q + 1
  unfolding enqueue_full
  held-enqueue_full QueueFullPolicy.reject_newest q item full b small =
      held-record_drops DropReason.reject_newest 1 q b small
  held-enqueue_full QueueFullPolicy.drop_oldest q item full b small =
      let low = as_id_bound DropReason.drop_oldest in
      let six = b.slots in
      let one = b.capacity_low in
      omega (
        arith,
        push_pop_length item q.buf (omega arith),
        sum-saturating_add_at (as_id DropReason.drop_oldest) 1 q.dropped_by_reason (omega arith)
            (omega arith),
      )

  held-enqueue_on :
      (connected room : Bool) (q : QueueInner T) (item : T)
      → ltb (length q.buf) q.capacity ≡ room
      → IsBounded q
      → held q + 1 ≤ u64_max
      → held (enqueue_on connected room q item).1 ≡ held q + 1
  unfolding enqueue_on
  held-enqueue_on false room q item r b small =
      held-record_drops DropReason.disconnected 1 q b small
  held-enqueue_on true true q item r b small = omega (arith, length-append q.buf (item ∷ []))
  held-enqueue_on true false q item r b small =
      let depth = b.depth in held-enqueue_full q.policy q item (ground arith) b small

  pub held-enqueue_locked :
      (q : QueueInner T) (item : T)
      → IsBounded q
      → held q + 1 ≤ u64_max
      → held (enqueue_locked q item).1 ≡ held q + 1
  unfolding enqueue_locked
  held-enqueue_locked q item b small = held-enqueue_on _ _ q item refl b small

  pub held-drop_consumer :
      (q : QueueInner T) → IsBounded q → held q ≤ u64_max → held (drop_consumer q) ≡ held q
  unfolding drop_consumer
  held-drop_consumer q b small =
      let low = as_id_bound DropReason.disconnected in
      let six = b.slots in
      ground (
        arith,
        sum-saturating_add_at (as_id DropReason.disconnected) (length q.buf) q.dropped_by_reason
            (omega arith) (omega arith),
      )

  pub try_recv_held : (q : QueueInner T) → received_by (try_recv q).0 + held (try_recv q).1 ≡ held q
  unfolding try_recv
  try_recv_held q = ground arith

  pub poll_worker_held :
      (q : QueueInner T) → polled_by (poll_worker q).0 + held (poll_worker q).1 ≡ held q
  unfolding poll_worker
  poll_worker_held q = ground arith
