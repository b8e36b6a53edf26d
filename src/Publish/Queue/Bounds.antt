-- ===== src/Publish/Queue/Bounds.antt =====
-- The queue is bounded: the invariant of every operation.
use thalamic_relay.Prelude.{
  ℕ, ◌≤◌, ◌<◌, ◌≡◌, refl, Bool, true, false, ok, List, [], ◌∷◌, ◌++◌, length, drop, length-append,
  length-drop, arith, ltb,
}
use thalamic_relay.Publish.{DropReason, as_id, QueueConfig, QueueFullPolicy}
use thalamic_relay.Publish.Queue.{
  QueueInner, SharedQueue, record_drops, record_enqueue, push_back, enqueue_full, enqueue_on,
  enqueue_locked, try_recv, poll_worker, drop_consumer, new,
}
use thalamic_relay.Publish.Queue.Slots.{length-saturating_add_at}

module _ {T : Type 0} where
  -- A capacity that the configuration allows, no more frames than it, none once the consumer is gone,
  -- and one slot for each loss reason.
  pub record IsBounded (q : QueueInner T) : Type 0 where
    pub capacity_low : 1 ≤ q.capacity
    pub capacity_high : q.capacity ≤ 4096
    pub depth : length q.buf ≤ q.capacity
    pub closed : q.connected ≡ false → length q.buf ≡ 0
    pub slots : length q.dropped_by_reason ≡ 6

  pub new-IsBounded :
      (config : QueueConfig) {s : SharedQueue T} → new config ≡ ok s → IsBounded s.inner
  unfolding new
  new-IsBounded config {s} e = ground arith

  pub record_drops-IsBounded :
      (r : DropReason) (n : ℕ) (q : QueueInner T) → IsBounded q → IsBounded (record_drops r n q)
  unfolding record_drops
  record_drops-IsBounded r n q b =
      ground (arith, length-saturating_add_at (as_id r) n q.dropped_by_reason)

  pub push_pop_length :
      (item : T) (buf : List T) → 1 ≤ length buf → length (drop 1 buf ++ (item ∷ [])) ≡ length buf
  push_pop_length item buf h =
      omega (arith, length-append (drop 1 buf) (item ∷ []), length-drop 1 buf)

  push_back-IsBounded :
      (q : QueueInner T) (item : T)
      → q.connected ≡ true
      → length q.buf < q.capacity
      → IsBounded q
      → IsBounded (record_enqueue (push_back item q))
  unfolding record_enqueue push_back
  push_back-IsBounded q item open_ room b = ground (arith, length-append q.buf (item ∷ []))

  enqueue_full-IsBounded :
      (p : QueueFullPolicy) (q : QueueInner T) (item : T)
      → q.connected ≡ true
      → length q.buf ≡ q.capacity
      → IsBounded q
      → IsBounded (enqueue_full p q item).1
  unfolding enqueue_full
  enqueue_full-IsBounded QueueFullPolicy.reject_newest q item open_ full b =
      record_drops-IsBounded DropReason.reject_newest 1 q b
  enqueue_full-IsBounded QueueFullPolicy.drop_oldest q item open_ full b = ground (
    arith,
    push_pop_length item q.buf,
    length-saturating_add_at (as_id DropReason.drop_oldest) 1 q.dropped_by_reason,
  )

  enqueue_on-IsBounded :
      (connected room : Bool) (q : QueueInner T) (item : T)
      → q.connected ≡ connected
      → ltb (length q.buf) q.capacity ≡ room
      → IsBounded q
      → IsBounded (enqueue_on connected room q item).1
  unfolding enqueue_on
  enqueue_on-IsBounded false room q item c r b =
      record_drops-IsBounded DropReason.disconnected 1 q b
  enqueue_on-IsBounded true true q item c r b = push_back-IsBounded q item c (ground arith) b
  enqueue_on-IsBounded true false q item c r b =
      enqueue_full-IsBounded q.policy q item c (ground arith) b

  pub enqueue_locked-IsBounded :
      (q : QueueInner T) (item : T) → IsBounded q → IsBounded (enqueue_locked q item).1
  unfolding enqueue_locked
  enqueue_locked-IsBounded q item b = enqueue_on-IsBounded _ _ q item refl refl b

  pub try_recv-IsBounded : (q : QueueInner T) → IsBounded q → IsBounded (try_recv q).1
  unfolding try_recv
  try_recv-IsBounded q b = ground arith

  pub poll_worker-IsBounded : (q : QueueInner T) → IsBounded q → IsBounded (poll_worker q).1
  unfolding poll_worker
  poll_worker-IsBounded q b = ground arith

  pub drop_consumer-IsBounded : (q : QueueInner T) → IsBounded q → IsBounded (drop_consumer q)
  unfolding drop_consumer
  drop_consumer-IsBounded q b = ground (
    arith,
    length-saturating_add_at (as_id DropReason.disconnected) (length q.buf) q.dropped_by_reason,
  )
