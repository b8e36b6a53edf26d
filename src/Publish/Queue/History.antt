-- ===== src/Publish/Queue/History.antt =====
-- Histories of the queue: the calls of its producers, of its worker and of the test receiver.
use thalamic_relay.Prelude.{ℕ, ◌+◌, Option, none, some, Result, err, List, [], ◌∷◌}
use thalamic_relay.Publish.{DropReason}
use thalamic_relay.Publish.Queue.{
  QueueInner, SharedQueue, WorkerPoll, message, TryLock, TryLockQueueError, try_lock_with_spin,
  record_loss, try_enqueue, record_publish_loss, try_recv, poll_worker, drop_consumer,
  clone_producer, drop_producer,
}

-- One call. A call that spins carries what each of its `try_lock` finds.
pub data QueueCall (T : Type 0) : Type 0 where
  enqueues : (ℕ → TryLock) → T → QueueCall T
  loses : (ℕ → TryLock) → DropReason → QueueCall T
  receives polls : QueueCall T
  loses_sending : DropReason → QueueCall T
  closes clones drops : QueueCall T

-- A queue, with two counts that the program does not keep: the frames that were offered or reported
-- as lost, unless the mutex was poisoned at the offer, and the frames that were handed to the worker.
pub record Ledger (T : Type 0) : Type 0 where
  pub queue : SharedQueue T
  pub offered : ℕ
  pub received : ℕ

abbrev pub counts : Result (Unit {0}) TryLockQueueError → ℕ
counts (err TryLockQueueError.poisoned) = 0
counts _ = 1

module _ {T : Type 0} where
  abbrev pub received_by : Option T → ℕ
  received_by none = 0
  received_by (some item) = 1

  abbrev pub polled_by : WorkerPoll T → ℕ
  polled_by (message item) = 1
  polled_by _ = 0

  abbrev pub with_inner : QueueInner T → SharedQueue T → SharedQueue T
  with_inner q s = record s { inner = q }

  unfoldable pub call : Ledger T → QueueCall T → Ledger T
  unfolding try_enqueue record_publish_loss try_recv poll_worker record_loss drop_consumer
      clone_producer drop_producer
  call l (enqueues attempts item) = record l {
    queue = (try_enqueue l.queue attempts item).1;
    offered = l.offered + counts (try_lock_with_spin attempts);
  }
  call l (loses attempts reason) = record l {
    queue = record_publish_loss l.queue attempts reason;
    offered = l.offered + 1;
  }
  call l receives =
      let (item, q) = try_recv l.queue.inner in
      record l { queue = with_inner q l.queue; received = l.received + received_by item }
  call l polls =
      let (answer, q) = poll_worker l.queue.inner in
      record l { queue = with_inner q l.queue; received = l.received + polled_by answer }
  call l (loses_sending reason) = record l {
    queue = with_inner (record_loss reason l.queue.inner) l.queue;
    offered = l.offered + 1;
  }
  call l closes = record l { queue = with_inner (drop_consumer l.queue.inner) l.queue }
  call l clones = record l { queue = with_inner (clone_producer l.queue.inner) l.queue }
  call l drops = record l { queue = with_inner (drop_producer l.queue.inner) l.queue }

  unfoldable pub calls : Ledger T → List (QueueCall T) → Ledger T
  unfolding call
  calls l [] = l
  calls l (c ∷ rest) = calls (call l c) rest
