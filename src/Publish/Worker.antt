-- ===== src/Publish/Worker.antt =====
-- src/publish.rs: the worker that empties the queue, and the publisher that starts it. Whether a frame
-- can be encoded and sent is the argument `delivered`; the datagrams that left are kept in order.
use thalamic_relay.Prelude.{
  ℕ, zero, suc, ◌<◌, ◌≡◌, refl, ◌∙◌, Bool, Bool-cases, inl, inr, true, false, if◌then◌else◌, Option,
  Result, ok, ◌>>=◌, String, List, [], ◌∷◌, ◌++◌, length, filter, arith,
}
use mathlib.Core.List.{append_assoc, append-nil}
use thalamic_relay.Publish.{DropReason, QueueFullPolicy, QueueConfig, QueueConfigError}
use thalamic_relay.Publish.Queue.{
  QueueInner, SharedQueue, WorkerPoll, message, idle, finished, poll_worker, record_loss,
}
use thalamic_relay.Publish.Publisher.{CorpusIpcPublisher}

module _ {T : Type 0} where
  -- `IsolatedPublishQueue::bounded_with_policy` and `bounded`.
  unfoldable pub bounded_with_policy :
      (capacity : ℕ) → QueueFullPolicy → Result (SharedQueue T) QueueConfigError
  bounded_with_policy capacity policy =
      thalamic_relay.Publish.new capacity policy >>= thalamic_relay.Publish.Queue.new

  unfoldable pub bounded : (capacity : ℕ) → Result (SharedQueue T) QueueConfigError
  bounded capacity = bounded_with_policy capacity QueueFullPolicy.reject_newest

-- `CorpusIpcPublisher::channel`, and `spawn` where the socket and the thread can be made.
unfoldable pub channel :
    {F : Type 0}
    → (session_id : Option String) → QueueConfig
    → Result (CorpusIpcPublisher F) QueueConfigError
channel session_id config = thalamic_relay.Publish.Queue.new config >>= λ queue.
    ok (record { queue = queue; session_id = session_id; session_seq = 0 })

pub record Worker (T : Type 0) : Type 0 where
  pub queue : QueueInner T
  pub sent : List T

module _ {T : Type 0} (delivered : T → Bool) where
  -- `send_dequeued_message`.
  unfoldable pub send_dequeued_message : T → Worker T → Worker T
  unfolding record_loss
  send_dequeued_message msg w =
      if delivered msg
      then record w { sent = w.sent ++ (msg ∷ []) }
      else record w { queue = record_loss DropReason.send_failed w.queue }

  -- A round of the loop, and whether it goes on. A round that finds nothing sleeps.
  on_poll : WorkerPoll T × QueueInner T → Worker T → Bool × Worker T
  unfolding send_dequeued_message
  on_poll (message msg, q) w = (true, send_dequeued_message msg (record w { queue = q }))
  on_poll (idle, q) w = (true, record w { queue = q })
  on_poll (finished, q) w = (false, record w { queue = q })

  unfoldable pub worker_round : Worker T → Bool × Worker T
  unfolding on_poll poll_worker
  worker_round w = on_poll (poll_worker w.queue) w

  -- `run_udp_worker`, for at most `fuel` rounds; `true` says that it has not ended.
  unfoldable pub run_udp_worker : (fuel : ℕ) → Worker T → Bool × Worker T
  unfolding worker_round
  run_udp_worker zero w = (true, w)
  run_udp_worker (suc fuel) w =
      let (goes_on, w') = worker_round w in
      let rest = run_udp_worker fuel w' in if goes_on then rest else (false, w')

  -- The loss counters after the frames that cannot be delivered.
  abbrev pub with_losses : List T → QueueInner T → QueueInner T
  with_losses [] q = q
  with_losses (m ∷ ms) q =
      with_losses ms (if delivered m then q else record_loss DropReason.send_failed q)

  -- What the worker is to end in: nothing queued, the frames that can be delivered sent in order, and
  -- each of the others counted.
  abbrev pub drained : Worker T → Worker T
  drained w = record {
    queue = with_losses w.queue.buf (record w.queue { buf = [] });
    sent = w.sent ++ filter delivered w.queue.buf;
  }

  drains :
      (buf : List T) (fuel : ℕ) (q : QueueInner T) (sent : List T)
      → q.producers ≡ 0
      → length buf < fuel
      → run_udp_worker fuel (record { queue = record q { buf = buf }; sent = sent }) ≡ (
        false,
        record {
          queue = with_losses buf (record q { buf = [] });
          sent = sent ++ filter delivered buf;
        },
      )
  unfolding run_udp_worker worker_round on_poll poll_worker send_dequeued_message record_loss
  drains buf zero q sent p h = absurd (omega arith)
  drains [] (suc fuel) q sent p h = rw (p, append-nil sent) refl
  drains (m ∷ buf) (suc fuel) q sent p h = elim (Bool-cases (delivered m)) [
    | inl d ↦ rw d (
        drains buf fuel q (sent ++ m ∷ []) p (omega arith)
        ∙ rw (append_assoc sent (m ∷ []) (filter delivered buf)) refl)
    | inr d ↦ rw d (drains buf fuel (record_loss DropReason.send_failed q) sent p (omega arith))
  ]

  -- Once the last producer is dropped, the worker ends, in one round more than frames are queued. It
  -- has sent the frames that can be delivered, in the order of the queue; each of the others is counted
  -- as a failed send, and no frame is left.
  pub run_udp_worker-drained :
      (w : Worker T) (fuel : ℕ)
      → w.queue.producers ≡ 0
      → length w.queue.buf < fuel
      → run_udp_worker fuel w ≡ (false, drained w)
  run_udp_worker-drained w fuel p h = drains w.queue.buf fuel w.queue w.sent p h
