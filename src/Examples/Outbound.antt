-- ===== src/Examples/Outbound.antt =====
-- Examples for the gate, the outbound queue and the wire batch.
use thalamic_relay.Prelude.{
  ℕ, ◌+◌, ◌≤◌, ◌≡◌, refl, true, some, List, [], ◌∷◌, ◌++◌, ok, arith, map, length, replicate,
}
use thalamic_relay.Float.Fixed.{Fixed, fixed_float}
use thalamic_relay.Telemetry.Mapping.{SensoryMapping, to_sensory_mapping_at}
use thalamic_relay.Gate.{default, try_enter, Wait, returned, start, next, enters}
use thalamic_relay.Gate.SingleFlight.{IsSingle, reachable-IsSingle}
use thalamic_relay.Publish.{QueueFullPolicy, QueueConfig}
use thalamic_relay.Publish.Queue.{
  QueueInner, SharedQueue, TryLock, acquired, would_block, try_lock_with_spin, dropped_total,
  snapshot,
}
use thalamic_relay.Publish.Queue.History.{QueueCall, enqueues, receives, closes, calls}
use thalamic_relay.Publish.Queue.Account.{calls-balance}
use thalamic_relay.Publish.Queue.Order.{enqueue_all, kept, enqueue_all-kept}
use thalamic_relay.Publish.Batch.{mapping_to_stimulus_batch}
use thalamic_relay.Publish.Batch.Masked.{read_masked, usable_value, mapping_to_stimulus_batch-read}
use thalamic_relay.Examples.Data.{cool}
use thalamic_relay.Publish.Queue as Q

reachable-IsSingle_example : IsSingle (try_enter (try_enter default).1).1
reachable-IsSingle_example =
    reachable-IsSingle (next (next start (enters default)) (enters (try_enter default).1))

abbrev late : Wait ℕ
late = returned 7

abbrev largest : ℕ
largest = 4096

-- A mutex that is free at once, and one that is never free.
abbrev free : ℕ → TryLock
free spin = acquired

abbrev held : ℕ → TryLock
held spin = would_block

abbrev pair : QueueConfig
pair = record { capacity = 2; policy = QueueFullPolicy.drop_oldest }

abbrev empty : SharedQueue ℕ
empty = record {
  inner = record {
    buf = [];
    capacity = 2;
    policy = QueueFullPolicy.drop_oldest;
    connected = true;
    producers = 1;
    enqueued_total = 0;
    dropped_by_reason = replicate 6 0;
  };
  dropped_lock_free = replicate 6 0;
}

created : Q.new {T = ℕ} pair ≡ ok empty
unfolding Q.new
created = refl

abbrev history : List (QueueCall ℕ)
history =
    enqueues free 1 ∷ enqueues free 2 ∷ enqueues free 3 ∷ enqueues held 4 ∷ receives ∷ closes ∷ []

calls-balance_example :
    let l = calls (record { queue = empty; offered = 0; received = 0 }) history in
    let snap = snapshot l.queue in
    (snap.depth ≤ snap.capacity)
    × (snap.capacity ≤ 4096)
    × (l.offered ≡ l.received + snap.depth + dropped_total snap)
calls-balance_example = calls-balance pair history created (omega arith)

enqueue_all-kept_example :
    let q = empty.inner in
    (enqueue_all q (1 ∷ 2 ∷ 3 ∷ [])).buf ≡ kept q.policy q.capacity (q.buf ++ (1 ∷ 2 ∷ 3 ∷ []))
enqueue_all-kept_example =
    enqueue_all-kept empty.inner (1 ∷ 2 ∷ 3 ∷ []) refl (omega arith) (omega arith)

abbrev mapping : SensoryMapping Fixed
mapping = to_sensory_mapping_at cool 1100

mapping_to_stimulus_batch-read_example :
    let batch = mapping_to_stimulus_batch mapping (some "boot") 0 in
    (read_masked batch.values batch.valid_mask ≡ map usable_value mapping.stimuli)
    × (length batch.values ≡ length mapping.stimuli)
    × (length batch.valid_mask ≡ length mapping.stimuli)
mapping_to_stimulus_batch-read_example = mapping_to_stimulus_batch-read mapping (some "boot") 0
