-- ===== src/Publish/Publisher.antt =====
-- src/publish.rs: what the supervisor asks of a publisher, and the publishers. What the `try_lock`s of
-- a call find is an argument, and `validate` stands for the check of corpus-ipc.
use thalamic_relay.Prelude.{ℕ, Option, none, some, String, Result, err}
use thalamic_relay.Float.{Float}
use thalamic_relay.Time.{UnixMillis}
use thalamic_relay.Telemetry.Frame.{TelemetryFrame}
use thalamic_relay.Telemetry.Mapping.{SensoryMapping, to_sensory_mapping_at}
use thalamic_relay.Machine.{SafetySnapshot, SafetyMachine, evaluate}
use thalamic_relay.Publish.{PublishError, DropReason}
use thalamic_relay.Publish.Queue.{
  SharedQueue, TryLock, try_enqueue, record_publish_loss, wrapping_add,
}
use thalamic_relay.Publish.Batch.{StimulusBatch, mapping_to_stimulus_batch}

pub record SensoryPublisher (F P : Type 0) : Type 0 where
  pub try_publish : P → (ℕ → TryLock) → SensoryMapping F → Result (Unit {0}) PublishError × P

-- `AbsentPublisher`.
pub data AbsentPublisher : Type 0 where
  absent_publisher : AbsentPublisher

pub record FailingPublisher : Type 0 where
  pub reason : String

pub record CorpusIpcPublisher (F : Type 0) : Type 0 where
  pub queue : SharedQueue (StimulusBatch F)
  pub session_id : Option String
  pub session_seq : ℕ

module _ {F : Type 0} where
  instance unfoldable pub absent_try_publish : SensoryPublisher F AbsentPublisher
  absent_try_publish = record { try_publish = λ p attempts mapping. (err PublishError.absent, p) }

  instance unfoldable pub failing_try_publish : SensoryPublisher F FailingPublisher
  failing_try_publish = record {
    try_publish = λ p attempts mapping. (err (PublishError.send_failed p.reason), p);
  }

  instance unfoldable pub queue_try_publish : SensoryPublisher F (SharedQueue (SensoryMapping F))
  unfolding try_enqueue
  queue_try_publish = record { try_publish = λ q attempts mapping. try_enqueue q attempts mapping }

module _ {F : Type 0} ⦃float : Float F⦄ where
  -- The session, the sequence number and the publisher's next one, with and without an override.
  identity_of : Option String → CorpusIpcPublisher F → SensoryMapping F → Option String × ℕ × ℕ
  identity_of (some id) p mapping = (some id, p.session_seq, wrapping_add p.session_seq 1)
  identity_of none p mapping = (some mapping.session_id, mapping.batch_id, p.session_seq)

  -- The queue after the batch was validated.
  send :
      Option String
      → SharedQueue (StimulusBatch F)
      → (ℕ → TryLock)
      → StimulusBatch F
      → Result (Unit {0}) PublishError × SharedQueue (StimulusBatch F)
  unfolding try_enqueue record_publish_loss
  send (some error) q attempts batch =
      (err (PublishError.send_failed error), record_publish_loss q attempts DropReason.send_failed)
  send none q attempts batch = try_enqueue q attempts batch

  -- `CorpusIpcPublisher::try_publish`. `validate` gives the text of an error, if there is one.
  unfoldable pub corpus_try_publish :
      (validate : StimulusBatch F → Option String)
      → CorpusIpcPublisher F
      → (ℕ → TryLock)
      → SensoryMapping F
      → Result (Unit {0}) PublishError × CorpusIpcPublisher F
  unfolding identity_of send mapping_to_stimulus_batch
  corpus_try_publish validate p attempts mapping =
      let (session, number, next) = identity_of p.session_id p mapping in
      let batch = mapping_to_stimulus_batch mapping session number in
      let (result, q) = send (validate batch) p.queue attempts batch in
      (result, record p { queue = q; session_seq = next })

  -- `evaluate_then_try_publish`; `now` is the time that `to_sensory_mapping` reads.
  unfoldable pub evaluate_then_try_publish :
      {P : Type 0}
      → ⦃publisher : SensoryPublisher F P⦄ → SafetyMachine F
      → TelemetryFrame F
      → P
      → (ℕ → TryLock)
      → (now : UnixMillis) → (SafetySnapshot × Result (Unit {0}) PublishError) × SafetyMachine F × P
  unfolding evaluate to_sensory_mapping_at
  evaluate_then_try_publish ⦃publisher⦄ machine frame p attempts now =
      let (snapshot, machine') = evaluate machine frame in
      let (result, p') = publisher.try_publish p attempts (to_sensory_mapping_at frame now) in
      ((snapshot, result), machine', p')
