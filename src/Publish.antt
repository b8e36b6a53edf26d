-- ===== src/Publish.antt =====
-- src/publish.rs: the policies, the loss reasons and the configuration of the outbound queue.
use thalamic_relay.Prelude.{
  ℕ, ltb, Bool, ◌||◌, if◌then◌else◌, same_text, String, Result, ok, err, ◌>>=◌, ◌>>◌, refuse_if,
  concat, List, [], ◌∷◌,
}
pub mod Config
pub mod Queue
pub mod Batch
pub mod Publisher
pub mod Worker
pub mod Exposition

pub data PublishError : Type 0 where
  absent disconnected slow_consumer : PublishError
  send_failed : String → PublishError

pub data QueueFullPolicy : Type 0 where
  drop_oldest reject_newest : QueueFullPolicy

unfoldable pub as_str : QueueFullPolicy → String
as_str drop_oldest = "drop_oldest"
as_str reject_newest = "reject_newest"

unfoldable pub as_cli_str : QueueFullPolicy → String
as_cli_str drop_oldest = "drop-oldest"
as_cli_str reject_newest = "reject-newest"

-- `FromStr`.
unfoldable pub from_str : String → Result QueueFullPolicy String
from_str s =
    if same_text s "drop-oldest" || same_text s "drop_oldest"
    then ok drop_oldest
    else if same_text s "reject-newest" || same_text s "reject_newest"
    then ok reject_newest
    else err (
        concat (
          "unknown sensory-queue full policy '" ∷ s ∷ "'; expected drop-oldest or reject-newest"
          ∷ []))

pub data DropReason : Type 0 where
  reject_newest drop_oldest absent disconnected send_failed mutex_contended : DropReason

unfoldable pub as_id : DropReason → ℕ
as_id DropReason.reject_newest = 0
as_id DropReason.drop_oldest = 1
as_id DropReason.absent = 2
as_id DropReason.disconnected = 3
as_id DropReason.send_failed = 4
as_id DropReason.mutex_contended = 5

-- `DropReason::ALL`.
abbrev pub all_reasons : List DropReason
all_reasons =
    DropReason.reject_newest ∷ DropReason.drop_oldest ∷ DropReason.absent ∷ DropReason.disconnected
    ∷ DropReason.send_failed ∷ DropReason.mutex_contended ∷ []

pub data QueueConfigError : Type 0 where
  capacity_too_small capacity_too_large : (capacity bound : ℕ) → QueueConfigError

pub record QueueConfig : Type 0 where
  pub capacity : ℕ
  pub policy : QueueFullPolicy

abbrev pub default_capacity : ℕ
default_capacity = 32

abbrev pub min_capacity : ℕ
min_capacity = 1

abbrev pub max_capacity : ℕ
max_capacity = 4096

unfoldable pub validate_capacity : ℕ → Result ℕ QueueConfigError
validate_capacity capacity = do
  refuse_if (ltb capacity min_capacity) (capacity_too_small capacity min_capacity)
  refuse_if (ltb max_capacity capacity) (capacity_too_large capacity max_capacity)
  ok capacity

unfoldable pub new : ℕ → QueueFullPolicy → Result QueueConfig QueueConfigError
unfolding validate_capacity
new capacity policy = do
  _ ← validate_capacity capacity
  ok (record { capacity = capacity; policy = policy })

unfoldable pub default : QueueConfig
default = record { capacity = default_capacity; policy = QueueFullPolicy.drop_oldest }
