-- ===== src/Time.antt =====
-- src/time.rs: the sample clock that numbers the frames of a session, and the status of a source's
-- wall time. `Option` in a result is a panic of the source: `stamp` ends the process when the batch
-- number leaves u64. Session ids come from the process, or are given on the command line.
use thalamic_relay.Prelude.{
  ℕ, ◌+◌, Bool, true, false, Option, none, some, String, ltb, leb, ◌==◌, if◌then◌else◌, u64_max,
}
pub mod Order
pub mod Field

-- Milliseconds since the Unix epoch, a u64.
abbrev pub UnixMillis : Type 0
UnixMillis = ℕ

pub data TimestampOrigin : Type 0 where
  live_acquire csv_source simulated : TimestampOrigin

pub data SourceTimeStatus : Type 0 where
  in_order duplicate backward future missing : SourceTimeStatus

-- The `match` on the last source time.
against_last : UnixMillis → Option UnixMillis → SourceTimeStatus
against_last src none = in_order
against_last src (some prev) =
    if ltb src prev then backward else if src == prev then duplicate else in_order

-- `SourceTimeStatus::classify`.
unfoldable pub classify :
    Option UnixMillis → (received_at : UnixMillis) → Option UnixMillis → SourceTimeStatus
unfolding against_last
classify none received_at last = missing
classify (some src) received_at last = if ltb received_at src then future else against_last src last

unfoldable pub is_source_regression : SourceTimeStatus → Bool
is_source_regression duplicate = true
is_source_regression backward = true
is_source_regression _ = false

pub record FrameTiming : Type 0 where
  pub session_id : String
  pub batch_id : ℕ
  pub source_unix_ms : Option UnixMillis
  pub received_at_unix_ms : UnixMillis
  pub timestamp_origin : TimestampOrigin
  pub source_time_status : SourceTimeStatus

pub record SampleClock : Type 0 where
  pub session_id : String
  pub next_batch_id : ℕ
  pub last_source_unix_ms : Option UnixMillis

unfoldable pub with_session_id : String → SampleClock
with_session_id id = record { session_id = id; next_batch_id = 0; last_source_unix_ms = none }

unfoldable pub peek_batch_id : SampleClock → ℕ
peek_batch_id c = c.next_batch_id

-- `if let Some(src) = source_unix_ms { self.last_source_unix_ms = Some(src) }`.
abbrev pub newer_source : Option UnixMillis → Option UnixMillis → Option UnixMillis
newer_source none last = last
newer_source (some src) last = some src

-- `SampleClock::stamp`.
unfoldable pub stamp :
    SampleClock
    → Option UnixMillis
    → UnixMillis
    → TimestampOrigin
    → Option (FrameTiming × SampleClock)
unfolding classify
stamp c source received_at origin =
    if leb (c.next_batch_id + 1) u64_max
    then some (
      record {
        session_id = c.session_id;
        batch_id = c.next_batch_id;
        source_unix_ms = source;
        received_at_unix_ms = received_at;
        timestamp_origin = origin;
        source_time_status = classify source received_at c.last_source_unix_ms;
      },
      record c {
        next_batch_id = c.next_batch_id + 1;
        last_source_unix_ms = newer_source source c.last_source_unix_ms;
      },
    )
    else none
