-- ===== src/Time/Order.antt =====
-- The sequence of stamps of one clock, and what the status of a source time says.
use thalamic_relay.Prelude.{
  ℕ, ◌+◌, ◌≤◌, ◌<◌, ◌≡◌, refl, ◌⊎◌, inl, inr, ◌↔◌, true, Option, none, some, List, [], ◌∷◌, String,
  arith, u64_max, length,
}
use thalamic_relay.Time.{
  UnixMillis, TimestampOrigin, in_order, classify, is_source_regression, FrameTiming, SampleClock,
  newer_source, stamp,
}

-- The arguments of one call of `stamp`.
pub record Arrival : Type 0 where
  pub source : Option UnixMillis
  pub received_at : UnixMillis
  pub origin : TimestampOrigin

-- A history of calls, oldest first.
unfoldable pub stamp_all : SampleClock → List Arrival → Option (List FrameTiming × SampleClock)
stamp_all c [] = some ([], c)
stamp_all c (a ∷ rest) = elim (stamp c a.source a.received_at a.origin) [
  | none ↦ none
  | some (t, c') ↦ elim (stamp_all c' rest) [ none ↦ none | some (ts, last) ↦ some (t ∷ ts, last) ]
]

-- The frames carry the session, and the numbers from `n` on, without a gap.
abbrev pub Numbered : String → ℕ → List FrameTiming → Type 0
Numbered id n [] = Unit {0}
Numbered id n (t ∷ ts) = (t.session_id ≡ id) × (t.batch_id ≡ n) × Numbered id (n + 1) ts

-- What `stamp_all` gives, on every history that stays inside u64.
abbrev pub Stamps : SampleClock → List Arrival → Type 0
Stamps c arrivals =
    (ts : List FrameTiming) × (last : SampleClock) × (stamp_all c arrivals ≡ some (ts, last))
    × (length ts ≡ length arrivals)
    × Numbered c.session_id c.next_batch_id ts
    × (last.session_id ≡ c.session_id)
    × (last.next_batch_id ≡ c.next_batch_id + length arrivals)

-- The frame and the clock that a stamp inside u64 gives.
timing : SampleClock → Arrival → FrameTiming
timing c a = record {
  session_id = c.session_id;
  batch_id = c.next_batch_id;
  source_unix_ms = a.source;
  received_at_unix_ms = a.received_at;
  timestamp_origin = a.origin;
  source_time_status = classify a.source a.received_at c.last_source_unix_ms;
}

clock_after : SampleClock → Arrival → SampleClock
clock_after c a = record c {
  next_batch_id = c.next_batch_id + 1;
  last_source_unix_ms = newer_source a.source c.last_source_unix_ms;
}

-- Whatever the source times and receive times are (missing, duplicate, backward or future), a history
-- whose numbers stay inside u64 is stamped whole: one frame for each call, all with the session id of
-- the clock, numbered consecutively from its next batch id, which advances by the number of calls.
pub stamp_all-Stamps :
    (c : SampleClock) (arrivals : List Arrival)
    → c.next_batch_id + length arrivals ≤ u64_max
    → Stamps c arrivals
unfolding stamp_all stamp timing clock_after
stamp_all-Stamps c [] fits = ([], c, refl, refl, tt, refl, omega arith)
stamp_all-Stamps c (a ∷ rest) fits =
    let (ts, last, e, n, numbered, same, next) =
      stamp_all-Stamps (clock_after c a) rest (omega arith) in
    (
      timing c a ∷ ts,
      last,
      ground (arith, e),
      ground (arith, n),
      (refl, refl, numbered),
      same,
      omega arith,
    )

-- A present source time is in order exactly when it is not after the receive time and later than the
-- previous source time, if there is one.
pub classify-in_order_iff :
    (src received_at : UnixMillis) (last : Option UnixMillis)
    → (classify (some src) received_at last ≡ in_order)
      ↔ ((src ≤ received_at) × ((last ≡ none) ⊎ ((prev : ℕ) × (last ≡ some prev) × (prev < src))))
unfolding classify
classify-in_order_iff src received_at none = (λ e. (ground arith, inl refl), λ h. ground arith)
classify-in_order_iff src received_at (some prev) =
    (λ e. (ground arith, inr (prev, refl, ground arith)), λ h. ground arith)

-- A source regression is flagged exactly when the source time is present, not after the receive
-- time, and not later than the previous source time.
pub is_source_regression_iff :
    (source : Option UnixMillis) (received_at : UnixMillis) (last : Option UnixMillis)
    → (is_source_regression (classify source received_at last) ≡ true) ↔ (
        (src : ℕ) × (prev : ℕ) × (source ≡ some src)
        × (last ≡ some prev)
        × (src ≤ received_at)
        × (src ≤ prev))
unfolding is_source_regression classify
is_source_regression_iff none received_at last = (λ e. cc, λ h. ground arith)
is_source_regression_iff (some src) received_at none = (λ e. ground arith, λ h. ground arith)
is_source_regression_iff (some src) received_at (some prev) =
    (λ e. (src, prev, refl, refl, ground arith, ground arith), λ h. ground arith)
