-- ===== src/Examples/Readings.antt =====
-- Examples for the clock, the samples, the policy and the classification.
use thalamic_relay.Prelude.{
  ℕ, ◌≡◌, refl, ◌≢◌, ◌↔◌, ◌⊎◌, Option, none, some, List, [], ◌∷◌, ok, arith,
}
use thalamic_relay.Float.Fixed.{Fixed, fixed_float, fixed, Fixed-IsFloat}
use thalamic_relay.Time.{live_acquire, stamp}
use thalamic_relay.Time.Order.{Arrival, Stamps, stamp_all-Stamps}
use thalamic_relay.Telemetry.{TelemetrySource, valid, SignalId, signal_spec, stale_after_ms}
use thalamic_relay.Telemetry.Sample.{from_raw_with_stale_after, normalized}
use thalamic_relay.Telemetry.Sample.Usable.{
  IsUsable, IsModelInput, from_raw-valid_iff, normalized-from_raw,
}
use thalamic_relay.Telemetry.Frame.{from_raw_with_clock, sample_of}
use thalamic_relay.Telemetry.Frame.Channels.{IsAssembled, from_raw_with_clock-IsAssembled}
use thalamic_relay.Policy.{resolve}
use thalamic_relay.Policy.Limits.{IsResolved, resolve-IsResolved}
use thalamic_relay.Classify.{AssessmentKind, worst_safety_fault, classify_frame_with_policy}
use thalamic_relay.Classify.Grade.{IsLive, Grade, classify_frame_with_policy-Grade}
use thalamic_relay.Classify.Assessed.{IsSafe, classify_frame_with_policy-IsSafe}
use thalamic_relay.Examples.Data.{config, policy, reading_at, clock, cool, warm, hot}

abbrev arrivals : List Arrival
arrivals =
    record { source = some 5; received_at = 7; origin = live_acquire }
    ∷ record { source = some 5; received_at = 9; origin = live_acquire }
    ∷ []

stamp_all-Stamps_example : Stamps clock arrivals
stamp_all-Stamps_example = stamp_all-Stamps clock arrivals (omega arith)

abbrev earlier : Option ℕ
earlier = some 4

abbrev again : Option ℕ
again = some 5

from_raw-valid_iff_example :
    ((from_raw_with_stale_after SignalId.gpu_temp_c
        (some (fixed 60000))
        900
        TelemetrySource.nvml
        1000
        2000).validity
      ≡ valid)
    ↔ IsUsable Fixed-IsFloat SignalId.gpu_temp_c (some (fixed 60000)) 900 1000 2000
from_raw-valid_iff_example =
    from_raw-valid_iff Fixed-IsFloat SignalId.gpu_temp_c (some (fixed 60000)) 900
      TelemetrySource.nvml 1000 2000

normalized-from_raw_example :
    let s =
      from_raw_with_stale_after SignalId.gpu_temp_c
        (some (fixed 60000))
        900
        TelemetrySource.nvml
        1000
        2000 in
    ((s.validity ≢ valid) × (normalized s ≡ none))
    ⊎ ((s.validity ≡ valid)
        × ((x : Fixed) × (normalized s ≡ some x) × IsModelInput Fixed-IsFloat x))
normalized-from_raw_example =
    normalized-from_raw Fixed-IsFloat SignalId.gpu_temp_c (some (fixed 60000)) 900
      TelemetrySource.nvml 1000 2000

resolved : resolve config (some (fixed 300000)) ≡ ok policy
unfolding resolve
resolved = refl

resolve-IsResolved_example : (policy.config ≡ config) × IsResolved (some (fixed 300000)) policy
resolve-IsResolved_example = resolve-IsResolved Fixed-IsFloat config (some (fixed 300000)) resolved

acquired :
    from_raw_with_clock (reading_at 60000 1000) 1000 100 clock
    ≡ some (cool, record clock { next_batch_id = 1; last_source_unix_ms = some 1000 })
unfolding from_raw_with_clock cool stamp
acquired = refl

from_raw_with_clock-IsAssembled_example :
    IsAssembled Fixed-IsFloat (reading_at 60000 1000) 1000 100 cool
from_raw_with_clock-IsAssembled_example =
    from_raw_with_clock-IsAssembled Fixed-IsFloat (reading_at 60000 1000) 1000 100 clock acquired

pub cool_ok : (classify_frame_with_policy cool policy).kind ≡ AssessmentKind.ok
unfolding classify_frame_with_policy cool sample_of from_raw_with_stale_after signal_spec
    stale_after_ms
cool_ok = refl

pub warm_warns : (classify_frame_with_policy warm policy).kind ≡ AssessmentKind.warn
unfolding classify_frame_with_policy warm sample_of from_raw_with_stale_after signal_spec
    stale_after_ms
warm_warns = refl

classify_frame_with_policy-IsSafe_example : IsSafe Fixed-IsFloat (reading_at 60000 1000) 1000 policy
classify_frame_with_policy-IsSafe_example =
    classify_frame_with_policy-IsSafe Fixed-IsFloat config (some (fixed 300000))
      (reading_at 60000 1000) 1000 100 clock resolved acquired cool_ok

classify_frame_with_policy-Grade_example :
    ((classify_frame_with_policy hot policy).kind ≡ AssessmentKind.critical) ↔ (
      (t : Fixed) × (p : Fixed) × (pw : Fixed) × (pc : Fixed) × IsLive hot policy t p pw pc
      × Grade AssessmentKind.critical policy t p pw pc)
classify_frame_with_policy-Grade_example =
    classify_frame_with_policy-Grade hot policy AssessmentKind.critical refl

no_fault : worst_safety_fault cool ≡ none
unfolding worst_safety_fault cool sample_of from_raw_with_stale_after signal_spec stale_after_ms
no_fault = refl
