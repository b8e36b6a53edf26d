-- ===== src/Metrics/Gauges.antt =====
-- src/cpu.rs and src/publish.rs: the gauges that are set. A gauge is its name, its label and its value;
-- the metrics crate stores them.
use thalamic_relay.Prelude.{
  ℕ, ◌+◌, ◌≡◌, refl, Bool, true, false, ◌==◌, if◌then◌else◌, String, List, [], ◌∷◌, ◌++◌, map,
}
use thalamic_relay.Machine.{
  SafetyState, healthy_real, warning, critical_braked, recovering, telemetry_missing,
  telemetry_stale, telemetry_invalid, simulated_software_only, actuator_failure, as_id, same_state,
  as_str,
}
use thalamic_relay.Metrics.{RelayMetrics, freshness_seconds_monotonic}
use thalamic_relay.Publish.{QueueFullPolicy, QueueConfig}
use thalamic_relay.Publish.Exposition.{all_policies, policy_id}

pub record Gauge : Type 0 where
  pub name : String
  pub label : String
  pub value : ℕ

abbrev plain : String → ℕ → Gauge
plain name value = record { name = name; label = ""; value = value }

abbrev flag : Bool → ℕ
flag b = if b then 1 else 0

-- `SafetyState::ALL`.
abbrev pub all_states : List SafetyState
all_states =
    healthy_real ∷ warning ∷ critical_braked ∷ recovering ∷ telemetry_missing ∷ telemetry_stale
    ∷ telemetry_invalid ∷ simulated_software_only ∷ actuator_failure ∷ []

-- The gauges of one name, one for each state, of which that of the state is 1.
one_hot : (name : String) → SafetyState → List SafetyState → List Gauge
unfolding same_state as_str
one_hot name state [] = []
one_hot name state (s ∷ rest) =
    record { name = name; label = as_str s; value = flag (same_state s state) }
    ∷ one_hot name state rest

unfoldable pub export_safety_gauges :
    (state policy_state : SafetyState)
    → (brake_engaged : Bool) → (hysteresis_ok_count : ℕ) → List Gauge
unfolding one_hot as_id
export_safety_gauges state policy_state brake_engaged hysteresis_ok_count =
    one_hot "safety_state" state all_states
    ++ one_hot "safety_policy_state" policy_state all_states
    ++ plain "safety_state_id" (as_id state)
      ∷ plain "safety_policy_state_id" (as_id policy_state)
      ∷ plain "safety_brake_engaged" (flag brake_engaged)
      ∷ plain "safety_hysteresis_ok_count" hysteresis_ok_count
      ∷ []

-- A round of `run_metrics_collector` at the time `now`, unless the shutdown is already seen; the flag
-- says that it goes on. `woken` is what the `select!` sees: the shutdown, or the end of the sleep.
unfoldable pub collector_round :
    (stopped : Bool) → RelayMetrics → (now : ℕ) → (woken : Bool) → Bool × List Gauge
unfolding export_safety_gauges freshness_seconds_monotonic
collector_round true metrics now woken = (false, [])
collector_round false metrics now woken = (
  (if woken then false else true),
  plain "telemetry_freshness_s" (freshness_seconds_monotonic metrics.telemetry_received_instant now)
      ∷ export_safety_gauges metrics.safety_state metrics.policy_state metrics.brake_engaged
          metrics.hysteresis_ok_count,
)

policy_gauge : QueueFullPolicy → QueueFullPolicy → Gauge
unfolding thalamic_relay.Publish.as_str
policy_gauge policy p = record {
  name = "sensory_queue_full_policy";
  label = thalamic_relay.Publish.as_str p;
  value = flag (policy_id p == policy_id policy);
}

unfoldable pub export_queue_gauges : (depth capacity : ℕ) → QueueFullPolicy → List Gauge
unfolding policy_gauge
export_queue_gauges depth capacity policy =
    plain "sensory_queue_depth" depth
    ∷ plain "sensory_queue_capacity" capacity
    ∷ map (policy_gauge policy) all_policies

total : List Gauge → ℕ
total [] = 0
total (g ∷ gs) = g.value + total gs

-- Of the gauges of the states exactly one is 1, whatever the state.
total-one_hot : (name : String) (state : SafetyState) → total (one_hot name state all_states) ≡ 1
unfolding total one_hot same_state as_id
total-one_hot name healthy_real = refl
total-one_hot name warning = refl
total-one_hot name critical_braked = refl
total-one_hot name recovering = refl
total-one_hot name telemetry_missing = refl
total-one_hot name telemetry_stale = refl
total-one_hot name telemetry_invalid = refl
total-one_hot name simulated_software_only = refl
total-one_hot name actuator_failure = refl
