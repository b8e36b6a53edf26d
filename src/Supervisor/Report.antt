-- ===== src/Supervisor/Report.antt =====
-- src/daemon.rs: what is logged, and the flags that keep a line from being repeated. A function returns
-- the lines that it prints and the new flag; `show_power` and `show_volts` are `{:5.1}` and `{:.3}`.
use thalamic_relay.Prelude.{
  ℕ, zero, suc, ◌+◌, ◌≡◌, refl, Bool, true, false, if◌then◌else◌, Option, none, some, String,
  concat, show_u64, List, [], ◌∷◌, ◌++◌, replicate, is_some,
}
use thalamic_relay.Telemetry.{TelemetrySource, SampleValidity, valid, missing, invalid, stale}
use thalamic_relay.Telemetry.Sample.{TelemetrySample}
use thalamic_relay.Telemetry.Frame.{TelemetryFrame}
use thalamic_relay.Machine.{
  SafetyState, healthy_real, warning, critical_braked, recovering, telemetry_missing,
  telemetry_stale, telemetry_invalid, simulated_software_only, actuator_failure, SafetySnapshot,
  as_str,
}
use thalamic_relay.Gate.{NvmlRunError, busy}

-- Whether to log, and the new `warned_busy`.
unfoldable pub should_log_acquisition_error :
    (warned_busy : Bool) → Option NvmlRunError → Bool × Bool
should_log_acquisition_error warned_busy none = (false, false)
should_log_acquisition_error true (some busy) = (false, true)
should_log_acquisition_error false (some busy) = (true, true)
should_log_acquisition_error warned_busy (some _) = (true, false)

transition_lines : SafetySnapshot → Option (SafetyState × SafetyState) → List String
unfolding as_str
transition_lines snap none = []
transition_lines snap (some (from, to)) =
    concat
      ("[relay] safety " ∷ as_str from ∷ " → " ∷ as_str to ∷ " (" ∷ snap.last_reason ∷ ")" ∷ [])
    ∷ []

on_transition : String → SafetySnapshot → List String
on_transition label snap =
    if is_some snap.transition
    then concat ("[relay] SAFETY " ∷ label ∷ ": " ∷ snap.last_reason ∷ []) ∷ []
    else []

held_line : String
held_line =
    "[relay] SAFETY: brake held — telemetry is simulated (no real GPU readings to confirm safe release)"

failure_lines : (failed : Bool) → Option String → List String
failure_lines true (some e) = concat ("[relay] SAFETY actuator failure: " ∷ e ∷ []) ∷ []
failure_lines _ _ = []

-- The `match` on the state.
state_lines : SafetyState → SafetySnapshot → (warned : Bool) → List String × Bool
unfolding on_transition held_line failure_lines
state_lines critical_braked snap warned = (on_transition "CRITICAL" snap, warned)
state_lines telemetry_missing snap warned = (on_transition "CRITICAL" snap, warned)
state_lines telemetry_stale snap warned = (on_transition "CRITICAL" snap, warned)
state_lines telemetry_invalid snap warned = (on_transition "CRITICAL" snap, warned)
state_lines warning snap warned = (on_transition "WARN" snap, warned)
state_lines simulated_software_only snap warned =
    if snap.brake_engaged then (if warned then [] else held_line ∷ [], true) else ([], false)
state_lines actuator_failure snap warned =
    (failure_lines snap.actuator_failed snap.last_actuator_error, warned)
state_lines healthy_real snap warned = ([], false)
state_lines recovering snap warned = ([], false)

unfoldable pub log_safety_snapshot :
    SafetySnapshot → (warned_brake_held_sim : Bool) → List String × Bool
unfolding transition_lines state_lines
log_safety_snapshot snap warned =
    let (lines, warned') = state_lines snap.state snap warned in
    (transition_lines snap snap.transition ++ lines, warned')

-- Both are tested before the value is shown.
reading_text : {F : Type 0} → (F → String) → SampleValidity → Option F → String
reading_text show valid (some v) = show v
reading_text show stale _ = "stale"
reading_text show invalid _ = "inv"
reading_text show missing _ = "n/a"
reading_text show valid none = "n/a"

unfoldable pub format_live_reading : {F : Type 0} → TelemetrySample F → (F → String) → String
unfolding reading_text
format_live_reading sample show = reading_text show sample.validity sample.value

source_tag : TelemetrySource → String
source_tag TelemetrySource.software_fallback = " [sim]"
source_tag TelemetrySource.nvml_unavailable = " [unavail]"
source_tag TelemetrySource.nvml = ""

unfoldable pub print_dashboard :
    {F : Type 0}
    → (show_power show_volts : F → String) → TelemetryFrame F
    → (step : ℕ) → SafetyState
    → String
unfolding format_live_reading source_tag as_str
print_dashboard show_power show_volts frame step safety = concat (
    "\r[Step "
    ∷ show_u64 step
    ∷ "] Pwr: "
    ∷ format_live_reading frame.power_w show_power
    ∷ " | Vddcr: "
    ∷ format_live_reading frame.vddcr_gfx_v show_volts
    ∷ source_tag frame.source
    ∷ " | safety: "
    ∷ as_str safety
    ∷ "   "
    ∷ [])

-- How many of the reads in a row are logged.
logged : Bool → List (Option NvmlRunError) → ℕ
unfolding should_log_acquisition_error
logged warned [] = 0
logged warned (e ∷ es) =
    let (log, warned') = should_log_acquisition_error warned e in
    let rest = logged warned' es in if log then 1 + rest else rest

-- However long the gate stays busy, this is logged once: no read after the first is.
busy_logged_once : (n : ℕ) → logged true (replicate n (some busy)) ≡ 0
unfolding logged should_log_acquisition_error
busy_logged_once zero = refl
busy_logged_once (suc n) = busy_logged_once n
