-- ===== src/Machine/Default.antt =====
-- src/safety.rs: what works without an envelope of the device: the functions that take the default
-- policy. `none` is the panic of `expect`.
use thalamic_relay.Prelude.{
  ◌≡◌, ◌≢◌, refl, ◌∙◌, ap, Option, none, some, and_then, Result, ok, err, Bool, arith, Option-cases,
  inl, inr,
}
use thalamic_relay.Float.{Float}
use thalamic_relay.Telemetry.Frame.{TelemetryFrame}
use thalamic_relay.Policy.{SafetyPolicy, resolve}
use thalamic_relay.Classify.{
  SafetyStatus, AssessmentKind, FrameAssessment, classify_frame_with_policy,
  instant_status_with_policy,
}
use thalamic_relay.Classify.Grade.{classify_frame_with_policy-Grade}
use thalamic_relay.Machine.{SafetyMachine, with_policy}

abbrev ok_policy {ℓ κ} : {A : Type ℓ} {E : Type κ} → Result A E → Option A
ok_policy (ok a) = some a
ok_policy (err e) = none

module _ {F : Type 0} ⦃float : Float F⦄ where
  unfoldable pub default_policy : Option (SafetyPolicy F)
  default_policy = ok_policy (resolve thalamic_relay.Policy.default none)

  unfoldable pub instant_status : TelemetryFrame F → Option (SafetyStatus × Bool)
  instant_status frame =
      and_then default_policy λ policy. some (instant_status_with_policy frame policy)

  unfoldable pub classify_frame : TelemetryFrame F → Option FrameAssessment
  unfolding default_policy
  classify_frame frame =
      and_then default_policy λ policy. some (classify_frame_with_policy frame policy)

  -- `SafetyMachine::new`.
  unfoldable pub new_machine : Option (SafetyMachine F)
  new_machine = and_then default_policy λ policy. some (with_policy policy)

  no_envelope :
      {policy : SafetyPolicy F} → default_policy ≡ some policy → policy.power_limits_w ≡ none
  unfolding default_policy resolve thalamic_relay.Policy.default
  no_envelope {policy} h = ground arith

  -- Without an envelope of the device no frame is healthy, whatever it reads.
  pub classify_frame_not_ok :
      (f : TelemetryFrame F) {a : FrameAssessment}
      → classify_frame f ≡ some a
      → a.kind ≢ AssessmentKind.ok
  unfolding classify_frame
  classify_frame_not_ok f {a} h healthy = elim (Option-cases default_policy) [
    | inl e ↦ absurd (ground (arith, e))
    | inr (policy, e) ↦
        let same : classify_frame_with_policy f policy ≡ a = ground (arith, e) in
        let good = ap (λ (x : FrameAssessment). x.kind) same ∙ healthy in
        let (t, p, pw, pc, live, grade) =
          (classify_frame_with_policy-Grade f policy AssessmentKind.ok refl).0 good in
        let none_there = no_envelope e in let some_there = live.limits in cc
  ]
