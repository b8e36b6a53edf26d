-- ===== src/Telemetry/Sample/Usable.antt =====
-- Which readings are valid, and the range of a normalized value.
use thalamic_relay.Prelude.{
  ℕ, ◌-◌, ◌≤◌, ◌<◌, ◌≡◌, refl, ◌∙◌, ◌≢◌, ◌↔◌, ◌⊎◌, inl, inr, Bool-cases, true, false, Option, none,
  some, arith,
}
use thalamic_relay.Float.{Float, IsFloat, ◌≺◌, ◌≼◌, IsNumber, clamp}
use thalamic_relay.Time.{UnixMillis}
use thalamic_relay.Telemetry.{
  TelemetrySource, SampleValidity, valid, SignalId, gpu_temp_c, signal_spec, linear, apply,
}
use thalamic_relay.Telemetry.Sample.{
  TelemetrySample, from_raw_with_stale_after, normalized, at_time_from,
}

module _ {F : Type 0} ⦃float : Float F⦄ (laws : IsFloat F) where
  open laws use {number_of_finite, numbers_of_le, le_of_lt, lt_iff_not_le, milli_le, milli_finite}

  -- What makes a reading usable: present, finite, not from the future, inside the engineering range of
  -- its signal, and younger than the threshold.
  abbrev pub IsUsable : SignalId → Option F → (observed_at now stale_after_ms : ℕ) → Type 0
  IsUsable signal raw observed_at now stale_after_ms =
      let spec = signal_spec {F = F} signal in
      (v : F) × (raw ≡ some v)
      × (float.is_finite v ≡ true)
      × ((spec.lo ≼ v) ≡ true)
      × ((v ≼ spec.hi) ≡ true)
      × (observed_at ≤ now)
      × (now - observed_at < stale_after_ms)

  abbrev Verdict : (lo hi : F) → Option F → (observed_at now stale_after_ms : ℕ) → Type 0
  Verdict lo hi raw observed_at now stale_after_ms =
      (v : F) × (raw ≡ some v)
      × (float.is_finite v ≡ true)
      × ((v ≺ lo) ≡ false)
      × ((hi ≺ v) ≡ false)
      × (observed_at ≤ now)
      × (now - observed_at < stale_after_ms)

  spec_range :
      (signal : SignalId)
      → let spec = signal_spec {F = F} signal in IsNumber spec.lo × IsNumber spec.hi
  unfolding signal_spec
  spec_range gpu_temp_c = (milli_le _ _ (omega arith), milli_le _ _ (omega arith))
  spec_range _ = (milli_le _ _ (omega arith), milli_le _ _ (omega arith))

  not_lt_iff_le : (x y : F) → IsNumber x → IsNumber y → ((x ≺ y) ≡ false) ↔ ((y ≼ x) ≡ true)
  not_lt_iff_le x y nx ny = ground (arith, lt_iff_not_le x y nx ny)

  from_raw-Verdict :
      (signal : SignalId) (raw : Option F) (observed_at : UnixMillis) (source : TelemetrySource)
      (now : UnixMillis) (stale_after_ms : ℕ)
      → let spec = signal_spec {F = F} signal in
        let s = from_raw_with_stale_after signal raw observed_at source now stale_after_ms in
        (s.validity ≡ valid) ↔ Verdict spec.lo spec.hi raw observed_at now stale_after_ms
  unfolding from_raw_with_stale_after
  from_raw-Verdict signal none observed_at source now stale_after_ms =
      (λ e. ground arith, λ h. ground arith)
  from_raw-Verdict signal (some v) observed_at source now stale_after_ms = (
    λ e. (v, refl, ground arith, ground arith, ground arith, ground arith, ground arith),
    λ h. ground arith,
  )

  -- A sample is valid exactly when its reading is usable.
  pub from_raw-valid_iff :
      (signal : SignalId) (raw : Option F) (observed_at : UnixMillis) (source : TelemetrySource)
      (now : UnixMillis) (stale_after_ms : ℕ)
      → let s = from_raw_with_stale_after signal raw observed_at source now stale_after_ms in
        (s.validity ≡ valid) ↔ IsUsable signal raw observed_at now stale_after_ms
  from_raw-valid_iff signal raw observed_at source now stale_after_ms =
      let (number_lo, number_hi) = spec_range signal in
      let verdict = from_raw-Verdict signal raw observed_at source now stale_after_ms in
      (
        λ e.
            let (v, is, finite, low, high, past, fresh) = verdict.0 e in
            let number = number_of_finite v finite in
            (
              v,
              is,
              finite,
              (not_lt_iff_le v _ number number_lo).0 low,
              (not_lt_iff_le _ v number_hi number).0 high,
              past,
              fresh,
            ),
        λ (v, is, finite, low, high, past, fresh).
            let number = number_of_finite v finite in
            verdict.1 (
              v,
              is,
              finite,
              (not_lt_iff_le v _ number number_lo).1 low,
              (not_lt_iff_le _ v number_hi number).1 high,
              past,
              fresh,
            ),
      )

  clamp_bounds :
      (lo hi x : F)
      → (lo ≼ hi) ≡ true
      → IsNumber x
      → ((lo ≼ clamp lo hi x) ≡ true) × ((clamp lo hi x ≼ hi) ≡ true)
  clamp_bounds lo hi x h number =
      let (number_lo, number_hi) = numbers_of_le lo hi h in
      ground (
        arith,
        lt_iff_not_le x lo number number_lo,
        lt_iff_not_le hi x number_hi number,
        lt_iff_not_le hi lo number_hi number_lo,
      )

  -- The model input of a value lies between 0 and 1.
  abbrev pub IsModelInput : F → Type 0
  IsModelInput x = ((float.milli 0 ≼ x) ≡ true) × ((x ≼ float.milli 1000) ≡ true)

  -- The linear normalization of a finite value, whatever the limits are: where they are equal or too
  -- close or their difference overflows, it is 0.
  apply-linear-IsModelInput :
      (lo hi : ℕ) (v : F)
      → lo ≤ 16000000
      → float.is_finite v ≡ true
      → IsModelInput (apply (linear (float.milli lo) (float.milli hi)) v)
  unfolding apply
  apply-linear-IsModelInput lo hi v small finite =
      let span = float.sub (float.milli hi) (float.milli lo) in
      elim (Bool-cases (float.is_finite span)) [
        | inl f ↦ elim (Bool-cases (float.abs span ≺ float.epsilon)) [
          | inl e ↦ rw (f, e) (milli_le 0 0 (omega arith), milli_le 0 1000 (omega arith))
          | inr e ↦
              rw (f, e)
                (clamp_bounds _ _ _ (milli_le 0 1000 (omega arith))
                  (laws.div_number _ _ (laws.sub_number _ _ finite (milli_finite lo small)) f e))
        ]
        | inr f ↦ rw f (milli_le 0 0 (omega arith), milli_le 0 1000 (omega arith))
      ]

  apply-spec-IsModelInput :
      (signal : SignalId) (v : F)
      → float.is_finite v ≡ true
      → let spec = signal_spec {F = F} signal in IsModelInput (apply spec.normalization v)
  unfolding signal_spec
  apply-spec-IsModelInput gpu_temp_c v f = apply-linear-IsModelInput _ _ v (omega arith) f
  apply-spec-IsModelInput _ v f = apply-linear-IsModelInput _ _ v (omega arith) f

  SampleValidity-discrete : Discrete SampleValidity
  SampleValidity-discrete = hlevel

  normalized_valid :
      (s : TelemetrySample F) (v : F)
      → s.validity ≡ valid
      → s.value ≡ some v
      → let spec = signal_spec {F = F} s.signal in normalized s ≡ some (apply spec.normalization v)
  unfolding normalized
  normalized_valid s v e is = rw (e, is)

  pub normalized_unusable : (s : TelemetrySample F) → s.validity ≢ valid → normalized s ≡ none
  unfolding normalized
  normalized_unusable s h = ground arith

  pub from_raw-value :
      (signal : SignalId) (raw : Option F) (observed_at : UnixMillis) (source : TelemetrySource)
      (now : UnixMillis) (stale_after_ms : ℕ)
      → let s = from_raw_with_stale_after signal raw observed_at source now stale_after_ms in
        s.validity ≡ valid → (s.value ≡ raw) × (s.signal ≡ signal)
  unfolding from_raw_with_stale_after
  from_raw-value signal none observed_at source now stale_after_ms e = ground arith
  from_raw-value signal (some v) observed_at source now stale_after_ms e = ground arith

  -- A sample that was validated from a raw reading has a model input exactly when it is valid, and the
  -- model input lies between 0 and 1.
  pub normalized-from_raw :
      (signal : SignalId) (raw : Option F) (observed_at : UnixMillis) (source : TelemetrySource)
      (now : UnixMillis) (stale_after_ms : ℕ)
      → let s = from_raw_with_stale_after signal raw observed_at source now stale_after_ms in
        ((s.validity ≢ valid) × (normalized s ≡ none))
        ⊎ ((s.validity ≡ valid) × ((x : F) × (normalized s ≡ some x) × IsModelInput x))
  normalized-from_raw signal raw observed_at source now stale_after_ms =
      let s = from_raw_with_stale_after signal raw observed_at source now stale_after_ms in
      elim (SampleValidity-discrete s.validity valid) [
        | yes e ↦
            let (v, is, finite, low, high, past, fresh) =
              (from_raw-valid_iff signal raw observed_at source now stale_after_ms).0 e in
            let (kept, same) = from_raw-value signal raw observed_at source now stale_after_ms e in
            inr (
              e,
              (_, normalized_valid s v e (kept ∙ is), apply-spec-IsModelInput s.signal v finite),
            )
        | no h ↦ inl (h, normalized_unusable s h)
      ]

  -- Re-evaluating a held sample never makes an unusable one valid, keeps its value, and a valid one
  -- stays valid exactly while it is younger than the threshold since its receipt.
  pub at_time_from-valid_iff :
      (s : TelemetrySample F) (now received_at : UnixMillis) (stale_after_ms : ℕ)
      → let t = at_time_from s now received_at stale_after_ms in
        (t.value ≡ s.value)
        × ((t.validity ≡ valid)
            ↔ ((s.validity ≡ valid) × ((s.value ≡ none) ⊎ (now - received_at < stale_after_ms))))
  unfolding at_time_from
  at_time_from-valid_iff s now received_at stale_after_ms =
      (ground arith, (λ e. (ground arith, ground arith), λ h. ground arith))
