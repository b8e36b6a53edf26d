-- ===== src/PowerLimit/Ownership.antt =====
-- Whose power limit it is: the relay's own brake, the device default, or a foreign cap.
use thalamic_relay.Prelude.{
  ℕ, ◌+◌, ◌≤◌, ◌<◌, ◌≡◌, refl, ◌⊎◌, inl, inr, Option, none, some, Option-cases, Bool-cases, leb,
  abs_diff, saturating_add, ok, arith, u32_max,
}
use thalamic_relay.Float.{Float}
use thalamic_relay.PowerLimit.{
  BrakeMatch, PowerLimitObservation, unreadable, at_or_above_default, relay_owned_brake,
  foreign_sub_default_cap, brake_fraction, unambiguous_brake_target, observe, classify_power_limit,
  detect_engaged_brake, plan_brake_apply, plan_brake_release,
}

-- Within the 2 W that the relay tolerates.
abbrev pub IsNear : ℕ → ℕ → Type 0
IsNear a b = (a ≤ b + 2) × (b ≤ a + 2)

abbrev pub brake_at : (current default target : ℕ) → BrakeMatch
brake_at current default target = record {
  current_w = current;
  default_w = default;
  expected_w = target;
}

-- What each observation says of readable limits.
abbrev pub Observed : (current default : ℕ) → (target : Option ℕ) → PowerLimitObservation → Type 0
Observed c d target unreadable = target ≡ none
Observed c d target (at_or_above_default c' d') =
    (c' ≡ c) × (d' ≡ d) × (d ≤ c + 2) × ((t : ℕ) × (target ≡ some t) × (t + 4 < d))
Observed c d target (relay_owned_brake m) =
    (t : ℕ) × (target ≡ some t) × (m ≡ brake_at c d t) × IsNear c t × (c + 2 < d)
Observed c d target (foreign_sub_default_cap c' d' t) =
    (target ≡ some t) × (c' ≡ c) × (d' ≡ d) × (¬ IsNear c t) × (c + 2 < d)

observe-Observed : (c d t : ℕ) → t + 4 < d → d ≤ u32_max → Observed c d (some t) (observe c d t)
unfolding observe
observe-Observed c d t gap h = elim (Bool-cases (leb (abs_diff c t) 2)) [
  | inl near ↦ rw (near, observe) (t, refl, refl, ground arith, ground arith)
  | inr far ↦ elim (Bool-cases (leb d (saturating_add u32_max c 2))) [
    | inl high ↦ rw (far, high, observe) (refl, refl, ground arith, (t, refl, gap))
    | inr low ↦ rw (far, low, observe) (refl, refl, refl, (λ n. ground arith), ground arith)
  ]
]

module _ {F : Type 0} ⦃float : Float F⦄ where
  -- A brake target is positive, and both tolerance bands fit between it and the default.
  pub unambiguous_brake_target_bounds :
      (default : ℕ) (pct : F) {target : ℕ}
      → unambiguous_brake_target default pct ≡ some target
      → (0 < target) × (target + 4 < default)
  unfolding unambiguous_brake_target
  unambiguous_brake_target_bounds default pct h = ground arith

  -- The four observations exclude one another and say what they are named for: with a brake target,
  -- a limit within 2 W of it is the relay's brake, and is then more than 2 W under the default; one
  -- within 2 W of the default or above is no cap; any other is foreign.
  pub classify_power_limit-Observed :
      (c d : ℕ) (pct : F)
      → d ≤ u32_max
      → Observed c d (unambiguous_brake_target d pct) (classify_power_limit (some c) (some d) pct)
  unfolding classify_power_limit
  classify_power_limit-Observed c d pct h = elim (Option-cases (unambiguous_brake_target d pct)) [
    | inl e ↦ rw (e, classify_power_limit) refl
    | inr (t, e) ↦
        let (pos, gap) = unambiguous_brake_target_bounds d pct e in
        rw (e, classify_power_limit) (observe-Observed c d t gap h)
  ]

module _ (F : Type 0) ⦃float : Float F⦄ where
  -- What `apply_emergency_brake` plans for readable limits: a target to set only where the current
  -- limit is within 2 W of the default or above, nothing where the brake is already on, and a refusal
  -- for every foreign cap. The target lies more than 4 W below the default.
  pub plan_brake_apply_lem :
      (c d : ℕ) {plan : Option ℕ}
      → plan_brake_apply (some c) (some d) (brake_fraction {F = F}) ≡ ok plan
      → (t : ℕ) × (unambiguous_brake_target d (brake_fraction {F = F}) ≡ some t)
        × (t + 4 < d)
        × (((plan ≡ some t) × (d ≤ c + 2)) ⊎ ((plan ≡ none) × IsNear c t))
  unfolding plan_brake_apply
  plan_brake_apply_lem c d h =
      elim (Option-cases (unambiguous_brake_target d (brake_fraction {F = F}))) [
        | inl e ↦ absurd (ground arith)
        | inr (t, e) ↦
            let (pos, gap) = unambiguous_brake_target_bounds d brake_fraction e in
            (t, e, gap, ground arith)
      ]

  -- `release_emergency_brake` restores nothing but the default, and only from within 2 W of the
  -- relay's own target.
  pub plan_brake_release_lem :
      (c d : ℕ) {w : ℕ}
      → plan_brake_release F (some c) (some d) ≡ ok w
      → (w ≡ d)
        × ((t : ℕ) × (unambiguous_brake_target d (brake_fraction {F = F}) ≡ some t) × IsNear c t)
  unfolding plan_brake_release
  plan_brake_release_lem c d h =
      elim (Option-cases (unambiguous_brake_target d (brake_fraction {F = F}))) [
        | inl e ↦ absurd (ground arith)
        | inr (t, e) ↦ (ground arith, (t, e, ground arith))
      ]

  -- The limit that a brake sets is recognised after a restart, and its release restores the default:
  -- for every plan of `plan_brake_apply` that sets a limit.
  pub plan_brake_release-apply :
      (c d : ℕ) {t : ℕ}
      → plan_brake_apply (some c) (some d) (brake_fraction {F = F}) ≡ ok (some t)
      → (detect_engaged_brake (some t, some d) (brake_fraction {F = F}) ≡ some (brake_at t d t))
        × (plan_brake_release F (some t) (some d) ≡ ok d)
  unfolding plan_brake_release detect_engaged_brake
  plan_brake_release-apply c d h =
      let (t', e, gap, cases) = plan_brake_apply_lem c d h in
      let (pos, wide) = unambiguous_brake_target_bounds d brake_fraction e in
      (ground arith, ground arith)
