-- ===== src/PowerLimit/Leftover.antt =====
-- The limits that the start takes for its own brake, left by an earlier run (src/safety.rs).
use thalamic_relay.Prelude.{
  ℕ, ◌≡◌, ◌↔◌, refl, sym, ◌∙◌, inl, inr, true, Option, none, some, Option-cases, Bool-cases, arith,
  leb, abs_diff, saturating_add, u32_max,
}
use thalamic_relay.Float.{Float}
use thalamic_relay.PowerLimit.{
  should_seed_leftover_brake, unambiguous_brake_target, brake_fraction, observe,
  classify_power_limit,
}
use thalamic_relay.PowerLimit.Ownership.{IsNear}

-- Limits that are those of the relay's own brake: `target` is what it sets for that default.
pub record IsLeft (F : Type 0) ⦃float : Float F⦄ (current_w default_w : Option ℕ) : Type 0 where
  pub current : ℕ
  pub default : ℕ
  pub target : ℕ
  pub current_is : current_w ≡ some current
  pub default_is : default_w ≡ some default
  pub target_is : unambiguous_brake_target default (brake_fraction {F = F}) ≡ some target
  pub near : IsNear current target

seeds_near : (c d t : ℕ) → should_seed_leftover_brake (observe c d t) ≡ leb (abs_diff c t) 2
unfolding observe should_seed_leftover_brake
seeds_near c d t = elim (Bool-cases (leb (abs_diff c t) 2)) [
  | inl near ↦ rw (near, observe) refl
  | inr far ↦ elim (Bool-cases (leb d (saturating_add u32_max c 2))) [
    | inl high ↦ rw (far, high, observe) refl
    | inr low ↦ rw (far, low, observe) refl
  ]
]

module _ (F : Type 0) ⦃float : Float F⦄ where
  known_seeds :
      (c d : ℕ) {t : ℕ}
      → unambiguous_brake_target d (brake_fraction {F = F}) ≡ some t
      → should_seed_leftover_brake (classify_power_limit (some c) (some d) (brake_fraction {F = F}))
        ≡ leb (abs_diff c t) 2
  unfolding classify_power_limit
  known_seeds c d {t} e = rw (e, classify_power_limit) (seeds_near c d t)

  seeds_known :
      (c d : ℕ)
      → should_seed_leftover_brake (classify_power_limit (some c) (some d) (brake_fraction {F = F}))
        ≡ true
      → IsLeft F (some c) (some d)
  unfolding classify_power_limit should_seed_leftover_brake
  seeds_known c d h = elim (Option-cases (unambiguous_brake_target d (brake_fraction {F = F}))) [
    | inl e ↦ absurd (ground (arith, e))
    | inr (t, e) ↦
        let close : leb (abs_diff c t) 2 ≡ true = sym (known_seeds c d e) ∙ h in
        record {
          current = c;
          default = d;
          target = t;
          current_is = refl;
          default_is = refl;
          target_is = e;
          near = (ground arith, ground arith);
        }
  ]

  left_seeds :
      (current_w default_w : Option ℕ)
      → IsLeft F current_w default_w
      → should_seed_leftover_brake
          (classify_power_limit current_w default_w (brake_fraction {F = F}))
        ≡ true
  left_seeds current_w default_w l =
      let close : leb (abs_diff l.current l.target) 2 ≡ true = (let n = l.near in ground arith) in
      rw (l.current_is, l.default_is) (known_seeds l.current l.default l.target_is ∙ close)

  -- Limits are taken for a brake exactly where they are known and the current one is within 2 W of what the relay sets.
  pub seeds-IsLeft_iff :
      (current_w default_w : Option ℕ)
      → (should_seed_leftover_brake
            (classify_power_limit current_w default_w (brake_fraction {F = F}))
          ≡ true)
        ↔ IsLeft F current_w default_w
  unfolding classify_power_limit should_seed_leftover_brake
  seeds-IsLeft_iff none default_w = ((λ h. absurd (cc)), left_seeds none default_w)
  seeds-IsLeft_iff (some c) none = ((λ h. absurd (cc)), left_seeds (some c) none)
  seeds-IsLeft_iff (some c) (some d) = (seeds_known c d, left_seeds (some c) (some d))
