-- ===== src/Publish/Config.antt =====
-- The configurations that `QueueConfig::new` accepts, and the policy's text forms.
use thalamic_relay.Prelude.{ℕ, ◌≤◌, ◌<◌, ◌≡◌, refl, ◌↔◌, ok, err, arith}
use thalamic_relay.Publish.{
  QueueFullPolicy, as_str, as_cli_str, from_str, capacity_too_small, capacity_too_large, new,
}

-- A configuration is accepted exactly for a capacity from 1 to 4096, and then it keeps both inputs;
-- the error names the bound that the capacity misses.
pub new-accepts_iff :
    (capacity : ℕ) (policy : QueueFullPolicy)
    → ((new capacity policy ≡ ok (record { capacity = capacity; policy = policy }))
        ↔ ((1 ≤ capacity) × (capacity ≤ 4096)))
      × ((new capacity policy ≡ err (capacity_too_small capacity 1)) ↔ (capacity ≡ 0))
      × ((new capacity policy ≡ err (capacity_too_large capacity 4096)) ↔ (4096 < capacity))
unfolding new
new-accepts_iff capacity policy = (
  (λ e. (ground arith, ground arith), λ h. ground arith),
  (λ e. ground arith, λ h. ground arith),
  (λ e. ground arith, λ h. ground arith),
)

-- Both text forms of a policy parse back to it.
pub from_str-as_str :
    (p : QueueFullPolicy) → (from_str (as_str p) ≡ ok p) × (from_str (as_cli_str p) ≡ ok p)
unfolding from_str as_str as_cli_str
from_str-as_str QueueFullPolicy.drop_oldest = (refl, refl)
from_str-as_str QueueFullPolicy.reject_newest = (refl, refl)
