-- ===== src/Prelude/Partial.antt =====
-- Options as results of code that may panic, and predicates on what it returns.
use mathlib.Core.Option.{Option, none, some}

module _ {ℓ κ} {A : Type ℓ} where
  -- A predicate on the result of code that may panic.
  abbrev pub Holds : (A → Type κ) → Option A → Type κ
  Holds Q none = Unit
  Holds Q (some a) = Q a

module _ {ℓ κ} {A : Type ℓ} {B : Type κ} where
  -- Rust's `and_then`, or a call after one that may panic.
  abbrev pub and_then : Option A → (A → Option B) → Option B
  and_then none f = none
  and_then (some a) f = f a

  pub Holds-and_then {μ ν} :
      (R : A → Type ν) (Q : B → Type μ) (o : Option A) (f : A → Option B)
      → Holds R o
      → ((a : A) → R a → Holds Q (f a))
      → Holds Q (and_then o f)
  Holds-and_then R Q none f r h = tt
  Holds-and_then R Q (some a) f r h = h a r

-- A predicate on the state that a pair ends in.
abbrev pub OnState {ℓ κ μ} : {A : Type ℓ} {S : Type κ} → (S → Type μ) → A × S → Type μ
OnState Q (a, s) = Q s
