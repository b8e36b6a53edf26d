-- ===== src/Publish/Queue/Slots.antt =====
-- Arrays of counters: their sum after one of them changes.
use thalamic_relay.Prelude.{
  ℕ, zero, suc, ◌+◌, ◌≤◌, ◌<◌, ◌≡◌, refl, List, [], ◌∷◌, length, arith, ap, u64_max,
}
use thalamic_relay.Publish.{DropReason, as_id}
use thalamic_relay.Publish.Queue.{saturating_add_at, fetch_add_at, wrapping_sum, zip_add}

abbrev pub sum : List ℕ → ℕ
sum [] = 0
sum (n ∷ ns) = n + sum ns

pub length-saturating_add_at :
    (i n : ℕ) (slots : List ℕ) → length (saturating_add_at i n slots) ≡ length slots
unfolding saturating_add_at
length-saturating_add_at i n [] = refl
length-saturating_add_at zero n (slot ∷ slots) = refl
length-saturating_add_at (suc i) n (slot ∷ slots) = ap suc (length-saturating_add_at i n slots)

pub length-fetch_add_at : (i : ℕ) (slots : List ℕ) → length (fetch_add_at i slots) ≡ length slots
unfolding fetch_add_at
length-fetch_add_at i [] = refl
length-fetch_add_at zero (slot ∷ slots) = refl
length-fetch_add_at (suc i) (slot ∷ slots) = ap suc (length-fetch_add_at i slots)

pub sum-saturating_add_at :
    (i n : ℕ) (slots : List ℕ)
    → i < length slots
    → sum slots + n ≤ u64_max
    → sum (saturating_add_at i n slots) ≡ sum slots + n
unfolding saturating_add_at
sum-saturating_add_at i n [] h small = absurd (omega arith)
sum-saturating_add_at zero n (slot ∷ slots) h small = ground arith
sum-saturating_add_at (suc i) n (slot ∷ slots) h small =
    omega (arith, sum-saturating_add_at i n slots (omega arith) (omega arith))

pub sum-fetch_add_at :
    (i : ℕ) (slots : List ℕ)
    → i < length slots
    → sum slots + 1 ≤ u64_max
    → sum (fetch_add_at i slots) ≡ sum slots + 1
unfolding fetch_add_at
sum-fetch_add_at i [] h small = absurd (omega arith)
sum-fetch_add_at zero (slot ∷ slots) h small = ground arith
sum-fetch_add_at (suc i) (slot ∷ slots) h small =
    omega (arith, sum-fetch_add_at i slots (omega arith) (omega arith))

pub as_id_bound : (r : DropReason) → as_id r < 6
unfolding as_id
as_id_bound r = ground arith

-- Where two arrays of one length sum to a u64, the sum of their sums has no overflow.
pub wrapping_sum-zip_add :
    (xs ys : List ℕ)
    → length xs ≡ length ys
    → sum xs + sum ys ≤ u64_max
    → wrapping_sum (zip_add xs ys) ≡ sum xs + sum ys
wrapping_sum-zip_add [] [] same small = refl
wrapping_sum-zip_add [] (y ∷ ys) same small = absurd (omega arith)
wrapping_sum-zip_add (x ∷ xs) [] same small = absurd (omega arith)
wrapping_sum-zip_add (x ∷ xs) (y ∷ ys) same small =
    let rest = wrapping_sum-zip_add xs ys (omega arith) (omega arith) in ground (arith, rest)
