-- ===== src/Publish/Queue/Order.antt =====
-- Which frames a full queue keeps, against the list of all that were offered.
use thalamic_relay.Prelude.{
  ℕ, zero, suc, ◌-◌, ◌≤◌, ◌≡◌, refl, sym, ap, ap₂, ◌∙◌, Bool, true, false, List, [], ◌∷◌, ◌++◌,
  length, drop, length-append, arith, ltb,
}
use thalamic_relay.Publish.{QueueFullPolicy}
use thalamic_relay.Publish.Queue.{QueueInner, enqueue_full, enqueue_on, enqueue_locked}
use thalamic_relay.Publish.Queue.Bounds.{push_pop_length}

module _ {ℓ} {A : Type ℓ} where
  abbrev pub take : ℕ → List A → List A
  take zero xs = []
  take (suc n) [] = []
  take (suc n) (x ∷ xs) = x ∷ take n xs

  -- The last `n` elements.
  abbrev pub newest : ℕ → List A → List A
  newest n xs = drop (length xs - n) xs

  snoc_append : (xs : List A) (y : A) (ys : List A) → (xs ++ (y ∷ [])) ++ ys ≡ xs ++ (y ∷ ys)
  snoc_append [] y ys = refl
  snoc_append (x ∷ xs) y ys = ap (λ l. x ∷ l) (snoc_append xs y ys)

  take_append : (xs ys : List A) → take (length xs) (xs ++ ys) ≡ xs
  take_append [] ys = refl
  take_append (x ∷ xs) ys = ap (λ l. x ∷ l) (take_append xs ys)

  take_all : (n : ℕ) (xs : List A) → length xs ≤ n → take n xs ≡ xs
  take_all zero [] h = refl
  take_all zero (x ∷ xs) h = absurd (omega arith)
  take_all (suc n) [] h = refl
  take_all (suc n) (x ∷ xs) h = ap (λ l. x ∷ l) (take_all n xs (omega arith))

  newest_all : (n : ℕ) (xs : List A) → length xs ≤ n → newest n xs ≡ xs
  newest_all n xs h = let none_over : length xs - n ≡ 0 = omega arith in rw none_over refl

  newest_tail : (n : ℕ) (x : A) (xs : List A) → n ≤ length xs → newest n (x ∷ xs) ≡ newest n xs
  newest_tail n x xs h =
      let over : suc (length xs) - n ≡ suc (length xs - n) = omega arith in rw over refl

  -- Room for one more is made at the front.
  newest_shift :
      (n : ℕ) (xs : List A) (y : A) (ys : List A)
      → length xs ≡ n
      → 1 ≤ n
      → newest n ((drop 1 xs ++ (y ∷ [])) ++ ys) ≡ newest n (xs ++ (y ∷ ys))
  newest_shift n [] y ys h one = absurd (omega arith)
  newest_shift n (x ∷ xs) y ys h one =
      ap (newest n) (snoc_append xs y ys)
      ∙ sym (newest_tail n x (xs ++ (y ∷ ys)) (omega (arith, length-append xs (y ∷ ys))))

module _ {T : Type 0} where
  -- Offers one after the other, with no reception in between.
  unfoldable pub enqueue_all : QueueInner T → List T → QueueInner T
  unfolding enqueue_locked
  enqueue_all q [] = q
  enqueue_all q (item ∷ rest) = enqueue_all (enqueue_locked q item).1 rest

  -- What the queue keeps of the frames it has and the frames it is offered.
  abbrev pub kept : QueueFullPolicy → ℕ → List T → List T
  kept QueueFullPolicy.drop_oldest capacity frames = newest capacity frames
  kept QueueFullPolicy.reject_newest capacity frames = take capacity frames

  abbrev IsOpen : QueueInner T → Type 0
  IsOpen q = (q.connected ≡ true) × (length q.buf ≤ q.capacity) × (1 ≤ q.capacity)

  kept_all : (p : QueueFullPolicy) (n : ℕ) (xs : List T) → length xs ≤ n → kept p n xs ≡ xs
  kept_all QueueFullPolicy.drop_oldest n xs h = newest_all n xs h
  kept_all QueueFullPolicy.reject_newest n xs h = take_all n xs h

  kept-enqueue_full :
      (p : QueueFullPolicy) (q : QueueInner T) (item : T) (rest : List T)
      → length q.buf ≡ q.capacity
      → 1 ≤ q.capacity
      → kept p q.capacity ((enqueue_full p q item).1.buf ++ rest)
        ≡ kept p q.capacity (q.buf ++ (item ∷ rest))
  unfolding enqueue_full
  kept-enqueue_full QueueFullPolicy.drop_oldest q item rest full one =
      newest_shift q.capacity q.buf item rest full one
  kept-enqueue_full QueueFullPolicy.reject_newest q item rest full one =
      rw (sym full) (take_append q.buf rest ∙ sym (take_append q.buf (item ∷ rest)))

  enqueue_full_frame :
      (p : QueueFullPolicy) (q : QueueInner T) (item : T)
      → length q.buf ≡ q.capacity
      → 1 ≤ q.capacity
      → let q' = (enqueue_full p q item).1 in
        (q'.connected ≡ q.connected)
        × (q'.policy ≡ q.policy)
        × (q'.capacity ≡ q.capacity)
        × (length q'.buf ≤ q.capacity)
  unfolding enqueue_full
  enqueue_full_frame QueueFullPolicy.drop_oldest q item full one =
      (refl, refl, refl, omega (arith, push_pop_length item q.buf (omega arith)))
  enqueue_full_frame QueueFullPolicy.reject_newest q item full one = (refl, refl, refl, omega arith)

  -- One offer: the frames that count in the end are the same, and the queue stays open.
  enqueue_on-kept :
      (connected room : Bool) (q : QueueInner T) (item : T) (rest : List T)
      → q.connected ≡ connected
      → ltb (length q.buf) q.capacity ≡ room
      → IsOpen q
      → let q' = (enqueue_on connected room q item).1 in
        (kept q.policy q.capacity (q'.buf ++ rest)
          ≡ kept q.policy q.capacity (q.buf ++ (item ∷ rest)))
        × (q'.policy ≡ q.policy)
        × (q'.capacity ≡ q.capacity)
        × IsOpen q'
  unfolding enqueue_on
  enqueue_on-kept false room q item rest c r (con, depth, one) = absurd (ground arith)
  enqueue_on-kept true true q item rest c r (con, depth, one) = (
    ap (kept q.policy q.capacity) (snoc_append q.buf item rest),
    refl,
    refl,
    (con, ground (arith, length-append q.buf (item ∷ [])), one),
  )
  enqueue_on-kept true false q item rest c r (con, depth, one) =
      let full : length q.buf ≡ q.capacity = ground arith in
      let (same_c, same_p, same_n, small) = enqueue_full_frame q.policy q item full one in
      (
        kept-enqueue_full q.policy q item rest full one,
        same_p,
        same_n,
        (same_c ∙ con, omega arith, omega arith),
      )

  enqueue_locked-kept :
      (q : QueueInner T) (item : T) (rest : List T)
      → IsOpen q
      → let q' = (enqueue_locked q item).1 in
        (kept q.policy q.capacity (q'.buf ++ rest)
          ≡ kept q.policy q.capacity (q.buf ++ (item ∷ rest)))
        × (q'.policy ≡ q.policy)
        × (q'.capacity ≡ q.capacity)
        × IsOpen q'
  unfolding enqueue_locked
  enqueue_locked-kept q item rest is_open = enqueue_on-kept _ _ q item rest refl refl is_open

  append_nil : (xs : List T) → xs ++ [] ≡ xs
  append_nil [] = refl
  append_nil (x ∷ xs) = ap (λ l. x ∷ l) (append_nil xs)

  -- The queue refines the list of all frames: on a connected queue within its capacity, any number of
  -- offers with no reception in between leaves, in order, the newest `capacity` of the frames that were
  -- queued or offered under drop-oldest, and the first `capacity` of them under reject-newest.
  pub enqueue_all-kept :
      (q : QueueInner T) (items : List T)
      → q.connected ≡ true
      → length q.buf ≤ q.capacity
      → 1 ≤ q.capacity
      → (enqueue_all q items).buf ≡ kept q.policy q.capacity (q.buf ++ items)
  unfolding enqueue_all
  enqueue_all-kept q [] con depth one =
      sym (
        ap (kept q.policy q.capacity) (append_nil q.buf) ∙ kept_all q.policy q.capacity q.buf depth)
  enqueue_all-kept q (item ∷ rest) con depth one =
      let (same, same_p, same_n, (con', depth', one')) =
        enqueue_locked-kept q item rest (con, depth, one) in
      enqueue_all-kept (enqueue_locked q item).1 rest con' depth' one'
      ∙ ap₂ (λ p n. kept p n ((enqueue_locked q item).1.buf ++ rest)) same_p same_n
      ∙ same
