-- ===== src/Prelude/Parts.antt =====
-- `split` and its inverse: the parts hold no separator, and joined with it they are the text.
use Prim.Native.Nat.{ℕ, ◌+◌, ◌-◌, ◌*◌, ◌≤◌}
use mathlib.Core.Path.{◌≡◌, refl, ap, ◌∙◌}
use mathlib.Core.Logic.{◌≢◌, ◌↔◌}
use mathlib.Core.Bool.{true}
use mathlib.Core.List.{List, [], ◌∷◌, ◌++◌}
use mathlib.Core.Option.{some}
use native.Mathlib.Omega.{arith}
use thalamic_relay.Prelude.Lists.{All}
use thalamic_relay.Prelude.Printed.{split_at_sep, split_last}
use thalamic_relay.Prelude.Str.{Chars, same_chars, split, onto_first, digits_onto, parse_unsigned}

pub same_chars_iff : (s t : Chars) → (same_chars s t ≡ true) ↔ (s ≡ t)
same_chars_iff (c ∷ s) (d ∷ t) = ground (arith, same_chars_iff s t)
same_chars_iff _ _ = ground arith

module _ (sep : ℕ) where
  abbrev pub joined : List Chars → Chars
  joined [] = []
  joined (f ∷ []) = f
  joined (f ∷ g ∷ gs) = f ++ sep ∷ joined (g ∷ gs)

  joined-onto_first : (c : ℕ) (fs : List Chars) → joined (onto_first c fs) ≡ c ∷ joined fs
  joined-onto_first c [] = refl
  joined-onto_first c (f ∷ []) = refl
  joined-onto_first c (f ∷ g ∷ gs) = refl

  joined-nil : (fs : List Chars) → fs ≢ [] → joined ([] ∷ fs) ≡ sep ∷ joined fs
  joined-nil [] h = absurd (h refl)
  joined-nil (f ∷ fs) h = refl

  onto_first-ne-nil : (c : ℕ) (fs : List Chars) → onto_first c fs ≢ []
  onto_first-ne-nil c [] = cc
  onto_first-ne-nil c (f ∷ fs) = cc

  split-ne-nil : (s : Chars) → split sep s ≢ []
  split-ne-nil [] = cc
  split-ne-nil (c ∷ s) = ground (arith, onto_first-ne-nil c (split sep s))

  pub joined-split : (s : Chars) → joined (split sep s) ≡ s
  joined-split [] = refl
  joined-split (c ∷ s) = ground (
    arith,
    joined-split s,
    joined-nil (split sep s) (split-ne-nil s),
    joined-onto_first c (split sep s),
  )

  abbrev pub Lacks : Chars → Type 0
  Lacks = All (λ c. c ≢ sep)

  onto_first-Lacks :
      (c : ℕ) (fs : List Chars) → c ≢ sep → All Lacks fs → All Lacks (onto_first c fs)
  onto_first-Lacks c [] h _ = ((h, tt), tt)
  onto_first-Lacks c (f ∷ fs) h (hf, hfs) = ((h, hf), hfs)

  pub split-Lacks : (s : Chars) → All Lacks (split sep s)
  split-Lacks [] = (tt, tt)
  split-Lacks (c ∷ s) =
      let rest = split-Lacks s in
      ground (arith, λ (h : c ≢ sep). onto_first-Lacks c (split sep s) h rest)

  pub split-joined :
      (f : Chars) (fs : List Chars) → All Lacks (f ∷ fs) → split sep (joined (f ∷ fs)) ≡ f ∷ fs
  split-joined f [] (h, _) = split_last sep f h
  split-joined f (g ∷ gs) (h, hs) =
      split_at_sep sep f (joined (g ∷ gs)) h ∙ ap (λ rest. f ∷ rest) (split-joined g gs hs)

digits_onto-le : (top n : ℕ) (s : Chars) {m : ℕ} → n ≤ top → digits_onto top n s ≡ some m → m ≤ top
digits_onto-le top n [] h e = ground arith
digits_onto-le top n (c ∷ s) {m} h e =
    ground (arith, digits_onto-le top (10 * n + (c - 48)) s {m = m})

-- What is read as an unsigned word fits in it.
pub parse_unsigned-le : (top : ℕ) (s : Chars) {m : ℕ} → parse_unsigned top s ≡ some m → m ≤ top
unfolding parse_unsigned
parse_unsigned-le top [] e = ground arith
parse_unsigned-le top (c ∷ []) {m} e = ground (arith, digits_onto-le top 0 (c ∷ []) {m = m})
parse_unsigned-le top (c ∷ d ∷ s) {m} e =
    ground (arith, digits_onto-le top 0 (c ∷ d ∷ s) {m = m}, digits_onto-le top 0 (d ∷ s) {m = m})
