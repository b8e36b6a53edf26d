-- ===== src/Lock/Disturbed.antt =====
-- src/daemon.rs: a start among others, which may change the lock file between any two of its calls.
use thalamic_relay.Prelude.{
  ℕ, ◌≡◌, ◌∙◌, subst, sym, ap, ◌⊎◌, inl, inr, refl, Bool, true, false, Option, none, some, and_then,
  List, [], ◌∷◌,
}
use thalamic_relay.Lock.{
  LockFile, absent, file, unreadable, Refusal, create_failed, unparseable, active, remove_failed,
  Phase, creating, writing, reading, probing, removing, holding, refused, recorded_pid, lock_step,
  run_calls, asked, read_text, after_read, has_returned, Call, try_acquire_lock,
}

-- Over these calls, from this phase and file on, one of the start's own calls creates the file, at a
-- moment when there is none.
pub data Creates (pid : ℕ) : List Call → Phase → LockFile → Type 0 where
  now :
      {c : Call} {calls : List Call} {f : LockFile}
      → c.fails ≡ false
      → c.others f ≡ absent
      → Creates pid (c ∷ calls) creating f
  later :
      {c : Call} {calls : List Call} {p q : Phase} {f g : LockFile}
      → lock_step pid c.fails (c.alive (asked p)) p (c.others f) ≡ (q, g)
      → Creates pid calls q g
      → Creates pid (c ∷ calls) p f

-- The phases in which a start has neither returned nor created its file.
is_starting : Phase → Bool
is_starting creating = true
is_starting reading = true
is_starting (probing r) = true
is_starting (removing r) = true
is_starting _ = false

module _ (pid : ℕ) where
  -- A call of such a start refuses it, creates the file, or leaves it one.
  abbrev Outcome : Bool → Phase → LockFile → Phase → Type 0
  Outcome b p g q =
      ((why : Refusal) × (q ≡ refused why))
      ⊎ (is_starting q ≡ true)
      ⊎ ((p ≡ creating) × (b ≡ false) × (g ≡ absent))

  Outcome-read : (b : Bool) (g : LockFile) (o : Option ℕ) → Outcome b reading g (after_read o)
  unfolding after_read is_starting
  Outcome-read b g none = inl (unparseable, refl)
  Outcome-read b g (some r) = inr (inl refl)

  outcome :
      (b alive : Bool) (p : Phase) (g : LockFile)
      → is_starting p ≡ true
      → Outcome b p g (lock_step pid b alive p g).0
  unfolding lock_step is_starting
  outcome false alive creating absent s = inr (inr (refl, refl, refl))
  outcome true alive creating absent s = inl (create_failed, refl)
  outcome true alive creating (file c t) s = inl (create_failed, refl)
  outcome true alive creating unreadable s = inl (create_failed, refl)
  outcome false alive creating (file c t) s = inr (inl refl)
  outcome false alive creating unreadable s = inr (inl refl)
  outcome true alive reading g s = inl (unparseable, refl)
  outcome false alive reading g s = Outcome-read false g (and_then (read_text g) recorded_pid)
  outcome b true (probing r) g s = inl (active r, refl)
  outcome b false (probing r) g s = inr (inl refl)
  outcome b alive (removing r) absent s = inl (remove_failed, refl)
  outcome true alive (removing r) (file c t) s = inl (remove_failed, refl)
  outcome true alive (removing r) unreadable s = inl (remove_failed, refl)
  outcome false alive (removing r) (file c t) s = inr (inl refl)
  outcome false alive (removing r) unreadable s = inr (inl refl)
  outcome b alive writing g s = absurd (cc)
  outcome b alive holding g s = absurd (cc)
  outcome b alive (refused r) g s = absurd (cc)

  run_on :
      (c : Call) (calls : List Call) (p : Phase) (f : LockFile)
      → is_starting p ≡ true
      → run_calls pid (c ∷ calls) (p, f)
        ≡ run_calls pid calls (lock_step pid c.fails (c.alive (asked p)) p (c.others f))
  unfolding run_calls has_returned is_starting
  run_on c calls creating f s = refl
  run_on c calls reading f s = refl
  run_on c calls (probing r) f s = refl
  run_on c calls (removing r) f s = refl
  run_on c calls writing f s = absurd (cc)
  run_on c calls holding f s = absurd (cc)
  run_on c calls (refused r) f s = absurd (cc)

  stays_refused :
      (calls : List Call) (why : Refusal) (f : LockFile)
      → run_calls pid calls (refused why, f) ≡ (refused why, f)
  unfolding run_calls has_returned
  stays_refused [] why f = refl
  stays_refused (c ∷ calls) why f = refl

  never_held :
      (calls : List Call) (p : Phase) (f f' : LockFile) (why : Refusal)
      → p ≡ refused why
      → ¬ (run_calls pid calls (p, f) ≡ (holding, f'))
  never_held calls p f f' why e h =
      let same = ap (λ q. run_calls pid calls (q, f)) e ∙ stays_refused calls why f in
      let phase = ap (λ (s : Phase × LockFile). s.0) (sym same ∙ h) in cc

  creates :
      (calls : List Call) (p : Phase) (f : LockFile) {f' : LockFile}
      → is_starting p ≡ true
      → run_calls pid calls (p, f) ≡ (holding, f')
      → Creates pid calls p f
  unfolding run_calls is_starting
  creates [] p f s h = absurd (let phase = ap (λ (x : Phase × LockFile). is_starting x.0) h in cc)
  creates (c ∷ calls) p f {f'} s h =
      let h' = sym (run_on c calls p f s) ∙ h in
      elim (outcome c.fails (c.alive (asked p)) p (c.others f) s) [
        | inl (why, e) ↦ absurd (never_held calls _ _ f' why e h')
        | inr (inl s') ↦ later refl (creates calls _ _ s' h')
        | inr (inr (e, ok_call, free)) ↦
            subst (λ p. Creates pid (c ∷ calls) p f) (sym e) (now ok_call free)
      ]

  -- However other processes change the lock file between its calls, whichever of its calls fail and
  -- whichever processes exist meanwhile: a start that returns with the guard has itself created the
  -- file, by a call that found none.
  pub try_acquire_lock-Creates :
      (calls : List Call) (f : LockFile) {f' : LockFile}
      → try_acquire_lock pid calls f ≡ (holding, f')
      → Creates pid calls creating f
  unfolding try_acquire_lock is_starting
  try_acquire_lock-Creates calls f h = creates calls creating f refl h
