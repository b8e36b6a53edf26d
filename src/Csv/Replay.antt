-- ===== src/Csv/Replay.antt =====
-- src/telemetry_csv.rs: `row_for_tick`, the replay that starts again at the end of the rows.
use thalamic_relay.Prelude.{
  ℕ, ◌+◌, ◌*◌, ◌%◌, ◌<◌, ◌≡◌, ◌≢◌, refl, length-append, List, [], ◌∷◌, ◌++◌, some, arith, length,
  u64_max, saturating_add,
}
use thalamic_relay.Csv.{TelemetryCsvRow, nth_row, row_for_tick}

mod_round : (k r n : ℕ) → r < n → (k * n + r) % n ≡ r
mod_round k r n h = grind arith

module _ {F : Type 0} where
  nth_row-append :
      (before after : List (TelemetryCsvRow F)) (r : TelemetryCsvRow F)
      → nth_row (length before) (before ++ r ∷ after) ≡ some r
  nth_row-append [] after r = refl
  nth_row-append (x ∷ before) after r = nth_row-append before after r

  append-ne-nil :
      (before : List (TelemetryCsvRow F)) (r : TelemetryCsvRow F) (after : List (TelemetryCsvRow F))
      → before ++ r ∷ after ≢ []
  append-ne-nil [] r after = cc
  append-ne-nil (x ∷ before) r after = cc

  -- A row of the replay: the readings of the row in the file, at the time of the tick.
  abbrev pub at_tick : ℕ → TelemetryCsvRow F → TelemetryCsvRow F
  at_tick tick row = record row { timestamp_ms = saturating_add u64_max tick 1 }

  row_for_tick-nth :
      (tick n : ℕ) (rows : List (TelemetryCsvRow F)) (r : TelemetryCsvRow F)
      → rows ≢ []
      → tick % length rows ≡ n
      → nth_row n rows ≡ some r
      → row_for_tick tick rows ≡ some (at_tick tick r)
  unfolding row_for_tick
  row_for_tick-nth tick n [] r ne e h = absurd (ne refl)
  row_for_tick-nth tick n (x ∷ rows) r ne e h = rw (e, h) refl

  -- Each round of the replay gives every row at its own place: after any number of full rounds, the
  -- tick that is as far into the round as the row into the file reads this row, at the tick's time.
  pub row_for_tick_round :
      (before after : List (TelemetryCsvRow F)) (r : TelemetryCsvRow F) (rounds : ℕ)
      → let rows = before ++ r ∷ after in
        let tick = rounds * length rows + length before in
        row_for_tick tick rows ≡ some (at_tick tick r)
  row_for_tick_round before after r rounds =
      row_for_tick-nth _ (length before) (before ++ r ∷ after) r (append-ne-nil before r after)
        (mod_round rounds _ _ (omega (arith, length-append before (r ∷ after))))
        (nth_row-append before after r)
