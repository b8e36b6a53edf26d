-- ===== src/Time/Field.antt =====
-- src/time.rs: a source time in a CSV cell. The text of an error, which quotes the cell, is the
-- argument `message`.
use thalamic_relay.Prelude.{
  ℕ, ◌≤◌, ◌≡◌, refl, true, false, inl, inr, Bool-cases, Option, none, some, Result, ok, err, arith,
  Chars, is_empty, u64_chars-not_empty, trim, trim-ink, All-weaken, parse_unsigned,
  parse_unsigned-le, parse_unsigned-u64_chars, u64_chars, u64_chars-IsDigitChar, u64_max,
}
use thalamic_relay.Time.{UnixMillis}

module _ (message : Chars → Chars) where
  -- `parse` and `map_err`.
  cell_value : Chars → Option UnixMillis → Result (Option UnixMillis) Chars
  cell_value trimmed none = err (message trimmed)
  cell_value trimmed (some n) = ok (some n)

  unfoldable pub parse_source_timestamp_field : Chars → Result (Option UnixMillis) Chars
  unfolding cell_value
  parse_source_timestamp_field field = elim (is_empty (trim field)) [
    | true ↦ ok none
    | false ↦ cell_value (trim field) (parse_unsigned u64_max (trim field))
  ]

  -- What a cell means: a blank one is a missing time, and any other is a u64 or an error with its text.
  abbrev pub MeansCell : Chars → Result (Option UnixMillis) Chars → Type 0
  MeansCell s (ok none) = is_empty s ≡ true
  MeansCell s (ok (some n)) = (parse_unsigned u64_max s ≡ some n) × (n ≤ u64_max)
  MeansCell s (err e) = (is_empty s ≡ false) × (parse_unsigned u64_max s ≡ none) × (e ≡ message s)

  cell_value-MeansCell :
      (s : Chars) (o : Option UnixMillis)
      → is_empty s ≡ false
      → parse_unsigned u64_max s ≡ o
      → MeansCell s (cell_value s o)
  unfolding cell_value
  cell_value-MeansCell s none h e = (h, e, refl)
  cell_value-MeansCell s (some n) h e = (e, parse_unsigned-le u64_max s e)

  -- A blank cell is a missing time; any other cell is the u64 that it spells, or an error.
  pub parse_source_timestamp_field-MeansCell :
      (field : Chars) → MeansCell (trim field) (parse_source_timestamp_field field)
  unfolding parse_source_timestamp_field
  parse_source_timestamp_field-MeansCell field = elim (Bool-cases (is_empty (trim field))) [
    | inl e ↦ rw (e, parse_source_timestamp_field) e
    | inr e ↦
        rw (e, parse_source_timestamp_field)
          (cell_value-MeansCell (trim field) (parse_unsigned u64_max (trim field)) e refl)
  ]

  -- Every u64 that is written with `to_string` into a cell is read from it.
  pub parse_source_timestamp_field-u64_chars :
      (n : ℕ) → n ≤ u64_max → parse_source_timestamp_field (u64_chars n) ≡ ok (some n)
  unfolding parse_source_timestamp_field
  parse_source_timestamp_field-u64_chars n h =
      let t =
        trim-ink (u64_chars n)
          (All-weaken _ (λ c d. (omega arith, omega arith)) (u64_chars-IsDigitChar n)) in
      ground (arith, t, u64_chars-not_empty n, parse_unsigned-u64_chars n (omega arith))
