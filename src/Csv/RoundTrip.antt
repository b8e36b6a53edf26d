-- ===== src/Csv/RoundTrip.antt =====
-- src/telemetry_csv.rs: what `format_csv` writes is read back by `parse_csv`.
use thalamic_relay.Prelude.{
  ℕ, ◌+◌, ◌≤◌, ◌<◌, ◌≡◌, ◌≢◌, refl, ◌∙◌, ap, true, false, List, [], ◌∷◌, ◌++◌, some, ok, arith,
  Chars, All, All-append, All-weaken, is_empty, is_empty-append, trim, split, lines, lines-cons,
  split_at_sep, split_last, trim-ink, u64_chars, u64_chars-IsDigitChar, parse_unsigned-u64_chars,
  u64_max,
}
use thalamic_relay.Float.{Float}
use thalamic_relay.Float.Printed.{FloatText, IsFloatText, IsFieldChar}
use thalamic_relay.Csv.{
  header, comma, newline, TelemetryCsvRow, parsed, to_csv_line, parse_finite_f32, parse_data_line,
  collect_rows, format_rows, format_csv, parse_lines, parse_csv, validate_header,
}

IsRowChar : ℕ → Type 0
IsRowChar c = (44 ≤ c) × (c ≤ 57)

no_comma : (s : Chars) → All IsFieldChar s → All (λ c. c ≢ comma) s
no_comma s = All-weaken s λ c h. ground arith

in_row : (s : Chars) → All IsFieldChar s → All IsRowChar s
unfolding IsRowChar
in_row s = All-weaken s λ c h. ground arith

with_comma :
    (s rest : Chars) → All IsFieldChar s → All IsRowChar rest → All IsRowChar (s ++ comma ∷ rest)
unfolding IsRowChar
with_comma s rest h hs = All-append IsRowChar s _ (in_row s h) (ground arith, hs)

number_chars : (n : ℕ) → All IsFieldChar (u64_chars n)
number_chars n = All-weaken _ (λ c h. ground arith) (u64_chars-IsDigitChar n)

lines-header : (rest : Chars) → lines (header ++ newline ∷ rest) ≡ header ∷ lines rest
lines-header rest = lines-cons header rest (omega arith)

pub validate_header-header : {E : Type 0} → validate_header {E = E} (some header) ≡ ok tt
unfolding validate_header
validate_header-header = let h = trim-ink header (omega arith) in ground (arith, h)

module _ {F E : Type 0} ⦃float : Float F⦄ ⦃text : FloatText F⦄ where
  parse_lines-header :
      (rest : List Chars) → parse_lines {F = F} {E = E} (header ∷ rest) ≡ ok (collect_rows rest)
  unfolding parse_lines
  parse_lines-header rest = rw (validate_header-header {E = E}) refl

module _ {F : Type 0} ⦃float : Float F⦄ where
  -- A row as the program keeps it: the time is a u64, and every reading is finite.
  pub record IsRow (row : TelemetryCsvRow F) : Type 0 where
    pub time : row.timestamp_ms < u64_max + 1
    pub gpu_temp : float.is_finite row.gpu_temp_c ≡ true
    pub gpu_power : float.is_finite row.gpu_power_w ≡ true
    pub cpu_tctl : float.is_finite row.cpu_tctl_c ≡ true
    pub cpu_power : float.is_finite row.cpu_package_power_w ≡ true

module _ {F : Type 0} ⦃float : Float F⦄ ⦃text : FloatText F⦄ (L : IsFloatText F) where
  parse_finite_f32-show :
      (x : F) → float.is_finite x ≡ true → parse_finite_f32 (text.show_f32 x) ≡ some x
  unfolding parse_finite_f32
  parse_finite_f32-show x h = ground (arith, L.parse-show x h)

  line_chars : (row : TelemetryCsvRow F) → IsRow row → All IsRowChar (to_csv_line row)
  unfolding to_csv_line
  line_chars row r = with_comma _ _ (number_chars row.timestamp_ms) (
      with_comma _ _ (L.show_chars _ r.gpu_temp) (
        with_comma _ _ (L.show_chars _ r.gpu_power)
          (with_comma _ _ (L.show_chars _ r.cpu_tctl) (in_row _ (L.show_chars _ r.cpu_power)))))

  split-to_csv_line :
      (row : TelemetryCsvRow F)
      → IsRow row
      → split comma (to_csv_line row)
        ≡ u64_chars row.timestamp_ms
          ∷ text.show_f32 row.gpu_temp_c
          ∷ text.show_f32 row.gpu_power_w
          ∷ text.show_f32 row.cpu_tctl_c
          ∷ text.show_f32 row.cpu_package_power_w
          ∷ []
  unfolding to_csv_line
  split-to_csv_line row r =
      rw
        (
          split_at_sep comma _ _ (no_comma _ (number_chars row.timestamp_ms)),
          split_at_sep comma _ _ (no_comma _ (L.show_chars _ r.gpu_temp)),
          split_at_sep comma _ _ (no_comma _ (L.show_chars _ r.gpu_power)),
          split_at_sep comma _ _ (no_comma _ (L.show_chars _ r.cpu_tctl)),
          split_last comma _ (no_comma _ (L.show_chars _ r.cpu_power)),
        )
        refl

  line_not_empty : (row : TelemetryCsvRow F) → is_empty (to_csv_line row) ≡ false
  unfolding to_csv_line
  line_not_empty row = is_empty-append (u64_chars row.timestamp_ms) comma _

  trim-to_csv_line :
      (row : TelemetryCsvRow F) → IsRow row → trim (to_csv_line row) ≡ to_csv_line row
  unfolding IsRowChar
  trim-to_csv_line row r =
      trim-ink _ (All-weaken _ (λ c h. (omega arith, omega arith)) (line_chars row r))

  parse_data_line-to_csv_line :
      (row : TelemetryCsvRow F) → IsRow row → parse_data_line (to_csv_line row) ≡ parsed row
  unfolding parse_data_line
  parse_data_line-to_csv_line row r =
      rw
        (
          trim-to_csv_line row r,
          split-to_csv_line row r,
          line_not_empty row,
          parse_unsigned-u64_chars _ r.time,
          parse_finite_f32-show _ r.gpu_temp,
          parse_finite_f32-show _ r.gpu_power,
          parse_finite_f32-show _ r.cpu_tctl,
          parse_finite_f32-show _ r.cpu_power,
        )
        refl

  lines-format_rows :
      (row : TelemetryCsvRow F) (rest : Chars)
      → IsRow row
      → lines (to_csv_line row ++ newline ∷ rest) ≡ to_csv_line row ∷ lines rest
  unfolding IsRowChar
  lines-format_rows row rest r =
      lines-cons _ rest (All-weaken _ (λ c h. omega arith) (line_chars row r))

  collect_rows-format_rows :
      (rows : List (TelemetryCsvRow F))
      → All IsRow rows
      → collect_rows (lines (format_rows rows)) ≡ record { rows = rows; skipped = 0 }
  unfolding format_rows collect_rows
  collect_rows-format_rows [] _ = refl
  collect_rows-format_rows (row ∷ rows) (r, rs) =
      rw
        (
          lines-format_rows row (format_rows rows) r,
          collect_rows,
          parse_data_line-to_csv_line row r,
          collect_rows-format_rows rows rs,
        )
        refl

  -- What `format_csv` writes, `parse_csv` reads back: all rows in order, and no line skipped, for rows
  -- whose time is a u64 and whose readings are finite.
  pub parse_csv-format_csv :
      {E : Type 0} (rows : List (TelemetryCsvRow F))
      → All IsRow rows
      → parse_csv {E = E} (format_csv rows) ≡ ok (record { rows = rows; skipped = 0 })
  unfolding parse_csv format_csv
  parse_csv-format_csv rows h =
      ap parse_lines (lines-header (format_rows rows))
      ∙ parse_lines-header (lines (format_rows rows))
      ∙ ap ok (collect_rows-format_rows rows h)
