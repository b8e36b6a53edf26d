-- ===== src/Csv.antt =====
-- src/telemetry_csv.rs: the CSV interchange format. Texts are lists of code points. What
-- `read_to_string` returns is an input of `load_csv`; `E` is the type of its errors.
use thalamic_relay.Prelude.{
  ℕ, zero, suc, ◌+◌, ◌%◌, Bool, not, true, false, List, [], ◌∷◌, ◌++◌, Option, none, some, and_then,
  String, Result, ok, err, ◌>>=◌, ok_or, if◌then◌else◌, Chars, codes, is_empty, same_chars, trim,
  split, lines, parse_unsigned, u64_chars, u64_max, saturating_add, length,
}
use thalamic_relay.Float.{Float}
use thalamic_relay.Float.Printed.{FloatText}
pub mod Fields
pub mod RoundTrip
pub mod Counts
pub mod Replay

abbrev pub header : Chars
header = codes "timestamp_ms,gpu_temp_c,gpu_power_w,cpu_tctl_c,cpu_package_power_w"

abbrev pub comma : ℕ
comma = 44

abbrev pub newline : ℕ
newline = 10

pub record TelemetryCsvRow (F : Type 0) : Type 0 where
  pub timestamp_ms : ℕ
  pub gpu_temp_c : F
  pub gpu_power_w : F
  pub cpu_tctl_c : F
  pub cpu_package_power_w : F

pub data ParseDataLine (F : Type 0) : Type 0 where
  empty : ParseDataLine F
  parsed : TelemetryCsvRow F → ParseDataLine F
  malformed : ParseDataLine F

-- `LoadResult`.
pub record LoadResult (F : Type 0) : Type 0 where
  pub rows : List (TelemetryCsvRow F)
  pub skipped : ℕ

pub data TelemetryCsvError (E : Type 0) : Type 0 where
  io : (path : Chars) → (source : E) → TelemetryCsvError E
  empty_file : (path : Option Chars) → TelemetryCsvError E
  header_mismatch : (path : Option Chars) → (actual : Chars) → TelemetryCsvError E

module _ {E : Type 0} where
  abbrev pub with_path : Chars → TelemetryCsvError E → TelemetryCsvError E
  with_path path (empty_file _) = empty_file (some path)
  with_path path (header_mismatch _ actual) = header_mismatch (some path) actual
  with_path path (io p source) = io p source

  -- `Error::source`.
  abbrev pub source_of : TelemetryCsvError E → Option E
  source_of (io path source) = some source
  source_of _ = none

  unfoldable pub validate_header : Option Chars → Result (Unit {0}) (TelemetryCsvError E)
  validate_header none = err (empty_file none)
  validate_header (some line) =
      if same_chars (trim line) header then ok tt else err (header_mismatch none (trim line))

abbrev path_label : Option Chars → Chars
path_label none = []
path_label (some p) = codes " '" ++ p ++ codes "'"

-- `Display`, with the text of the error from the file system given.
abbrev pub display : {E : Type 0} (show_error : E → Chars) → TelemetryCsvError E → Chars
display show_error (io path source) =
    codes "telemetry CSV '" ++ path ++ codes "' could not be read: " ++ show_error source
display show_error (empty_file path) = codes "telemetry CSV" ++ path_label path ++ codes " is empty"
display show_error (header_mismatch path actual) =
    codes "telemetry CSV"
    ++ path_label path
    ++ codes " header mismatch: expected '"
    ++ header
    ++ codes "', got '"
    ++ actual
    ++ codes "'"

-- The value that a function returns, early or at its end.
returned {ℓ} : {A : Type ℓ} → Result A A → A
returned (ok a) = a
returned (err a) = a

module _ {F : Type 0} where
  unfoldable pub has_usable_rows : LoadResult F → Bool
  has_usable_rows r = not (is_empty r.rows)

  abbrev with_row : TelemetryCsvRow F → LoadResult F → LoadResult F
  with_row row r = record r { rows = row ∷ r.rows }

  abbrev skipping : LoadResult F → LoadResult F
  skipping r = record r { skipped = 1 + r.skipped }

  abbrev nth_row : ℕ → List (TelemetryCsvRow F) → Option (TelemetryCsvRow F)
  nth_row n [] = none
  nth_row zero (r ∷ rows) = some r
  nth_row (suc n) (r ∷ rows) = nth_row n rows

  -- On a 64-bit target every tick is a u64.
  unfoldable pub row_for_tick : (tick : ℕ) → List (TelemetryCsvRow F) → Option (TelemetryCsvRow F)
  row_for_tick tick [] = none
  row_for_tick tick (r ∷ rows) =
      and_then (nth_row (tick % length (r ∷ rows)) (r ∷ rows))
        λ row. some (record row { timestamp_ms = saturating_add u64_max tick 1 })

module _ {F : Type 0} ⦃float : Float F⦄ ⦃text : FloatText F⦄ where
  unfoldable pub to_csv_line : TelemetryCsvRow F → Chars
  to_csv_line row =
      u64_chars row.timestamp_ms
      ++ comma
        ∷ (text.show_f32 row.gpu_temp_c
            ++ comma
              ∷ (text.show_f32 row.gpu_power_w
                  ++ comma
                    ∷ (text.show_f32 row.cpu_tctl_c
                        ++ comma ∷ text.show_f32 row.cpu_package_power_w)))

  unfoldable pub parse_finite_f32 : Chars → Option F
  parse_finite_f32 value =
      and_then (text.parse_f32 value) λ parsed. if float.is_finite parsed then some parsed else none

  -- The fields of a line; any other number of them than five is refused.
  unfoldable parse_fields : List Chars → Result (ParseDataLine F) (ParseDataLine F)
  unfolding parse_finite_f32
  parse_fields (f₀ ∷ f₁ ∷ f₂ ∷ f₃ ∷ f₄ ∷ []) = do
    timestamp_ms ← ok_or (parse_unsigned u64_max f₀) malformed
    gpu_temp_c ← ok_or (parse_finite_f32 f₁) malformed
    gpu_power_w ← ok_or (parse_finite_f32 f₂) malformed
    cpu_tctl_c ← ok_or (parse_finite_f32 f₃) malformed
    cpu_package_power_w ← ok_or (parse_finite_f32 f₄) malformed
    ok (
        parsed (record {
          timestamp_ms = timestamp_ms;
          gpu_temp_c = gpu_temp_c;
          gpu_power_w = gpu_power_w;
          cpu_tctl_c = cpu_tctl_c;
          cpu_package_power_w = cpu_package_power_w;
        }))
  parse_fields _ = err malformed

  unfoldable pub parse_data_line : Chars → ParseDataLine F
  unfolding parse_fields returned
  parse_data_line raw_line =
      let line = trim raw_line in
      if is_empty line then empty else returned (parse_fields (split comma line))

  -- The loop over the lines, from the last to the first.
  collect_line : ParseDataLine F → LoadResult F → LoadResult F
  collect_line empty r = r
  collect_line (parsed row) r = with_row row r
  collect_line malformed r = skipping r

  unfoldable pub collect_rows : List Chars → LoadResult F
  unfolding collect_line
  collect_rows [] = record { rows = []; skipped = 0 }
  collect_rows (line ∷ rest) = collect_line (parse_data_line line) (collect_rows rest)

  unfoldable pub format_rows : List (TelemetryCsvRow F) → Chars
  unfolding to_csv_line
  format_rows [] = []
  format_rows (row ∷ rows) = to_csv_line row ++ newline ∷ format_rows rows

  unfoldable pub format_csv : List (TelemetryCsvRow F) → Chars
  unfolding format_rows
  format_csv rows = header ++ newline ∷ format_rows rows

module _ {F E : Type 0} ⦃float : Float F⦄ ⦃text : FloatText F⦄ where
  -- The header is the first line, and the rows are the others.
  parse_lines : List Chars → Result (LoadResult F) (TelemetryCsvError E)
  unfolding validate_header collect_rows
  parse_lines [] = validate_header none >>= λ _. ok (collect_rows [])
  parse_lines (first ∷ rest) = validate_header (some first) >>= λ _. ok (collect_rows rest)

  unfoldable pub parse_csv : Chars → Result (LoadResult F) (TelemetryCsvError E)
  unfolding parse_lines
  parse_csv contents = parse_lines (lines contents)

  locate :
      Chars
      → Result (LoadResult F) (TelemetryCsvError E)
      → Result (LoadResult F) (TelemetryCsvError E)
  locate path (ok r) = ok r
  locate path (err e) = err (with_path path e)

  unfoldable pub load_csv :
      (path : Chars) → (contents : Result Chars E) → Result (LoadResult F) (TelemetryCsvError E)
  unfolding parse_csv locate
  load_csv path (err source) = err (io path source)
  load_csv path (ok contents) = locate path (parse_csv contents)
