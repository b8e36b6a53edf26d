-- ===== src/Examples/Interchange.antt =====
-- Examples for the CSV interchange format.
use thalamic_relay.Prelude.{
  ℕ, ◌≡◌, ◌↔◌, refl, List, [], ◌∷◌, ok, err, some, arith, Chars, codes, lines, is_whitespace,
  parse_unsigned,
}
use thalamic_relay.Float.Fixed.{Fixed, fixed_float, fixed}
use thalamic_relay.Float.Fixed.Text.{fixed_text, Fixed-IsFloatText}
use thalamic_relay.Csv.{
  TelemetryCsvRow, LoadResult, parsed, empty_file, parse_data_line, parse_csv, format_csv, load_csv,
}
use thalamic_relay.Csv.Fields.{IsLineOf, parse_data_line-parsed_iff}
use thalamic_relay.Csv.RoundTrip.{parse_csv-format_csv}
use thalamic_relay.Csv.Counts.{IsLoaded, parse_csv-IsLoaded, FailsWith, load_csv-fails_iff}

abbrev row_at : ℕ → TelemetryCsvRow Fixed
row_at time = record {
  timestamp_ms = time;
  gpu_temp_c = fixed 45000;
  gpu_power_w = fixed 120;
  cpu_tctl_c = fixed 0;
  cpu_package_power_w = fixed 65000;
}

abbrev row_list : List (TelemetryCsvRow Fixed)
row_list = row_at 1700000000000 ∷ row_at 18446744073709551615 ∷ []

-- A row with a plus sign and outer blanks, a blank line, a row with too few fields, one with a sensor
-- that is no finite number.
abbrev contents : Chars
contents =
    codes
      "timestamp_ms,gpu_temp_c,gpu_power_w,cpu_tctl_c,cpu_package_power_w\r\n +12,45000,120,0,65000 \n\n12,1,2\n12,45000,inf,0,65000\n"

abbrev loaded : LoadResult Fixed
loaded = record { rows = row_at 12 ∷ []; skipped = 2 }

contents_load : parse_csv {E = ℕ} contents ≡ ok loaded
unfolding parse_csv parse_data_line is_whitespace parse_unsigned
contents_load = refl

parse_csv-format_csv_example :
    parse_csv {E = ℕ} (format_csv row_list) ≡ ok (record { rows = row_list; skipped = 0 })
parse_csv-format_csv_example = parse_csv-format_csv Fixed-IsFloatText row_list (
  record {
    time = omega arith;
    gpu_temp = refl;
    gpu_power = refl;
    cpu_tctl = refl;
    cpu_power = refl;
  },
  (
    record {
      time = omega arith;
      gpu_temp = refl;
      gpu_power = refl;
      cpu_tctl = refl;
      cpu_power = refl;
    },
    tt,
  ),
)

parse_data_line-parsed_iff_example :
    (parse_data_line (codes " 12,45000,120,0,65000") ≡ parsed (row_at 12))
    ↔ IsLineOf (codes " 12,45000,120,0,65000") (row_at 12)
parse_data_line-parsed_iff_example =
    parse_data_line-parsed_iff (codes " 12,45000,120,0,65000") (row_at 12)

parse_csv-IsLoaded_example : IsLoaded (lines contents) loaded
parse_csv-IsLoaded_example = parse_csv-IsLoaded {E = ℕ} contents contents_load

load_csv-fails_iff_example :
    (load_csv {F = Fixed} {E = ℕ} (codes "a.csv") (ok []) ≡ err (empty_file (some (codes "a.csv"))))
    ↔ FailsWith {E = ℕ} (codes "a.csv") (ok []) (empty_file (some (codes "a.csv")))
load_csv-fails_iff_example =
    load_csv-fails_iff (codes "a.csv") (ok []) (empty_file (some (codes "a.csv")))
