-- ===== src/Csv/Counts.antt =====
-- src/telemetry_csv.rs: what `parse_csv` and `load_csv` make of all lines of a file.
use thalamic_relay.Prelude.{
  ℕ, ◌+◌, ◌≡◌, ◌≢◌, ◌↔◌, refl, true, false, Bool, List, [], ◌∷◌, some, Result, ok, err, arith,
  Chars, All, length, lines, trim, same_chars, is_empty, same_chars_iff, split, subst, u64_max,
  parse_unsigned-le, if◌then◌else◌,
}
use thalamic_relay.Float.{Float}
use thalamic_relay.Float.Printed.{FloatText, IsFloatText}
use thalamic_relay.Csv.{
  header, TelemetryCsvRow, LoadResult, ParseDataLine, empty, parsed, malformed, TelemetryCsvError,
  io, empty_file, header_mismatch, parse_data_line, collect_line, collect_rows, parse_csv,
  parse_lines, validate_header, format_csv, parse_fields, returned, comma, load_csv, locate,
}
use thalamic_relay.Csv.Fields.{IsLineOf, parse_data_line-parsed_iff}
use thalamic_relay.Csv.RoundTrip.{IsRow, parse_csv-format_csv}

-- The blank lines.
abbrev pub blanks : List Chars → ℕ
blanks [] = 0
blanks (line ∷ rest) = (if is_empty (trim line) then 1 else 0) + blanks rest

is_blank : {F : Type 0} → ParseDataLine F → Bool
is_blank empty = true
is_blank _ = false

module _ (F : Type 0) ⦃float : Float F⦄ ⦃text : FloatText F⦄ where
  fields_not_blank : (fs : List Chars) → is_blank (returned (parse_fields {F = F} fs)) ≡ false
  unfolding is_blank parse_fields returned
  fields_not_blank [] = refl
  fields_not_blank (_ ∷ []) = refl
  fields_not_blank (_ ∷ _ ∷ []) = refl
  fields_not_blank (_ ∷ _ ∷ _ ∷ []) = refl
  fields_not_blank (_ ∷ _ ∷ _ ∷ _ ∷ []) = refl
  fields_not_blank (f₀ ∷ f₁ ∷ f₂ ∷ f₃ ∷ f₄ ∷ []) = ground arith
  fields_not_blank (_ ∷ _ ∷ _ ∷ _ ∷ _ ∷ _ ∷ _) = refl

  line_blank : (line : Chars) → is_blank (parse_data_line {F = F} line) ≡ is_empty (trim line)
  unfolding is_blank parse_data_line
  line_blank line = ground (arith, fields_not_blank (split comma (trim line)))

module _ {F : Type 0} ⦃float : Float F⦄ ⦃text : FloatText F⦄ where
  -- The rows stand in the order of their lines, and every line that a row can be read from gives it.
  pub data Reads : List Chars → List (TelemetryCsvRow F) → Type 0 where
    stop : Reads [] []
    row :
        {line : Chars} {rest : List Chars} {r : TelemetryCsvRow F} {rows : List (TelemetryCsvRow F)}
        → IsLineOf line r
        → Reads rest rows
        → Reads (line ∷ rest) (r ∷ rows)
    no_row :
        {line : Chars} {rest : List Chars} {rows : List (TelemetryCsvRow F)}
        → ((r : TelemetryCsvRow F) → ¬ IsLineOf line r)
        → Reads rest rows
        → Reads (line ∷ rest) rows

  -- What a file gives: its rows, and the number of the lines that are neither rows nor blank.
  pub record IsRead (ls : List Chars) (r : LoadResult F) : Type 0 where
    pub reads : Reads ls r.rows
    pub counts : length r.rows + r.skipped + blanks ls ≡ length ls

  IsRead-line :
      (line : Chars) (rest : List Chars) (r : LoadResult F) (p : ParseDataLine F)
      → parse_data_line line ≡ p
      → IsRead rest r
      → IsRead (line ∷ rest) (collect_line p r)
  unfolding collect_line is_blank
  IsRead-line line rest r empty e i = record {
    reads = no_row (λ x l. let p = (parse_data_line-parsed_iff line x).1 l in cc) i.reads;
    counts = ground (arith, i.counts, line_blank F line);
  }
  IsRead-line line rest r (parsed x) e i = record {
    reads = row ((parse_data_line-parsed_iff line x).0 e) i.reads;
    counts = ground (arith, i.counts, line_blank F line);
  }
  IsRead-line line rest r malformed e i = record {
    reads = no_row (λ x l. let p = (parse_data_line-parsed_iff line x).1 l in cc) i.reads;
    counts = ground (arith, i.counts, line_blank F line);
  }

  collect_rows-IsRead : (ls : List Chars) → IsRead ls (collect_rows ls)
  unfolding collect_rows
  collect_rows-IsRead [] = record { reads = stop; counts = refl }
  collect_rows-IsRead (line ∷ rest) =
      IsRead-line line rest (collect_rows rest) (parse_data_line line) refl
        (collect_rows-IsRead rest)

  IsRow-of_line : (line : Chars) (r : TelemetryCsvRow F) → IsLineOf line r → IsRow r
  IsRow-of_line line r l = record {
    time = omega (arith, parse_unsigned-le u64_max l.read.time l.read.read_time);
    gpu_temp = l.read.read_gpu_temp.1;
    gpu_power = l.read.read_gpu_power.1;
    cpu_tctl = l.read.read_cpu_tctl.1;
    cpu_power = l.read.read_cpu_power.1;
  }

  rows-IsRow : {ls : List Chars} {rows : List (TelemetryCsvRow F)} → Reads ls rows → All IsRow rows
  rows-IsRow stop = tt
  rows-IsRow (row l more) = (IsRow-of_line _ _ l, rows-IsRow more)
  rows-IsRow (no_row _ more) = rows-IsRow more

  -- A file that `parse_csv` accepts: the first line is the header, and the others are read.
  pub record IsLoaded (ls : List Chars) (r : LoadResult F) : Type 0 where
    pub first : Chars
    pub rest : List Chars
    pub are : ls ≡ first ∷ rest
    pub headed : trim first ≡ header
    pub read : IsRead rest r

module _ {E : Type 0} where
  -- The error of a load, and when it is given; each names the file.
  pub data FailsWith (path : Chars) : Result Chars E → TelemetryCsvError E → Type 0 where
    unread : {e : E} → FailsWith path (err e) (io path e)
    no_line : {c : Chars} → lines c ≡ [] → FailsWith path (ok c) (empty_file (some path))
    no_header :
        {c first : Chars} {rest : List Chars}
        → lines c ≡ first ∷ rest
        → trim first ≢ header
        → FailsWith path (ok c) (header_mismatch (some path) (trim first))

module _ {F E : Type 0} ⦃float : Float F⦄ ⦃text : FloatText F⦄ where
  parse_lines-IsLoaded :
      (ls : List Chars) (r : LoadResult F) → parse_lines {E = E} ls ≡ ok r → IsLoaded ls r
  unfolding parse_lines validate_header
  parse_lines-IsLoaded [] r h = cc
  parse_lines-IsLoaded (first ∷ rest) r h = record {
    first = first;
    rest = rest;
    are = refl;
    headed = ground (arith, same_chars_iff (trim first) header);
    read =
        let e : collect_rows rest ≡ r = ground arith in
        subst (IsRead rest) e (collect_rows-IsRead rest);
  }

  -- What `parse_csv` accepts begins with the header. The rows are read from the lines after it, in
  -- order and each wherever there is one, and rows, skipped lines and blank lines are all lines there.
  pub parse_csv-IsLoaded :
      (contents : Chars) {r : LoadResult F}
      → parse_csv {E = E} contents ≡ ok r
      → IsLoaded (lines contents) r
  unfolding parse_csv
  parse_csv-IsLoaded contents = parse_lines-IsLoaded (lines contents) _

  -- The rows of an accepted file, written again with `format_csv`, are read back without a skip,
  -- whatever else the file held.
  pub parse_csv-format_csv-parse_csv :
      IsFloatText F
      → (contents : Chars) {r : LoadResult F} → parse_csv {E = E} contents ≡ ok r
      → parse_csv {E = E} (format_csv r.rows) ≡ ok (record { rows = r.rows; skipped = 0 })
  parse_csv-format_csv-parse_csv L contents {r} h =
      parse_csv-format_csv L r.rows (rows-IsRow (parse_csv-IsLoaded contents h).read.reads)

  fails_on :
      (path c : Chars) (ls : List Chars) (e : TelemetryCsvError E)
      → lines c ≡ ls
      → locate {F = F} path (parse_lines ls) ≡ err e
      → FailsWith path (ok c) e
  unfolding parse_lines validate_header locate
  fails_on path c [] e are h =
      let q : empty_file (some path) ≡ e = cc in subst (FailsWith path (ok c)) q (no_line are)
  fails_on path c (first ∷ rest) e are h =
      let same = same_chars_iff (trim first) header in
      let q : header_mismatch (some path) (trim first) ≡ e = ground arith in
      subst (FailsWith path (ok c)) q (no_header are (ground (arith, same)))

  load_csv-FailsWith :
      (path : Chars) (contents : Result Chars E) (e : TelemetryCsvError E)
      → load_csv {F = F} path contents ≡ err e
      → FailsWith path contents e
  unfolding load_csv parse_csv
  load_csv-FailsWith path (err x) e h =
      let q : io path x ≡ e = cc in subst (FailsWith path (err x)) q unread
  load_csv-FailsWith path (ok c) e h = fails_on path c (lines c) e refl h

  load_csv_fails :
      (path : Chars) (contents : Result Chars E) (e : TelemetryCsvError E)
      → FailsWith path contents e
      → load_csv {F = F} path contents ≡ err e
  unfolding load_csv parse_csv parse_lines validate_header locate
  load_csv_fails path _ _ unread = refl
  load_csv_fails path _ _ (no_line {c} h) = rw (h, locate, parse_lines) refl
  load_csv_fails path _ _ (no_header {c} {first} {rest} h n) =
      let same = same_chars_iff (trim first) header in
      let q : same_chars (trim first) header ≡ false = ground (arith, same) in
      rw (h, parse_lines, q) refl

  -- `load_csv` fails exactly where the file cannot be read, has no line, or has a first line that is
  -- not the header without its outer white space; the error says which, and names the file.
  pub load_csv-fails_iff :
      (path : Chars) (contents : Result Chars E) (e : TelemetryCsvError E)
      → (load_csv {F = F} path contents ≡ err e) ↔ FailsWith path contents e
  load_csv-fails_iff path contents e =
      (load_csv-FailsWith path contents e, load_csv_fails path contents e)
