-- ===== src/Csv/Fields.antt =====
-- src/telemetry_csv.rs: which lines `parse_data_line` accepts, said without `split`.
use thalamic_relay.Prelude.{
  ◌≡◌, ◌↔◌, refl, sym, true, false, Bool-cases, List, [], ◌∷◌, some, arith, Chars, All, is_empty,
  is_empty-append, inl, inr, split-joined, trim, split, Lacks, joined, joined-split, split-Lacks,
  parse_unsigned, u64_max,
}
use thalamic_relay.Float.{Float}
use thalamic_relay.Float.Printed.{FloatText}
use thalamic_relay.Csv.{
  comma, TelemetryCsvRow, parsed, parse_finite_f32, parse_data_line, parse_fields, returned,
}

module _ {F : Type 0} ⦃float : Float F⦄ ⦃text : FloatText F⦄ where
  abbrev IsReading : Chars → F → Type 0
  IsReading s x = (text.parse_f32 s ≡ some x) × (float.is_finite x ≡ true)

  -- Five fields that are read as the row.
  pub record IsFields (fs : List Chars) (row : TelemetryCsvRow F) : Type 0 where
    pub time : Chars
    pub gpu_temp : Chars
    pub gpu_power : Chars
    pub cpu_tctl : Chars
    pub cpu_power : Chars
    pub are : fs ≡ time ∷ gpu_temp ∷ gpu_power ∷ cpu_tctl ∷ cpu_power ∷ []
    pub read_time : parse_unsigned u64_max time ≡ some row.timestamp_ms
    pub read_gpu_temp : IsReading gpu_temp row.gpu_temp_c
    pub read_gpu_power : IsReading gpu_power row.gpu_power_w
    pub read_cpu_tctl : IsReading cpu_tctl row.cpu_tctl_c
    pub read_cpu_power : IsReading cpu_power row.cpu_package_power_w

  parse_finite_f32_iff : (s : Chars) (x : F) → (parse_finite_f32 s ≡ some x) ↔ IsReading s x
  unfolding parse_finite_f32
  parse_finite_f32_iff s x = ground arith

  parse_fields_five :
      (f₀ f₁ f₂ f₃ f₄ : Chars) (row : TelemetryCsvRow F)
      → returned (parse_fields (f₀ ∷ f₁ ∷ f₂ ∷ f₃ ∷ f₄ ∷ [])) ≡ parsed row
      → IsFields (f₀ ∷ f₁ ∷ f₂ ∷ f₃ ∷ f₄ ∷ []) row
  unfolding parse_fields returned parse_finite_f32
  parse_fields_five f₀ f₁ f₂ f₃ f₄ row h = record {
    time = f₀;
    gpu_temp = f₁;
    gpu_power = f₂;
    cpu_tctl = f₃;
    cpu_power = f₄;
    are = refl;
    read_time = ground arith;
    read_gpu_temp = ground arith;
    read_gpu_power = ground arith;
    read_cpu_tctl = ground arith;
    read_cpu_power = ground arith;
  }

  parse_fields-IsFields :
      (fs : List Chars) (row : TelemetryCsvRow F)
      → returned (parse_fields fs) ≡ parsed row
      → IsFields fs row
  unfolding parse_fields returned
  parse_fields-IsFields [] row h = cc
  parse_fields-IsFields (_ ∷ []) row h = cc
  parse_fields-IsFields (_ ∷ _ ∷ []) row h = cc
  parse_fields-IsFields (_ ∷ _ ∷ _ ∷ []) row h = cc
  parse_fields-IsFields (_ ∷ _ ∷ _ ∷ _ ∷ []) row h = cc
  parse_fields-IsFields (f₀ ∷ f₁ ∷ f₂ ∷ f₃ ∷ f₄ ∷ []) row h = parse_fields_five f₀ f₁ f₂ f₃ f₄ row h
  parse_fields-IsFields (_ ∷ _ ∷ _ ∷ _ ∷ _ ∷ _ ∷ _) row h = cc

  parse_fields_of :
      (fs : List Chars) (row : TelemetryCsvRow F)
      → IsFields fs row
      → returned (parse_fields fs) ≡ parsed row
  unfolding parse_fields returned
  parse_fields_of fs row f =
      rw
        (
          f.are,
          f.read_time,
          (parse_finite_f32_iff _ _).1 f.read_gpu_temp,
          (parse_finite_f32_iff _ _).1 f.read_gpu_power,
          (parse_finite_f32_iff _ _).1 f.read_cpu_tctl,
          (parse_finite_f32_iff _ _).1 f.read_cpu_power,
        )
        refl

  -- What a line must be for `row` to be read from it: without its outer white space it is five texts
  -- that hold no comma, with commas between them.
  pub record IsLineOf (line : Chars) (row : TelemetryCsvRow F) : Type 0 where
    pub fields : List Chars
    pub spelled : trim line ≡ joined comma fields
    pub apart : All (Lacks comma) fields
    pub read : IsFields fields row

  of_parsed :
      (line : Chars) (row : TelemetryCsvRow F)
      → is_empty (trim line) ≡ false
      → parse_data_line line ≡ parsed row
      → IsLineOf line row
  unfolding parse_data_line
  of_parsed line row e h = record {
    fields = split comma (trim line);
    spelled = sym (joined-split comma (trim line));
    apart = split-Lacks comma (trim line);
    read = parse_fields-IsFields _ row (ground arith);
  }

  not_blank :
      (line : Chars) (row : TelemetryCsvRow F) → IsLineOf line row → is_empty (trim line) ≡ false
  not_blank line row l = rw (l.spelled, l.read.are) (is_empty-append _ comma _)

  split-IsLineOf :
      (line : Chars) (row : TelemetryCsvRow F) (l : IsLineOf line row)
      → split comma (trim line) ≡ l.fields
  split-IsLineOf line row l =
      let apart = rw l.read.are at l.apart in
      rw (l.spelled, l.read.are) (split-joined comma _ _ apart)

  -- `parse_data_line` takes a row from a line exactly where the line, without its outer white space, is
  -- five texts with commas between them, of which the first is read as the u64 and the others as the
  -- finite values of the row.
  pub parse_data_line-parsed_iff :
      (line : Chars) (row : TelemetryCsvRow F)
      → (parse_data_line line ≡ parsed row) ↔ IsLineOf line row
  unfolding parse_data_line
  parse_data_line-parsed_iff line row = (
    (λ h. elim (Bool-cases (is_empty (trim line))) [
      | inl e ↦ absurd (ground arith)
      | inr e ↦ of_parsed line row e h
    ]),
    λ l. rw (not_blank line row l, split-IsLineOf line row l) (parse_fields_of _ row l.read),
  )
