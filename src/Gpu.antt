-- ===== src/Gpu.antt =====
-- src/gpu.rs: the identity of the GPU and the driver as the program sees it. What nvml-wrapper returns
-- is the record `Nvml`, an argument of every function that calls it: the driver at that time. Texts of
-- its errors are code points.
use thalamic_relay.Prelude.{
  ℕ, Bool, true, false, ◌&&◌, ◌||◌, not, leb, ◌==◌, if◌then◌else◌, Option, none, some, and_then,
  List, [], ◌∷◌, Result, ok, err, ◌>>=◌, ◌>>◌, ok_or, refuse_if, Chars, codes, split, length,
  is_empty,
}
pub mod Identity
pub mod Bridge
pub mod Actuator

pub record Nvml : Type 1 where
  pub Device : Type 0
  pub device_by_index : ℕ → Result Device Chars
  pub device_by_uuid : Chars → Result Device Chars
  pub uuid : Device → Result Chars Chars
  pub temperature : Device → Option ℕ
  pub power_usage : Device → Option ℕ
  pub graphics_clock : Device → Option ℕ
  pub memory_clock : Device → Option ℕ
  pub fan_speed : Device → Option ℕ
  pub memory_utilization : Device → Option ℕ
  pub power_management_limit : Device → Option ℕ
  pub power_management_limit_default : Device → Option ℕ

pub record GpuTarget : Type 0 where
  pub uuid : Chars

pub data TargetError : Type 0 where
  nvml_init : TargetError
  device_lookup : Chars → TargetError
  uuid_read : Chars → TargetError
  uuid_invalid : Chars → TargetError
  uuid_round_trip : Chars → TargetError

-- `u8::is_ascii_hexdigit`. A character outside ASCII has no byte that is one.
unfoldable pub is_hexdigit : ℕ → Bool
is_hexdigit c = leb 48 c && leb c 57 || leb 65 c && leb c 70 || leb 97 c && leb c 102

unfoldable pub all_hex : Chars → Bool
unfolding is_hexdigit
all_hex [] = true
all_hex (c ∷ s) = is_hexdigit c && all_hex s

-- The loop over the expected lengths, with the iterator over the parts.
unfoldable pub check_groups : (groups : List ℕ) → (parts : List Chars) → Bool
unfolding all_hex
check_groups [] parts = is_empty parts
check_groups (expected ∷ groups) [] = false
check_groups (expected ∷ groups) (part ∷ parts) =
    (length part == expected && all_hex part) && check_groups groups parts

abbrev pub dash : ℕ
dash = 45

abbrev pub group_lengths : List ℕ
group_lengths = 8 ∷ 4 ∷ 4 ∷ 4 ∷ 12 ∷ []

-- `strip_prefix`.
abbrev pub strip_prefix : Chars → Chars → Option Chars
strip_prefix [] s = some s
strip_prefix (c ∷ prefix) [] = none
strip_prefix (c ∷ prefix) (d ∷ s) = if c == d then strip_prefix prefix s else none

body_is_valid : Option Chars → Bool
body_is_valid none = false
body_is_valid (some body) = check_groups group_lengths (split dash body)

unfoldable pub is_valid_gpu_uuid : Chars → Bool
unfolding check_groups body_is_valid
is_valid_gpu_uuid uuid = body_is_valid (strip_prefix (codes "GPU-") uuid)

-- `map_err`.
abbrev pub map_err {ℓ κ μ} :
    {A : Type ℓ} {E : Type κ} {E' : Type μ} → Result A E → (E → E') → Result A E'
map_err (ok a) f = ok a
map_err (err e) f = err (f e)

-- `GpuTarget::resolve`.
unfoldable pub resolve_target : Option Nvml → Result GpuTarget TargetError
unfolding is_valid_gpu_uuid
resolve_target none = err nvml_init
resolve_target (some nvml) = do
  device ← map_err (nvml.device_by_index 0) device_lookup
  uuid ← map_err (nvml.uuid device) uuid_read
  refuse_if (not (is_valid_gpu_uuid uuid)) (uuid_invalid uuid)
  _ ← map_err (nvml.device_by_uuid uuid) uuid_round_trip
  ok (record { uuid = uuid })
