-- ===== src/Gpu/Identity.antt =====
-- src/gpu.rs: which identities are accepted, and which device the relay binds to.
use thalamic_relay.Prelude.{
  ℕ, ◌≡◌, ◌↔◌, refl, ◌∙◌, ap, sym, true, Option, none, some, List, [], ◌∷◌, ◌++◌, ok, arith, Chars,
  codes, All, split, joined, joined-split, split-joined, Lacks, length, Result-cases, Bool-cases,
  subst, inl, inr,
}
use thalamic_relay.Gpu.{
  Nvml, GpuTarget, is_hexdigit, all_hex, check_groups, dash, group_lengths, strip_prefix,
  body_is_valid, is_valid_gpu_uuid, resolve_target,
}

-- A group of hexadecimal digits.
abbrev pub IsGroup : ℕ → Chars → Type 0
IsGroup n part = (length part ≡ n) × All (λ c. is_hexdigit c ≡ true) part

-- Groups of the given lengths, one for each.
pub data AreGroups : List ℕ → List Chars → Type 0 where
  none_left : AreGroups [] []
  group :
      {n : ℕ} {ns : List ℕ} {part : Chars} {parts : List Chars}
      → IsGroup n part
      → AreGroups ns parts
      → AreGroups (n ∷ ns) (part ∷ parts)

all_hex_iff : (s : Chars) → (all_hex s ≡ true) ↔ All (λ c. is_hexdigit c ≡ true) s
unfolding all_hex
all_hex_iff [] = ground arith
all_hex_iff (c ∷ s) = ground (arith, all_hex_iff s)

check_groups-AreGroups :
    (ns : List ℕ) (parts : List Chars) → check_groups ns parts ≡ true → AreGroups ns parts
unfolding check_groups
check_groups-AreGroups [] [] h = none_left
check_groups-AreGroups [] (_ ∷ _) h = cc
check_groups-AreGroups (n ∷ ns) [] h = cc
check_groups-AreGroups (n ∷ ns) (part ∷ parts) h =
    group (ground arith, (all_hex_iff part).0 (ground arith))
      (check_groups-AreGroups ns parts (ground arith))

check_groups_of :
    {ns : List ℕ} {parts : List Chars} → AreGroups ns parts → check_groups ns parts ≡ true
unfolding check_groups
check_groups_of none_left = refl
check_groups_of (group {part = part} (len, hex) more) =
    ground (arith, (all_hex_iff part).1 hex, check_groups_of more)

group-Lacks : (part : Chars) → All (λ c. is_hexdigit c ≡ true) part → Lacks dash part
unfolding is_hexdigit
group-Lacks [] _ = tt
group-Lacks (c ∷ part) (h, hs) = (ground arith, group-Lacks part hs)

groups_lack : {ns : List ℕ} {parts : List Chars} → AreGroups ns parts → All (Lacks dash) parts
groups_lack none_left = tt
groups_lack (group {part = part} (len, hex) more) = (group-Lacks part hex, groups_lack more)

strip_prefix_iff : (p s body : Chars) → (strip_prefix p s ≡ some body) ↔ (s ≡ p ++ body)
strip_prefix_iff [] s body = ground arith
strip_prefix_iff (c ∷ p) [] body = ground arith
strip_prefix_iff (c ∷ p) (d ∷ s) body = ground (arith, strip_prefix_iff p s body)

-- The identity of a physical GPU: the prefix, then the groups of a UUID with dashes between them.
pub record IsGpuUuid (uuid : Chars) : Type 0 where
  pub groups : List Chars
  pub are_groups : AreGroups group_lengths groups
  pub spelled : uuid ≡ codes "GPU-" ++ joined dash groups

split-groups :
    (n : ℕ) (ns : List ℕ) (groups : List Chars)
    → AreGroups (n ∷ ns) groups
    → split dash (joined dash groups) ≡ groups
split-groups n ns (part ∷ parts) g = split-joined dash part parts (groups_lack g)
split-groups n ns [] g = elim g [ ]

of_body :
    (uuid : Chars) (o : Option Chars)
    → strip_prefix (codes "GPU-") uuid ≡ o
    → body_is_valid o ≡ true
    → IsGpuUuid uuid
unfolding body_is_valid
of_body uuid none e h = cc
of_body uuid (some body) e h = record {
  groups = split dash body;
  are_groups = check_groups-AreGroups group_lengths (split dash body) h;
  spelled =
      (strip_prefix_iff (codes "GPU-") uuid body).0 e
      ∙ ap (λ s. codes "GPU-" ++ s) (sym (joined-split dash body));
}

valid_of : (uuid : Chars) → IsGpuUuid uuid → is_valid_gpu_uuid uuid ≡ true
unfolding is_valid_gpu_uuid body_is_valid
valid_of uuid g =
    let body = joined dash g.groups in
    let e = (strip_prefix_iff (codes "GPU-") uuid body).1 g.spelled in
    rw (e, split-groups 8 _ g.groups g.are_groups) (check_groups_of g.are_groups)

-- `is_valid_gpu_uuid` accepts exactly the texts "GPU-" and five groups of 8, 4, 4, 4 and 12 hexadecimal
-- digits with dashes between them.
pub is_valid_gpu_uuid_iff : (uuid : Chars) → (is_valid_gpu_uuid uuid ≡ true) ↔ IsGpuUuid uuid
unfolding is_valid_gpu_uuid
is_valid_gpu_uuid_iff uuid = (of_body uuid (strip_prefix (codes "GPU-") uuid) refl, valid_of uuid)

-- The device that a driver binds the relay to: the one at index 0, by an identity that is well formed
-- and that the driver finds again.
pub record IsBound (driver : Option Nvml) (target : GpuTarget) : Type 1 where
  pub nvml : Nvml
  pub device : nvml.Device
  pub again : nvml.Device
  pub is_nvml : driver ≡ some nvml
  pub at_zero : nvml.device_by_index 0 ≡ ok device
  pub identity : nvml.uuid device ≡ ok target.uuid
  pub well_formed : IsGpuUuid target.uuid
  pub found : nvml.device_by_uuid target.uuid ≡ ok again

IsBound-by :
    (nvml : Nvml) (target : GpuTarget)
    → resolve_target (some nvml) ≡ ok target
    → IsBound (some nvml) target
unfolding resolve_target
IsBound-by nvml target h = elim (Result-cases (nvml.device_by_index 0)) [
  | inr (e, q) ↦ absurd (ground arith)
  | inl (device, q) ↦ elim (Result-cases (nvml.uuid device)) [
    | inr (e, r) ↦ absurd (ground arith)
    | inl (u, r) ↦ elim (Bool-cases (is_valid_gpu_uuid u)) [
      | inr v ↦ absurd (ground arith)
      | inl v ↦ elim (Result-cases (nvml.device_by_uuid u)) [
        | inr (e, f) ↦ absurd (ground arith)
        | inl (again, f) ↦
            let same : u ≡ target.uuid = ground arith in
            record {
              nvml = nvml;
              device = device;
              again = again;
              is_nvml = refl;
              at_zero = q;
              identity = r ∙ ap ok same;
              well_formed =
                  (is_valid_gpu_uuid_iff target.uuid).0
                    (subst (λ t. is_valid_gpu_uuid t ≡ true) same v);
              found = subst (λ t. nvml.device_by_uuid t ≡ ok again) same f;
            }
      ]
    ]
  ]
]

no_driver : (target : GpuTarget) → ¬ (resolve_target none ≡ ok target)
unfolding resolve_target
no_driver target h = cc

binds :
    (driver : Option Nvml) (target : GpuTarget)
    → IsBound driver target
    → resolve_target driver ≡ ok target
unfolding resolve_target
binds driver target b =
    let v = (is_valid_gpu_uuid_iff target.uuid).1 b.well_formed in
    rw (b.is_nvml, b.at_zero, b.identity, v, b.found) refl

-- `GpuTarget::resolve` gives a target exactly where the driver is there and its device 0 has that
-- identity, the identity is well formed, and the driver finds a device by it. No other device is tried.
pub resolve_target-IsBound_iff :
    (driver : Option Nvml) (target : GpuTarget)
    → (resolve_target driver ≡ ok target) ↔ IsBound driver target
resolve_target-IsBound_iff driver target = (of_resolved driver target, binds driver target)
  where
    of_resolved :
        (driver : Option Nvml) (target : GpuTarget)
        → resolve_target driver ≡ ok target
        → IsBound driver target
    of_resolved none target h = absurd (no_driver target h)
    of_resolved (some nvml) target h = IsBound-by nvml target h
