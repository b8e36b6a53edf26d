-- ===== src/Publish/Batch/Masked.antt =====
-- The arrays of a batch: one entry for each channel, and a mask that tells data from filler.
use thalamic_relay.Prelude.{
  ℕ, suc, ◌≡◌, refl, if◌then◌else◌, Bool, Option, none, some, String, List, [], ◌∷◌, map, length,
  ap, ap₂,
}
use thalamic_relay.Float.{Float}
use thalamic_relay.Telemetry.{SampleValidity}
use thalamic_relay.Telemetry.Mapping.{MappedStimulus, SensoryMapping}
use thalamic_relay.Publish.Batch.{slot_of, slot, mapping_to_stimulus_batch}

length-map {ℓ κ} :
    {A : Type ℓ} {B : Type κ} (f : A → B) (xs : List A) → length (map f xs) ≡ length xs
length-map f [] = refl
length-map f (x ∷ xs) = ap suc (length-map f xs)

module _ {F : Type 0} where
  -- What a receiver reads: the value of a channel whose place in the mask is set.
  abbrev pub read_masked : List F → List Bool → List (Option F)
  read_masked (v ∷ vs) (b ∷ bs) = (if b then some v else none) ∷ read_masked vs bs
  read_masked _ _ = []

  usable_of : SampleValidity → Option F → Option F
  usable_of SampleValidity.valid v = v
  usable_of _ v = none

  -- The normalized value of a valid channel.
  unfoldable pub usable_value : MappedStimulus F → Option F
  unfolding usable_of
  usable_value s = usable_of s.validity s.normalized

module _ {F : Type 0} ⦃float : Float F⦄ where
  read_slot :
      (y : SampleValidity) (v : Option F)
      → let (value, mask) = slot_of y v in (if mask then some value else none) ≡ usable_of y v
  unfolding slot_of usable_of
  read_slot SampleValidity.valid none = refl
  read_slot SampleValidity.valid (some v) = refl
  read_slot SampleValidity.missing v = refl
  read_slot SampleValidity.invalid v = refl
  read_slot SampleValidity.stale v = refl

  read_slots :
      (stimuli : List (MappedStimulus F))
      → read_masked (map (λ s. (slot s).0) stimuli) (map (λ s. (slot s).1) stimuli)
        ≡ map usable_value stimuli
  unfolding slot usable_value
  read_slots [] = refl
  read_slots (s ∷ rest) = ap₂ (λ v vs. v ∷ vs) (read_slot s.validity s.normalized) (read_slots rest)

  -- The batch tells a real zero from a filler: read through the mask, its values are the normalized
  -- values of the valid channels, in order, and nothing for each other channel; the values, the mask
  -- and the channels of the mapping are equally many.
  pub mapping_to_stimulus_batch-read :
      (mapping : SensoryMapping F) (session_id : Option String) (batch_id : ℕ)
      → let batch = mapping_to_stimulus_batch mapping session_id batch_id in
        (read_masked batch.values batch.valid_mask ≡ map usable_value mapping.stimuli)
        × (length batch.values ≡ length mapping.stimuli)
        × (length batch.valid_mask ≡ length mapping.stimuli)
  unfolding mapping_to_stimulus_batch
  mapping_to_stimulus_batch-read mapping session_id batch_id =
      (read_slots mapping.stimuli, length-map _ mapping.stimuli, length-map _ mapping.stimuli)
