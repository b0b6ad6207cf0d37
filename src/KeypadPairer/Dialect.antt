-- ===== src/KeypadPairer/Dialect.antt =====
-- components/switchbot_keypad_bridge/keypad_pairer.cpp: the constants of the two keypad families, and the steps
-- of the progress display. A pointer that may be null is an Option.
use switchbot_keypad_bridge.Common.{
  ℕ, Option, none, some, List, [], ◌∷◌, ltb, if◌then◌else◌, get_or, Bytes, text,
}
use switchbot_keypad_bridge.KeypadAdvert.{KeypadFamily, original, vision}

pub record FamilyPreset : Type 0 where
  pub shared_slot : ℕ
  pub slot_init_nonce : ℕ
  pub enter_pairing : Bytes
  pub capabilities_probe : Option Bytes
  pub finalize_tail : Bytes
  pub enable_doorbell : Option Bytes

abbrev pub original_preset : FamilyPreset
original_preset = record {
  shared_slot = 0x88;
  slot_init_nonce = 0x69;
  enter_pairing = 0x0F ∷ 0x52 ∷ 0x01 ∷ 0x07 ∷ 0x00 ∷ [];
  capabilities_probe = none;
  finalize_tail = 0x00 ∷ 0x08 ∷ 0x09 ∷ 0x04 ∷ 0x05 ∷ 0x07 ∷ [];
  enable_doorbell = none;
}

abbrev pub vision_preset : FamilyPreset
vision_preset = record {
  shared_slot = 0xC6;
  slot_init_nonce = 0x80;
  enter_pairing = 0x0F ∷ 0x53 ∷ 0x01 ∷ 0x07 ∷ [];
  capabilities_probe = some (0x0F ∷ 0x53 ∷ 0x07 ∷ 0x03 ∷ []);
  finalize_tail = 0x04 ∷ 0x04 ∷ 0x01 ∷ 0x05 ∷ 0x08 ∷ 0x09 ∷ [];
  enable_doorbell = some (0x0F ∷ 0x52 ∷ 0x01 ∷ 0x09 ∷ 0x02 ∷ 0x01 ∷ 0x01 ∷ []);
}

unfoldable pub preset_for : KeypadFamily → FamilyPreset
preset_for vision = vision_preset
preset_for original = original_preset

abbrev pub step_labels : List Bytes
step_labels =
    text "Connecting to keypad"
    ∷ text "Discovering services"
    ∷ text "Negotiating session key"
    ∷ text "Opening lock slot"
    ∷ text "Writing shared key (1/2)"
    ∷ text "Writing shared key (2/2)"
    ∷ text "Updating lock target"
    ∷ text "Finalising"
    ∷ text "Force-enabling doorbell"
    ∷ []

abbrev pub base_step_count : ℕ
base_step_count = 8

abbrev pub doorbell_step : ℕ
doorbell_step = 8

abbrev pub vision_step_count : ℕ
vision_step_count = 9

unfoldable pub step_count : KeypadFamily → ℕ
step_count vision = vision_step_count
step_count original = base_step_count

abbrev pub label : ℕ → Bytes
label step = get_or step_labels step []

unfoldable pub step_label : KeypadFamily → ℕ → Bytes
step_label family step = if ltb step (step_count family) then label step else []
