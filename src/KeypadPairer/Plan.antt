-- ===== src/KeypadPairer/Plan.antt =====
-- The commands of a pairing as the keypad sees them, apart from the code of
-- components/switchbot_keypad_bridge/keypad_pairer.cpp that sends them.
use switchbot_keypad_bridge.Common.{
  ◌≡◌, true, Option, none, some, List, [], ◌∷◌, ◌++◌, arith, get_or, take, drop, All, Bytes, IsByte,
}
use switchbot_keypad_bridge.AesCtr.Cipher.{Xcrypt}
use switchbot_keypad_bridge.KeypadAdvert.{KeypadFamily, original, vision}
use switchbot_keypad_bridge.KeypadPairer.Dialect.{FamilyPreset, preset_for}
use switchbot_keypad_bridge.KeypadPairer.JobStatus.{KeypadPairer, failed}
use switchbot_keypad_bridge.KeypadPairer.Job.{Act, Run, write}
use switchbot_keypad_bridge.KeypadPairer.Execute.{
  not_entered, slot_not_opened, chunk_1_failed, chunk_2_failed, target_failed, finalize_1,
}

-- A command, with the error that its loss causes; one without may be lost.
pub record PlanItem : Type 0 where
  pub bytes : Bytes
  pub failure : Option Bytes

abbrev pub required : Bytes → Bytes → PlanItem
required bytes failure = record { bytes = bytes; failure = some failure }

abbrev pub optional : Bytes → PlanItem
optional bytes = record { bytes = bytes; failure = none }

abbrev pub if_any : Option Bytes → List PlanItem
if_any none = []
if_any (some bytes) = optional bytes ∷ []

-- The slot is opened, gets the two halves `a` and `b` of the token and the address that the keypad is to talk to,
-- and is closed.
abbrev pub pairing_plan : FamilyPreset → Bytes → Bytes → Bytes → List PlanItem
pairing_plan preset a b mac =
    required preset.enter_pairing not_entered
    ∷ (if_any preset.capabilities_probe
        ++ (optional (0x06 ∷ 0x03 ∷ [])
            ∷ required (0x0F ∷ 0x20 ∷ 0x03 ∷ preset.shared_slot ∷ preset.slot_init_nonce ∷ [])
                slot_not_opened
            ∷ required (0x0F ∷ 0x20 ∷ 0x04 ∷ preset.shared_slot ∷ 0x00 ∷ a) chunk_1_failed
            ∷ required (0x0F ∷ 0x20 ∷ 0x04 ∷ preset.shared_slot ∷ 0x01 ∷ b) chunk_2_failed
            ∷ required (0x06 ∷ 0x01 ∷ preset.shared_slot ∷ mac) target_failed
            ∷ optional
                (0x0F ∷ 0x52 ∷ 0x02 ∷ 0x02 ∷ 0x10 ∷ 0xFF ∷ 0x05 ∷ 0x06 ∷ preset.finalize_tail)
            ∷ optional (0x0F ∷ 0x53 ∷ 0x01 ∷ 0x06 ∷ [])
            ∷ if_any preset.enable_doorbell))

-- The constants of a family are bytes.
pub record IsOfBytes (preset : FamilyPreset) : Type 0 where
  pub slot : IsByte preset.shared_slot
  pub nonce : IsByte preset.slot_init_nonce
  pub enter : All IsByte preset.enter_pairing
  pub probe : All (λ c. All IsByte c.bytes) (if_any preset.capabilities_probe)
  pub tail : All IsByte (finalize_1 preset)
  pub doorbell : All (λ c. All IsByte c.bytes) (if_any preset.enable_doorbell)

pub preset_for-IsOfBytes : (family : KeypadFamily) → IsOfBytes (preset_for family)
unfolding preset_for
preset_for-IsOfBytes original = omega arith
preset_for-IsOfBytes vision = omega arith

-- The frames that the keypad acknowledged, in their order, before `later`.
abbrev pub accepted : List Act → List Bytes → List Bytes
accepted [] later = later
accepted (write frame true ∷ acts) later = accepted acts (frame ∷ later)
accepted (_ ∷ acts) later = accepted acts later

module _ (xcrypt : Xcrypt Bytes) (p : KeypadPairer) where
  -- The keypad reads a command in a frame: the frame names the key and begins the IV, and the rest decrypts.
  pub record Reads (frame pt : Bytes) : Type 0 where
    pub header : take 4 frame ≡ 0x57 ∷ p.key_id ∷ get_or p.iv 0 0 ∷ get_or p.iv 1 0 ∷ []
    pub body : xcrypt p.key p.iv (drop 4 frame) ≡ some pt

  -- The frames bring the commands in order; what is missing was optional.
  pub data Delivered : List PlanItem → List Bytes → Type 0 where
    nothing : Delivered [] []
    got :
        {c : PlanItem} {cs : List PlanItem} {frame : Bytes} {frames : List Bytes}
        → Reads frame c.bytes
        → Delivered cs frames
        → Delivered (c ∷ cs) (frame ∷ frames)
    lost :
        {c : PlanItem} {cs : List PlanItem} {frames : List Bytes}
        → c.failure ≡ none
        → Delivered cs frames
        → Delivered (c ∷ cs) frames

  pub Delivered-append :
      {cs ds : List PlanItem} {fs gs : List Bytes}
      → Delivered cs fs
      → Delivered ds gs
      → Delivered (cs ++ ds) (fs ++ gs)
  Delivered-append nothing e = e
  Delivered-append (got r d) e = got r (Delivered-append d e)
  Delivered-append (lost o d) e = lost o (Delivered-append d e)

  -- What the keypad got between two moments of a run.
  pub record Sent (cs : List PlanItem) (s s' : Run) : Type 0 where
    pub frames : List Bytes
    pub log : (later : List Bytes) → accepted s'.acts later ≡ accepted s.acts (frames ++ later)
    pub delivered : Delivered cs frames

  -- The run stopped at the first required command that did not get through, with that command's error.
  pub record StoppedAt (cs : List PlanItem) (s s' : Run) : Type 0 where
    pub before : List PlanItem
    pub item : PlanItem
    pub after : List PlanItem
    pub where_in_plan : cs ≡ before ++ item ∷ after
    pub sent : Sent before s s'
    pub error : item.failure ≡ some s'.pairer.status.error
    pub ended : s'.pairer.status.state ≡ failed
