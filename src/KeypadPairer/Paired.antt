-- ===== src/KeypadPairer/Paired.antt =====
-- components/switchbot_keypad_bridge/keypad_pairer.cpp: a pairing succeeds once its plan was carried out.
use switchbot_keypad_bridge.Common.{◌≡◌, true, Option, List, length, take, drop, All, Bytes, IsByte}
use switchbot_keypad_bridge.AesCtr.Cipher.{Xcrypt, IsStream}
use switchbot_keypad_bridge.KeypadPairer.Dialect.{preset_for}
use switchbot_keypad_bridge.KeypadPairer.JobStatus.{Request, success}
use switchbot_keypad_bridge.KeypadPairer.Job.{Run}
use switchbot_keypad_bridge.KeypadPairer.Triple.{After, Triple}
use switchbot_keypad_bridge.KeypadPairer.Plan.{PlanItem, pairing_plan, Sent, StoppedAt}

-- The end of a pairing, of which the keypad got the whole plan, or all before a required command.
abbrev pub PlanKept : Xcrypt Bytes → Run → List PlanItem → Option (Unit {0}) × Run → Type 0
PlanKept xcrypt s plan r =
    After (λ _ s'. (s'.pairer.status.state ≡ success) × Sent xcrypt s.pairer plan s s')
      (λ s'. StoppedAt xcrypt s.pairer plan s s') r

module _ (xcrypt : Xcrypt Bytes) (stream : IsStream xcrypt) (s : Run) (req : Request)
    (iv : length s.pairer.iv ≡ 16) (latched : s.pairer.iv_received ≡ true)
    (token : All IsByte req.shared_token) (mac : All IsByte req.esp_mac) where
  abbrev cut_plan : List PlanItem
  cut_plan =
      pairing_plan (preset_for req.family) (take 8 req.shared_token)
        (take 8 (drop 8 req.shared_token)) (take 6 req.esp_mac)
