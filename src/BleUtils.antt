-- ===== src/BleUtils.antt =====
-- components/switchbot_keypad_bridge/ble_utils.h and ble_utils.cpp: what the program takes from an advertisement and
-- from an address of the BLE library.
use switchbot_keypad_bridge.Common.{ℕ, ◌-◌, [], ◌∷◌, if◌then◌else◌, get_or, is_nil, ℤ, Bytes}

-- An advertised device: its address as text, its signal, and its service data under the two UUIDs.
pub record Advertised : Type 0 where
  pub address : Bytes
  pub rssi : ℤ
  pub fd3d_data : Bytes
  pub old_data : Bytes

unfoldable pub switchbot_service_data : Advertised → Bytes
switchbot_service_data adv = if is_nil adv.fd3d_data then adv.old_data else adv.fd3d_data

-- The library keeps the six bytes of an address in reverse.
unfoldable pub addr_bytes : Bytes → Bytes
addr_bytes raw =
    let at = λ (i : ℕ). get_or raw (5 - i) 0 in at 0 ∷ at 1 ∷ at 2 ∷ at 3 ∷ at 4 ∷ at 5 ∷ []
