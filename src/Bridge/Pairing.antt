-- ===== src/Bridge/Pairing.antt =====
-- components/switchbot_keypad_bridge/switchbot_keypad_bridge.cpp: a pairing that the web page finished,
-- and its undoing (`unpair`); also the hex keys of `send_raw_command` and `read_settings`. The key store
-- of PSA is not part of the program: the handle that an import returns is an argument.
pub mod Outcome
pub mod Unpaired
use switchbot_keypad_bridge.Common.{
  ℕ, ◌+◌, ◌-◌, ◌*◌, Bool, true, false, not, Option, none, some, [], ◌∷◌, ◌++◌, ◌==◌, if◌then◌else◌,
  length, take, replicate, is_nil, ℤ, ◌==ℤ◌, pos, negsuc, Bytes, u32, text,
}
use switchbot_keypad_bridge.KeypadAdvert.{KeypadFamily, original, vision}
use switchbot_keypad_bridge.MacUtils.{hex_digit, parse_mac_pretty, format_mac}
use switchbot_keypad_bridge.LockSession.{command, set_aes_key, forget_slot, reset}
use switchbot_keypad_bridge.Bridge.State.{
  KeypadInfo, no_keypad_info, Bridge, Method, ◌>>◌, emit, skip, emit_if, locked, publish_keypad,
  publish_battery, stop_scan, clear_results, save_name, save_info, save_key, clear_comm_key,
  destroy_key, start_ui,
}

abbrev pub keypad_name_max : ℕ
keypad_name_max = 48

-- The name in a buffer of 48 bytes that ends in a NUL.
unfoldable pub name_buffer : Bytes → Bytes
name_buffer name =
    take keypad_name_max (take (keypad_name_max - 1) name ++ replicate keypad_name_max 0)

-- A MAC that does not parse leaves the record blank.
unfoldable pub info_of : Bytes → KeypadFamily → KeypadInfo
info_of mac family = elim (parse_mac_pretty mac) [
  | none ↦ no_keypad_info
  | some bytes ↦ record { mac = bytes; family = family; valid = true }
]

-- The pairing is stored and the keypad's battery is due shortly.
unfoldable pub adopt_pairing : ℕ → Bytes → Bytes → KeypadFamily → Method
adopt_pairing now name mac family =
    emit (save_name (name_buffer name))
    >> emit (save_info (info_of mac family))
    >> (λ s. (
      [],
      record s {
        identity = record (s.identity) {
          info = info_of mac family;
          paired = true;
          name = name_buffer name;
        };
        battery = record (s.battery) { last_battery = negsuc 0; next_scan_at = u32 (now + 10000) };
        pending = record (s.pending) { pair_apply = none };
      },
    ))
    >> (λ s. emit_if s.wiring.keypad_text (publish_keypad name) s)

-- The first part of `loop()`.
unfoldable pub apply_pairing : ℕ → Method
apply_pairing now s = elim s.pending.pair_apply [
  | none ↦ ([], s)
  | some (name, mac, family) ↦ adopt_pairing now name mac family s
]

-- 16 fresh random bytes.
unfoldable pub create_shared_key : Bytes → Method
create_shared_key key s =
    (save_key key ∷ [], record s { identity = record (s.identity) { shared_key = key } })

-- An old handle is destroyed first; 0 is the null handle.
unfoldable pub drop_aes_key : Method
drop_aes_key s = if s.identity.aes_key_handle == 0 then ([], s) else (
  destroy_key s.identity.aes_key_handle ∷ [],
  record s { identity = record (s.identity) { aes_key_handle = 0 } },
)

-- The key is imported: the session uses the handle from now on.
unfoldable pub use_aes_key : ℕ → Method
use_aes_key handle s = (
  [],
  record s {
    identity = record (s.identity) { aes_key_handle = handle };
    session = set_aes_key handle s.session;
  },
)

-- A scan window that is open is closed, for the wizard scans with the same radio.
unfoldable pub end_scan : Bool → Method
end_scan is_scanning s =
    if s.battery.scan_active
    then (
      (if is_scanning then stop_scan ∷ [] else []) ++ clear_results ∷ [],
      record s { battery = record (s.battery) { scan_active = false } },
    )
    else ([], s)

unfoldable pub forget_keypad : Method
forget_keypad =
    emit (save_name (replicate keypad_name_max 0))
    >> emit (save_info no_keypad_info)
    >> emit clear_comm_key
    >> (λ s. emit_if s.wiring.keypad_text (publish_keypad (text "Unpaired")) s)
    >> (λ s. (
      [],
      record s {
        identity = record (s.identity) {
          name = replicate keypad_name_max 0;
          info = no_keypad_info;
          paired = false;
        };
        battery = record (s.battery) { last_battery = negsuc 0 };
        session = forget_slot (reset s.session);
      },
    ))
    >> (λ s. emit_if s.wiring.battery_level (publish_battery none) s)

-- What follows the rotation of the key, if the new one could be imported.
unfoldable pub finish_unpair : Option ℕ → Bool → Method
finish_unpair none is_scanning = skip
finish_unpair (some handle) is_scanning =
    use_aes_key handle
    >> end_scan is_scanning
    >> forget_keypad
    >> (λ s. (start_ui s.identity.shared_key ∷ [], s))

unfoldable pub unpair : Bytes → Option ℕ → Bool → Method
unpair key handle is_scanning =
    create_shared_key key >> drop_aes_key >> finish_unpair handle is_scanning

-- `UnpairButton::press_action`
unfoldable pub press_unpair : Bool → Bytes → Option ℕ → Bool → Method
press_unpair is_pairing_busy key handle is_scanning =
    if is_pairing_busy then skip else unpair key handle is_scanning

unfoldable pub rearm : Method
rearm s = ([], record s { lock = record (s.lock) { relock_pending = false; state = locked } })

-- Two hex digits a byte; `none` where a digit is none or one is left over.
abbrev hex_byte : Option ℕ → Option ℕ → Option ℕ
hex_byte (some hi) (some lo) = some (hi * 16 + lo)
hex_byte _ _ = none

abbrev prepend : Option ℕ → Option Bytes → Option Bytes
prepend (some b) (some bs) = some (b ∷ bs)
prepend _ _ = none

unfoldable pub unhex_pairs : Bytes → Option Bytes
unhex_pairs [] = some []
unhex_pairs (c ∷ []) = none
unhex_pairs (hi ∷ lo ∷ s) = prepend (hex_byte (hex_digit hi) (hex_digit lo)) (unhex_pairs s)

unfoldable pub unhex : Bytes → Option Bytes
unhex s = if is_nil s then none else unhex_pairs s

abbrev if_key_size : Option Bytes → Option Bytes
if_key_size none = none
if_key_size (some key) = if length key == 16 then some key else none

-- The key of an outgoing command: the given one of 16 bytes, or the shared key where none is given.
unfoldable pub command_key : Bytes → Bytes → Option Bytes
command_key key_hex shared_key =
    if is_nil key_hex then some shared_key else if_key_size (unhex key_hex)

-- The key id of an outgoing command; 0 asks for the default.
unfoldable pub command_key_id : Bytes → KeypadFamily → ℤ → ℤ
command_key_id key_hex family key_id =
    let session_id : ℤ = elim family [ vision ↦ pos 0xC6 | original ↦ pos 0x88 ] in
    if key_id ==ℤ pos 0 then (if is_nil key_hex then session_id else pos 0x45) else key_id

-- A job for the pairer: its target, the key id, the key and the command's bytes.
pub record RawCommand : Type 0 where
  pub mac : Bytes
  pub family : KeypadFamily
  pub key_id : ℤ
  pub key : Bytes
  pub command : Bytes

-- The job for the paired keypad.
abbrev job_for : Bridge → Bytes → ℤ → Bytes → Bytes → RawCommand
job_for s key_hex key_id key cmd = record {
  mac = format_mac s.identity.info.mac;
  family = s.identity.info.family;
  key_id = command_key_id key_hex s.identity.info.family key_id;
  key = key;
  command = cmd;
}

abbrev with_key : Bytes → ℤ → Bridge → Bytes → Option RawCommand
with_key key_hex key_id s cmd = elim (command_key key_hex s.identity.shared_key) [
  | none ↦ none
  | some key ↦ some (job_for s key_hex key_id key cmd)
]

-- What `send_raw_command` hands to `start_raw_command`, if anything.
unfoldable pub send_raw_command : Bytes → Bytes → ℤ → Bridge → Option RawCommand
send_raw_command command_hex key_hex key_id s =
    if s.identity.info.valid
    then elim (unhex command_hex) [ none ↦ none | some cmd ↦ with_key key_hex key_id s cmd ]
    else none

-- The parameters that `read_settings` asks for, in the order of the values it hands on.
abbrev pub settings_params : Bytes
settings_params = 0x02 ∷ 0x07 ∷ 0x08 ∷ 0x0A ∷ 0x0B ∷ 0x0C ∷ []

-- `starts` is what the pairing job answers; a read that started has half a minute.
unfoldable pub read_settings : ℕ → Bool → Bytes → ℤ → Bridge → Option RawCommand × Bridge
read_settings now starts key_hex key_id s =
    let waiting : Bridge = record s {
      pending = record (s.pending) {
        settings_read_inflight = true;
        settings_read_deadline = u32 (now + 30000);
      };
    } in
    if not s.identity.info.valid
    then (none, s)
    else elim (with_key key_hex key_id s settings_params) [
      | none ↦ (none, s)
      | some job ↦ (some job, if starts then waiting else s)
    ]
