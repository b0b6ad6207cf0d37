-- ===== src/Bridge/Startup.antt =====
-- components/switchbot_keypad_bridge/switchbot_keypad_bridge.cpp: `setup()`, with what the flash holds from
-- the last run, and what the page is told of the keypad. The BLE stack and the key store are not part of
-- the program: their answers come with the start.
pub mod InStep
pub mod Named
pub mod Learnt
pub mod Loaded
pub mod Written
pub mod Restored
pub mod Ready
use switchbot_keypad_bridge.Common.{
  ℕ, ◌+◌, ◌-◌, Bool, true, false, not, Option, none, some, List, [], ◌∷◌, ◌++◌, ◌==◌, if◌then◌else◌,
  get_or, set, drop, Bytes, u32, text,
}
use switchbot_keypad_bridge.MacUtils.{format_mac}
use switchbot_keypad_bridge.Bridge.State.{
  KeypadInfo, no_keypad_info, WebUsersBlob, SettingsBlob, Effect, Bridge, Method, ◌>>◌, emit_if,
  publish_keypad, start_advertising, start_ui, set_base_mac,
}
use switchbot_keypad_bridge.Bridge.WebUsers.{strncpy, c_string, load_web_users}
use switchbot_keypad_bridge.Bridge.Settings.{load_settings}
use switchbot_keypad_bridge.Bridge.Scan.{battery_scan_retry_ms}
use switchbot_keypad_bridge.Bridge.Pairing.{
  keypad_name_max, create_shared_key, drop_aes_key, use_aes_key,
}
use switchbot_keypad_bridge.KeypadAdvert.{KeypadFamily}
use switchbot_keypad_bridge.KeypadPairer.Session.{on_air}

-- What the preferences load, none where they hold nothing.
pub record Flash : Type 0 where
  pub key : Option Bytes
  pub name : Option Bytes
  pub info : Option KeypadInfo
  pub web_users : Option WebUsersBlob
  pub settings : Option SettingsBlob

-- What a start meets: 16 random bytes, the time, whether PSA Crypto initialises, the handle of the imported
-- key, the factory address, and whether the patched address is accepted.
pub record Boot : Type 0 where
  pub flash : Flash
  pub fresh_key : Bytes
  pub now : ℕ
  pub psa_ready : Bool
  pub handle : Option ℕ
  pub factory_mac : Option Bytes
  pub mac_accepted : Bool

-- The key of the last run, or on the first start a new one.
unfoldable pub restore_key : Option Bytes → Bytes → Method
restore_key none fresh s = create_shared_key fresh s
restore_key (some key) fresh s =
    ([], record s { identity = record (s.identity) { shared_key = key } })

-- A buffer that does not begin with a NUL is a name, and its last byte is made a NUL.
unfoldable pub stored_name : Option Bytes → Option Bytes
stored_name none = none
stored_name (some buffer) =
    if get_or buffer 0 0 == 0 then none else some (set buffer (keypad_name_max - 1) 0)

unfoldable pub restore_name : Option Bytes → Method
restore_name none =
    (λ s. emit_if s.wiring.keypad_text (publish_keypad (text "Unpaired")) s)
    >> (λ s. ([], record s { identity = record (s.identity) { paired = false } }))
restore_name (some stored) =
    (λ s. (
      [],
      record s {
        identity = record (s.identity) {
          name = strncpy (keypad_name_max - 1) stored ++ drop (keypad_name_max - 1) s.identity.name;
          paired = true;
        };
      },
    ))
    >> (λ s. emit_if s.wiring.keypad_text (publish_keypad (c_string stored)) s)

abbrev pub info_or : Option KeypadInfo → KeypadInfo
info_or none = no_keypad_info
info_or (some info) = info

unfoldable pub restore_info : Boot → Method
restore_info boot s = (
  [],
  record s {
    identity = record (s.identity) { info = info_or boot.flash.info };
    battery = record (s.battery) { next_scan_at = u32 (boot.now + battery_scan_retry_ms) };
  },
)

-- The first half of `setup()`: what the flash brings back.
unfoldable pub restore : Boot → Method
restore boot =
    restore_key boot.flash.key boot.fresh_key
    >> restore_name (stored_name boot.flash.name)
    >> restore_info boot
    >> (λ s. ([], load_settings boot.flash.settings (load_web_users boot.flash.web_users s)))

-- `import_aes_key_`, with whether it succeeds.
unfoldable pub import_aes_key : Option ℕ → Bridge → Bool × List Effect × Bridge
import_aes_key none s = let (es, s') = drop_aes_key s in (false, es, s')
import_aes_key (some handle) s =
    let (es, s') = (drop_aes_key >> use_aes_key handle) s in (true, es, s')

unfoldable pub prepare_keys : Boot → Bridge → Bool × List Effect × Bridge
prepare_keys boot s = if boot.psa_ready then import_aes_key boot.handle s else (false, [], s)

abbrev pub spoofed_oui : Bytes
spoofed_oui = 0xB0 ∷ 0xE9 ∷ 0xFE ∷ []

-- The chip's own tail behind SwitchBot's first three bytes.
abbrev pub spoofed : Bytes → Bytes
spoofed base = spoofed_oui ++ drop 3 base

unfoldable pub prepare_ble : Option Bytes → Bool → Bool × List Effect
prepare_ble none accepted = (false, [])
prepare_ble (some base) accepted =
    if accepted then (true, set_base_mac (spoofed base) ∷ start_advertising ∷ []) else (false, [])

-- Whether the component is up, and how it got there; otherwise it is marked as failed.
unfoldable pub setup : Boot → Bridge → Bool × List Effect × Bridge
setup boot s =
    let (loaded, s1) = restore boot s in
    let (keyed, imported, s2) = prepare_keys boot s1 in
    let (on_air, aired) = prepare_ble boot.factory_mac boot.mac_accepted in
    if not keyed
    then (false, loaded ++ imported, s2)
    else if not on_air
    then (false, loaded ++ (imported ++ aired), s2)
    else (true, loaded ++ (imported ++ (aired ++ start_ui s2.identity.shared_key ∷ [])), s2)

-- `paired_json_`: whether a keypad is paired, its name, and its address if known.
unfoldable pub paired_json : Bridge → Bool × Option Bytes × Option Bytes
paired_json s =
    if s.identity.paired
    then (
      true,
      if get_or s.identity.name 0 0 == 0 then none else some (c_string s.identity.name),
      if s.identity.info.valid then some (format_mac s.identity.info.mac) else none,
    )
    else (false, none, none)

-- The end of a pairing on the server's task (the callback that `setup()` installs).
unfoldable pub stash_pairing : Bytes × Bytes × KeypadFamily → Bridge → Bridge
stash_pairing paired s = record s { pending = record (s.pending) { pair_apply = some paired } }
