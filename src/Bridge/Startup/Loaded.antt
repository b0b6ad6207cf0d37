-- ===== src/Bridge/Startup/Loaded.antt =====
-- components/switchbot_keypad_bridge/switchbot_keypad_bridge.cpp: what `setup()` takes from the flash.
use switchbot_keypad_bridge.Common.{
  ℕ, ◌≡◌, refl, ap, ◌∙◌, Bool, true, false, not, Option, none, some, List, ◌++◌, ◌==◌,
  if◌then◌else◌, drop, replicate, Bytes,
}
use switchbot_keypad_bridge.Bridge.Pairing.{create_shared_key, drop_aes_key, use_aes_key}
use switchbot_keypad_bridge.Bridge.State.{
  KeypadInfo, WebUsersBlob, SettingsBlob, Effect, Bridge, ◌>>◌,
}
use switchbot_keypad_bridge.Bridge.WebUsers.{strncpy, load_web_users}
use switchbot_keypad_bridge.Bridge.Settings.{adopt_settings, load_settings}
use switchbot_keypad_bridge.Bridge.Startup.{
  Boot, restore_key, stored_name, restore_name, info_or, restore_info, restore, import_aes_key,
  prepare_keys, prepare_ble, setup,
}
use switchbot_keypad_bridge.Bridge.Startup.InStep.{name_in, is_named, brings, known}

abbrev pub key_or : Option Bytes → Bytes → Bytes
key_or none fresh = fresh
key_or (some key) fresh = key

-- What a start makes of the flash.
abbrev pub found : Boot → Option Bytes × Bytes × Bool × KeypadInfo
found boot =
    let (k, name, paired, info) = brings boot.flash in
    (some (key_or k boot.fresh_key), name, paired, info)

-- As the code constructs it, with no name.
abbrev pub IsBlank : Bridge → Type 0
IsBlank s = s.identity.name ≡ replicate 48 0

-- Either way the keypad and the key are as they were.
known-if :
    {A : Type 0} (state : A → Bridge) (b : Bool) (x y : A) (s : Bridge)
    → known (state x) ≡ known s
    → known (state y) ≡ known s
    → known (state (if b then x else y)) ≡ known s
known-if state true x y s hx hy = hx
known-if state false x y s hx hy = hy

-- The settings and the user names are apart from the keypad.
load_web_users-known :
    (users : Option WebUsersBlob) (s : Bridge) → known (load_web_users users s) ≡ known s
unfolding load_web_users
load_web_users-known none s = refl
load_web_users-known (some blob) s = known-if (λ t. t) (blob.version == 1) _ s s refl refl

load_settings-known :
    (settings : Option SettingsBlob) (s : Bridge) → known (load_settings settings s) ≡ known s
unfolding load_settings adopt_settings
load_settings-known none s = refl
load_settings-known (some blob) s = known-if (λ t. t) (blob.version == 2) _ s s refl refl

named-known :
    (boot : Boot) (k n : Option Bytes) (s : Bridge)
    → IsBlank s
    → known ((restore_key k boot.fresh_key >> restore_name n >> restore_info boot) s).1
      ≡ (some (key_or k boot.fresh_key), name_in n, is_named n, info_or boot.flash.info)
unfolding restore_key restore_name restore_info create_shared_key
named-known boot none none s h =
    ap (λ n. (some boot.fresh_key, n, false, info_or boot.flash.info)) h
named-known boot (some key) none s h = ap (λ n. (some key, n, false, info_or boot.flash.info)) h
named-known boot none (some stored) s h =
    ap (λ n. (some boot.fresh_key, strncpy 47 stored ++ drop 47 n, true, info_or boot.flash.info)) h
named-known boot (some key) (some stored) s h =
    ap (λ n. (some key, strncpy 47 stored ++ drop 47 n, true, info_or boot.flash.info)) h

restore-known : (boot : Boot) (s : Bridge) → IsBlank s → known (restore boot s).1 ≡ found boot
unfolding restore
restore-known boot s h =
    load_settings-known boot.flash.settings _
    ∙ load_web_users-known boot.flash.web_users _
    ∙ named-known boot boot.flash.key (stored_name boot.flash.name) s h

drop_aes_key-known : (s : Bridge) → known (drop_aes_key s).1 ≡ known s
unfolding drop_aes_key
drop_aes_key-known s =
    known-if (λ (r : List Effect × Bridge). r.1) (s.identity.aes_key_handle == 0) _ _ s refl refl

import_aes_key-known :
    (handle : Option ℕ) (s : Bridge) → known (import_aes_key handle s).2 ≡ known s
unfolding import_aes_key use_aes_key
import_aes_key-known none s = drop_aes_key-known s
import_aes_key-known (some handle) s = drop_aes_key-known s

prepare_keys-known : (boot : Boot) (s : Bridge) → known (prepare_keys boot s).2 ≡ known s
unfolding prepare_keys
prepare_keys-known boot s =
    known-if (λ (r : Bool × List Effect × Bridge). r.2) boot.psa_ready _ _ s
      (import_aes_key-known boot.handle s) refl

pub setup-known : (boot : Boot) (s : Bridge) → IsBlank s → known (setup boot s).2 ≡ found boot
unfolding setup
setup-known boot s h =
    let s1 = (restore boot s).1 in
    let s2 = (prepare_keys boot s1).2 in
    known-if (λ (r : Bool × List Effect × Bridge). r.2) (not (prepare_keys boot s1).0) _ _ s2 refl
      (known-if (λ (r : Bool × List Effect × Bridge). r.2)
        (not (prepare_ble boot.factory_mac boot.mac_accepted).0) _ _ s2 refl refl)
    ∙ prepare_keys-known boot s1
    ∙ restore-known boot s h

key-kept : (k : Option Bytes) (fresh key : Bytes) → k ≡ some key → some (key_or k fresh) ≡ k
key-kept none fresh key h = absurd (cc h)
key-kept (some k) fresh key h = refl

-- With a key in the flash there is none to make.
pub found-brings :
    (boot : Boot) (key : Bytes) → boot.flash.key ≡ some key → found boot ≡ brings boot.flash
found-brings boot key h =
    ap (λ k. (k, (brings boot.flash).1, (brings boot.flash).2, (brings boot.flash).3))
      (key-kept boot.flash.key boot.fresh_key key h)
