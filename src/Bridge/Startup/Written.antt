-- ===== src/Bridge/Startup/Written.antt =====
-- components/switchbot_keypad_bridge/switchbot_keypad_bridge.cpp: what `setup()` leaves in the flash.
use switchbot_keypad_bridge.Common.{
  ℕ, ◌≡◌, refl, ap, ◌∙◌, Bool, true, false, not, Option, none, some, List, [], ◌∷◌, ◌++◌, ◌==◌,
  if◌then◌else◌, Bytes, text,
}
use switchbot_keypad_bridge.Bridge.Pairing.{create_shared_key, drop_aes_key, use_aes_key}
use switchbot_keypad_bridge.Bridge.State.{KeypadInfo, Effect, Bridge, publish_keypad, start_ui}
use switchbot_keypad_bridge.Bridge.WebUsers.{c_string}
use switchbot_keypad_bridge.Bridge.Startup.{
  Flash, Boot, restore_key, stored_name, restore_name, restore_info, restore, import_aes_key,
  prepare_keys, prepare_ble, setup,
}
use switchbot_keypad_bridge.Bridge.Startup.InStep.{saved_all, saved_all-append, brings, saved-if}
use switchbot_keypad_bridge.Bridge.Startup.Loaded.{key_or, found}

restore_name-saved :
    (n : Option Bytes) (s : Bridge) (f : Flash)
    → brings (saved_all (restore_name n s).0 f) ≡ brings f
unfolding restore_name
restore_name-saved none s f =
    ap brings (
      saved_all-append (if s.wiring.keypad_text then publish_keypad (text "Unpaired") ∷ [] else [])
        [] f)
    ∙ saved-if s.wiring.keypad_text (publish_keypad (text "Unpaired")) f refl
restore_name-saved (some stored) s f =
    saved-if s.wiring.keypad_text (publish_keypad (c_string stored)) f refl

restore_key-saved :
    (k : Option Bytes) (fresh : Bytes) (s : Bridge) (f : Flash)
    → f.key ≡ k
    → brings (saved_all (restore_key k fresh s).0 f)
      ≡ (some (key_or k fresh), (brings f).1, (brings f).2, (brings f).3)
unfolding restore_key create_shared_key
restore_key-saved none fresh s f h = refl
restore_key-saved (some key) fresh s f h = ap (λ k. (k, (brings f).1, (brings f).2, (brings f).3)) h

restore-saved :
    (boot : Boot) (s : Bridge) → brings (saved_all (restore boot s).0 boot.flash) ≡ found boot
unfolding restore restore_info
restore-saved boot s =
    let keyed = restore_key boot.flash.key boot.fresh_key s in
    let named = restore_name (stored_name boot.flash.name) keyed.1 in
    ap brings (
      saved_all-append ((keyed.0 ++ named.0) ++ []) [] boot.flash
      ∙ saved_all-append (keyed.0 ++ named.0) [] boot.flash
      ∙ saved_all-append keyed.0 named.0 boot.flash)
    ∙ restore_name-saved (stored_name boot.flash.name) keyed.1 _
    ∙ restore_key-saved boot.flash.key boot.fresh_key s boot.flash refl

-- What the key store and the BLE stack are asked for saves nothing.
brings-if :
    {A : Type 0} (effects : A → List Effect) (b : Bool) (x y : A) (f : Flash)
    {z : Option Bytes × Bytes × Bool × KeypadInfo}
    → brings (saved_all (effects x) f) ≡ z
    → brings (saved_all (effects y) f) ≡ z
    → brings (saved_all (effects (if b then x else y)) f) ≡ z
brings-if effects true x y f hx hy = hx
brings-if effects false x y f hx hy = hy

drop_aes_key-saved : (s : Bridge) (f : Flash) → brings (saved_all (drop_aes_key s).0 f) ≡ brings f
unfolding drop_aes_key
drop_aes_key-saved s f =
    brings-if (λ (r : List Effect × Bridge). r.0) (s.identity.aes_key_handle == 0) _ _ f refl refl

import_aes_key-saved :
    (handle : Option ℕ) (s : Bridge) (f : Flash)
    → brings (saved_all (import_aes_key handle s).1 f) ≡ brings f
unfolding import_aes_key use_aes_key
import_aes_key-saved none s f = drop_aes_key-saved s f
import_aes_key-saved (some handle) s f =
    ap brings (saved_all-append (drop_aes_key s).0 [] f) ∙ drop_aes_key-saved s f

prepare_keys-saved :
    (boot : Boot) (s : Bridge) (f : Flash) → brings (saved_all (prepare_keys boot s).1 f) ≡ brings f
unfolding prepare_keys
prepare_keys-saved boot s f =
    brings-if (λ (r : Bool × List Effect × Bridge). r.1) boot.psa_ready _ _ f
      (import_aes_key-saved boot.handle s f) refl

prepare_ble-saved :
    (base : Option Bytes) (accepted : Bool) (f : Flash)
    → brings (saved_all (prepare_ble base accepted).1 f) ≡ brings f
unfolding prepare_ble
prepare_ble-saved none accepted f = refl
prepare_ble-saved (some base) accepted f =
    brings-if (λ (r : Bool × List Effect). r.1) accepted _ _ f refl refl

-- Effects that come to nothing in the flash, one after the other.
abbrev Quiet : List Effect → Type 0
Quiet es = (f : Flash) → brings (saved_all es f) ≡ brings f

append-Quiet : (es es' : List Effect) → Quiet es → Quiet es' → Quiet (es ++ es')
append-Quiet es es' q q' f = ap brings (saved_all-append es es' f) ∙ q' _ ∙ q f

loaded-then :
    (boot : Boot) (s : Bridge) (es : List Effect)
    → Quiet es
    → brings (saved_all ((restore boot s).0 ++ es) boot.flash) ≡ found boot
loaded-then boot s es q =
    ap brings (saved_all-append (restore boot s).0 es boot.flash) ∙ q _ ∙ restore-saved boot s

pub setup-saved :
    (boot : Boot) (s : Bridge) → brings (saved_all (setup boot s).1 boot.flash) ≡ found boot
unfolding setup
setup-saved boot s =
    let keys = prepare_keys boot (restore boot s).1 in
    let ble = prepare_ble boot.factory_mac boot.mac_accepted in
    let shown : List Effect = start_ui keys.2.identity.shared_key ∷ [] in
    let keys-Quiet = prepare_keys-saved boot (restore boot s).1 in
    let ble-Quiet = prepare_ble-saved boot.factory_mac boot.mac_accepted in
    brings-if (λ (r : Bool × List Effect × Bridge). r.1) (not keys.0) _ _ boot.flash
      (loaded-then boot s _ keys-Quiet)
      (brings-if (λ (r : Bool × List Effect × Bridge). r.1) (not ble.0) _ _ boot.flash
        (loaded-then boot s _ (append-Quiet keys.1 ble.1 keys-Quiet ble-Quiet))
        (loaded-then boot s _ (
          append-Quiet keys.1 (ble.1 ++ shown) keys-Quiet
            (append-Quiet ble.1 shown ble-Quiet (λ f. refl)))))
