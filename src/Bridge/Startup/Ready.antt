-- ===== src/Bridge/Startup/Ready.antt =====
-- components/switchbot_keypad_bridge/switchbot_keypad_bridge.cpp: when `setup()` succeeds, and when it fails.
use switchbot_keypad_bridge.Common.{
  ◌≡◌, ◌⊎◌, Bool, true, false, not, none, some, List, [], ◌∷◌, ◌++◌, if◌then◌else◌, drop, All,
  Bytes,
}
use switchbot_keypad_bridge.Bridge.State.{Effect, Bridge, start_advertising, start_ui, set_base_mac}
use switchbot_keypad_bridge.Bridge.Startup.{Boot}

-- Effects by which the bridge shows itself: its address, its advertising, its page.
abbrev pub is_shown : Effect → Bool
is_shown (set_base_mac mac) = true
is_shown start_advertising = true
is_shown (start_ui key) = true
is_shown _ = false

abbrev pub Hidden : List Effect → Type 0
Hidden = All (λ e. is_shown e ≡ false)

-- The keys are there, with this handle for the session, or they are not.
abbrev Keyed : Boot → Bool × List Effect × Bridge → Type 0
Keyed boot r =
    Hidden r.1
    × (((r.0 ≡ true)
          × (boot.psa_ready ≡ true)
          × (boot.handle ≡ some r.2.session.aes_key)
          × (r.2.identity.aes_key_handle ≡ r.2.session.aes_key))
        ⊎ (r.0 ≡ false) × ((boot.psa_ready ≡ false) ⊎ (boot.handle ≡ none)))

-- The way up: what was hidden first, then the patched address, the advertising and the page, with the shared key.
pub record ComesUp (boot : Boot) (es : List Effect) (s : Bridge) : Type 0 where
  pub psa : boot.psa_ready ≡ true
  pub accepted : boot.mac_accepted ≡ true
  pub key_in_use : boot.handle ≡ some s.session.aes_key
  pub handle_kept : s.identity.aes_key_handle ≡ s.session.aes_key
  pub before : List Effect
  pub hidden : Hidden before
  pub base : Bytes
  pub factory : boot.factory_mac ≡ some base
  pub last :
      es
      ≡ before
        ++ (set_base_mac (0xB0 ∷ 0xE9 ∷ 0xFE ∷ drop 3 base)
            ∷ start_advertising
            ∷ start_ui s.identity.shared_key
            ∷ [])

-- What a start can fail for.
abbrev pub IsBroken : Boot → Type 0
IsBroken boot =
    (boot.psa_ready ≡ false)
    ⊎ (boot.handle ≡ none)
    ⊎ (boot.factory_mac ≡ none)
    ⊎ (boot.mac_accepted ≡ false)

abbrev pub SetupOutcome : Boot → Bool × List Effect × Bridge → Type 0
SetupOutcome boot r =
    (r.0 ≡ true) × ComesUp boot r.1 r.2 ⊎ (r.0 ≡ false) × IsBroken boot × Hidden r.1

-- The end of `setup`, from what came of the keys and of the address.
abbrev last_part :
    List Effect → Bool × List Effect × Bridge → Bool × List Effect → Bool × List Effect × Bridge
last_part loaded (keyed, imported, s2) (aired_ok, aired) =
    if not keyed
    then (false, loaded ++ imported, s2)
    else if not aired_ok
    then (false, loaded ++ (imported ++ aired), s2)
    else (true, loaded ++ (imported ++ (aired ++ start_ui s2.identity.shared_key ∷ [])), s2)
