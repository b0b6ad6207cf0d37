-- ===== src/Bridge/Startup/Restored.antt =====
-- components/switchbot_keypad_bridge/switchbot_keypad_bridge.cpp: what `setup()` brings back after a restart.
use switchbot_keypad_bridge.Common.{
  ℕ, ◌≡◌, refl, sym, ap, ◌∙◌, Bool, Option, List, [], ◌∷◌, All, Bytes,
}
use switchbot_keypad_bridge.Bridge.Scan.{apply_advert}
use switchbot_keypad_bridge.Bridge.Pairing.{apply_pairing, unpair}
use switchbot_keypad_bridge.KeypadAdvert.{KeypadFamily}
use switchbot_keypad_bridge.Bridge.Configured.{new_bridge}
use switchbot_keypad_bridge.Bridge.State.{Wiring, Advert, Bridge, Method, ◌>>◌, skip}
use switchbot_keypad_bridge.Bridge.Startup.{Boot, setup, stash_pairing}
use switchbot_keypad_bridge.Bridge.Startup.InStep.{
  saved_all, brings, known, KeepsStep, then-KeepsStep, skip-KeepsStep, unpair-KeepsStep,
}
use switchbot_keypad_bridge.Bridge.Startup.Named.{IsName, adopt_pairing-KeepsStep}
use switchbot_keypad_bridge.Bridge.Startup.Learnt.{apply_advert-KeepsStep}
use switchbot_keypad_bridge.Bridge.Startup.Loaded.{IsBlank, setup-known, found-brings}
use switchbot_keypad_bridge.Bridge.Startup.Written.{setup-saved}

-- A bridge as it is constructed.
pub new_bridge-IsBlank : (wiring : Wiring) → IsBlank (new_bridge wiring)
unfolding new_bridge
new_bridge-IsBlank wiring = refl

-- What happens to the keypad and the key while the bridge runs: a pairing that the page has finished, an unpair,
-- whether or not the new key can be imported, and an advertisement, from which an address may be learnt.
pub data Change : Type 0 where
  pairing : ℕ → Bytes → Bytes → KeypadFamily → Change
  unpairing : Bytes → Option ℕ → Bool → Change
  advertised : ℕ → Bool → Advert → Change

abbrev pub change : Change → Method
change (pairing now name mac family) s = apply_pairing now (stash_pairing (name, mac, family) s)
change (unpairing key handle is_scanning) s = unpair key handle is_scanning s
change (advertised epoch is_scanning a) s = apply_advert epoch is_scanning a s

abbrev pub change_all : List Change → Method
change_all [] = skip
change_all (c ∷ cs) = change c >> change_all cs

abbrev pub IsNamed : Change → Type 0
IsNamed (pairing now name mac family) = IsName name
IsNamed _ = Unit

change-KeepsStep : (c : Change) → IsNamed c → KeepsStep (change c)
unfolding apply_pairing stash_pairing
change-KeepsStep (pairing now name mac family) h = record {
  at = λ f s e.
      (adopt_pairing-KeepsStep now name mac family h).at f (stash_pairing (name, mac, family) s) e;
}
change-KeepsStep (unpairing key handle is_scanning) h = unpair-KeepsStep key handle is_scanning
change-KeepsStep (advertised epoch is_scanning a) h = apply_advert-KeepsStep epoch is_scanning a

change_all-KeepsStep : (cs : List Change) → All IsNamed cs → KeepsStep (change_all cs)
change_all-KeepsStep [] h = skip-KeepsStep
change_all-KeepsStep (c ∷ cs) h =
    then-KeepsStep (change-KeepsStep c h.0) (change_all-KeepsStep cs h.1)

-- After any number of pairings with a named keypad, unpairs, completed or not, and advertisements, a restart
-- brings back the shared key, the keypad's name, whether one is paired, and its address and family, just as
-- they were; also if the first start found an empty flash and made the key.
pub setup-restored :
    (first again : Boot) (s blank : Bridge) (cs : List Change)
    → IsBlank s
    → IsBlank blank
    → All IsNamed cs
    → let started = setup first s in
      let changed = change_all cs started.2 in
      again.flash ≡ saved_all changed.0 (saved_all started.1 first.flash)
      → known (setup again blank).2 ≡ known changed.1
setup-restored first again s blank cs hs hb hc held =
    let started = setup first s in
    let step : brings again.flash ≡ known (change_all cs started.2).1 =
      ap brings held
      ∙ (change_all-KeepsStep cs hc).at _ started.2
          (setup-saved first s ∙ sym (setup-known first s hs)) in
    setup-known again blank hb ∙ found-brings again _ (ap (λ t. t.0) step) ∙ step
