-- ===== src/Bridge/Startup/InStep.antt =====
-- components/switchbot_keypad_bridge/switchbot_keypad_bridge.cpp: what the flash holds of the keypad stays in
-- step with the bridge, so that a restart brings it back.
use switchbot_keypad_bridge.Common.{
  ℕ, ◌-◌, ◌≡◌, refl, sym, ap, ◌∙◌, Bool, true, false, Option, none, some, List, [], ◌∷◌, ◌++◌, ◌==◌,
  if◌then◌else◌, replicate, Bytes, text,
}
use switchbot_keypad_bridge.Bridge.State.{
  KeypadInfo, no_keypad_info, Effect, Bridge, Method, ◌>>◌, skip, emit_if, publish_keypad,
  publish_battery, stop_scan, clear_results, save_name, save_info, save_key, save_web_users,
  save_settings, start_ui,
}
use switchbot_keypad_bridge.Bridge.WebUsers.{strncpy}
use switchbot_keypad_bridge.Bridge.Pairing.{
  keypad_name_max, create_shared_key, drop_aes_key, use_aes_key, end_scan, forget_keypad,
  finish_unpair, unpair,
}
use switchbot_keypad_bridge.Bridge.Startup.{Flash, stored_name, info_or}

-- A preference holds what was saved under it last.
abbrev pub saved : Effect → Flash → Flash
saved (save_key key) f = record f { key = some key }
saved (save_name name) f = record f { name = some name }
saved (save_info info) f = record f { info = some info }
saved (save_web_users blob) f = record f { web_users = some blob }
saved (save_settings blob) f = record f { settings = some blob }
saved _ f = f

abbrev pub saved_all : List Effect → Flash → Flash
saved_all [] f = f
saved_all (e ∷ es) f = saved_all es (saved e f)

pub saved_all-append :
    (es es' : List Effect) (f : Flash) → saved_all (es ++ es') f ≡ saved_all es' (saved_all es f)
saved_all-append [] es' f = refl
saved_all-append (e ∷ es) es' f = saved_all-append es es' (saved e f)

-- The name that a start takes from the flash, and whether it finds a keypad there.
abbrev pub name_in : Option Bytes → Bytes
name_in none = replicate keypad_name_max 0
name_in (some stored) = strncpy (keypad_name_max - 1) stored ++ 0 ∷ []

abbrev pub is_named : Option Bytes → Bool
is_named none = false
is_named (some stored) = true

-- The keypad and the key: what a start brings back of them, and what the bridge has.
abbrev pub brings : Flash → Option Bytes × Bytes × Bool × KeypadInfo
brings f = (f.key, name_in (stored_name f.name), is_named (stored_name f.name), info_or f.info)

abbrev pub known : Bridge → Option Bytes × Bytes × Bool × KeypadInfo
known s = (some s.identity.shared_key, s.identity.name, s.identity.paired, s.identity.info)

-- A method that keeps the two in step.
pub record KeepsStep (m : Method) : Type 0 where
  pub at :
      (f : Flash) (s : Bridge) → brings f ≡ known s → brings (saved_all (m s).0 f) ≡ known (m s).1

pub then-KeepsStep : {m k : Method} → KeepsStep m → KeepsStep k → KeepsStep (m >> k)
then-KeepsStep {m} {k} p q = record {
  at = λ f s h. ap brings (saved_all-append (m s).0 (k (m s).1).0 f) ∙ q.at _ _ (p.at f s h);
}

-- A method that saves nothing of it and changes nothing of it.
quiet-KeepsStep :
    {m : Method}
    → ((f : Flash) (s : Bridge) → brings (saved_all (m s).0 f) ≡ brings f)
    → ((s : Bridge) → known (m s).1 ≡ known s)
    → KeepsStep m
quiet-KeepsStep h k = record { at = λ f s e. h f s ∙ e ∙ sym (k s) }

-- An effect that is no save, where it is made.
pub saved-if :
    (b : Bool) (e : Effect) (f : Flash)
    → brings (saved e f) ≡ brings f
    → brings (saved_all (if b then e ∷ [] else []) f) ≡ brings f
saved-if true e f h = h
saved-if false e f h = refl

pub emit_if-KeepsStep :
    (b : Bridge → Bool) (e : Effect)
    → ((f : Flash) → brings (saved e f) ≡ brings f)
    → KeepsStep (λ s. emit_if (b s) e s)
emit_if-KeepsStep b e h = quiet-KeepsStep (λ f s. saved-if (b s) e f (h f)) (λ s. refl)

-- One of two outcomes.
pub keeps-if :
    (b : Bool) (x y : List Effect × Bridge) (f : Flash)
    → brings (saved_all x.0 f) ≡ known x.1
    → brings (saved_all y.0 f) ≡ known y.1
    → let r = if b then x else y in brings (saved_all r.0 f) ≡ known r.1
keeps-if true x y f hx hy = hx
keeps-if false x y f hx hy = hy

create_shared_key-KeepsStep : (key : Bytes) → KeepsStep (create_shared_key key)
unfolding create_shared_key
create_shared_key-KeepsStep key = record { at = λ f s h. ap (λ t. (some key, t.1, t.2, t.3)) h }

pub drop_aes_key-KeepsStep : KeepsStep drop_aes_key
unfolding drop_aes_key
drop_aes_key-KeepsStep = record {
  at = λ f s h. keeps-if (s.identity.aes_key_handle == 0) _ _ f h h;
}

pub use_aes_key-KeepsStep : (handle : ℕ) → KeepsStep (use_aes_key handle)
unfolding use_aes_key
use_aes_key-KeepsStep handle = record { at = λ f s h. h }

end_scan-KeepsStep : (is_scanning : Bool) → KeepsStep (end_scan is_scanning)
unfolding end_scan
end_scan-KeepsStep is_scanning = record {
  at = λ f s h.
      let stopped : List Effect = if is_scanning then stop_scan ∷ [] else [] in
      keeps-if s.battery.scan_active _ _ f
        (ap brings (saved_all-append stopped (clear_results ∷ []) f)
          ∙ saved-if is_scanning stop_scan f refl
          ∙ h)
        h;
}

-- The two records are blanked before the bridge forgets them.
forget_keypad-KeepsStep : KeepsStep forget_keypad
unfolding forget_keypad stored_name strncpy
forget_keypad-KeepsStep = record {
  at = λ f s h.
      let blank : Flash = record f {
        name = some (replicate keypad_name_max 0);
        info = some no_keypad_info;
      } in
      let shown : List Effect =
        if s.wiring.keypad_text then publish_keypad (text "Unpaired") ∷ [] else [] in
      let level : List Effect = if s.wiring.battery_level then publish_battery none ∷ [] else [] in
      ap brings (saved_all-append (shown ++ []) level blank)
      ∙ saved-if s.wiring.battery_level (publish_battery none) _ refl
      ∙ ap brings (saved_all-append shown [] blank)
      ∙ saved-if s.wiring.keypad_text (publish_keypad (text "Unpaired")) blank refl
      ∙ ap (λ t. (t.0, replicate 48 0, false, no_keypad_info)) h;
}

pub skip-KeepsStep : KeepsStep skip
skip-KeepsStep = record { at = λ f s h. h }

start_ui-KeepsStep : KeepsStep (λ s. (start_ui s.identity.shared_key ∷ [], s))
start_ui-KeepsStep = record { at = λ f s h. h }

finish_unpair-KeepsStep :
    (handle : Option ℕ) (is_scanning : Bool) → KeepsStep (finish_unpair handle is_scanning)
unfolding finish_unpair
finish_unpair-KeepsStep none is_scanning = skip-KeepsStep
finish_unpair-KeepsStep (some handle) is_scanning =
    then-KeepsStep
      (then-KeepsStep
        (then-KeepsStep (use_aes_key-KeepsStep handle) (end_scan-KeepsStep is_scanning))
        forget_keypad-KeepsStep)
      start_ui-KeepsStep

pub unpair-KeepsStep :
    (key : Bytes) (handle : Option ℕ) (is_scanning : Bool)
    → KeepsStep (unpair key handle is_scanning)
unfolding unpair
unpair-KeepsStep key handle is_scanning =
    then-KeepsStep (then-KeepsStep (create_shared_key-KeepsStep key) drop_aes_key-KeepsStep)
      (finish_unpair-KeepsStep handle is_scanning)
