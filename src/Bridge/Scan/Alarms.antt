-- ===== src/Bridge/Scan/Alarms.antt =====
-- components/switchbot_keypad_bridge/switchbot_keypad_bridge.cpp: an alarm is raised once for each time
-- its flag comes up.
use switchbot_keypad_bridge.Common.{
  ℕ, ◌+◌, ◌≡◌, refl, ap, ap₂, ◌∙◌, Bool, true, false, not, ◌&&◌, List, [], ◌∷◌, ◌++◌, map,
  append-nil, arith, if◌then◌else◌,
}
use switchbot_keypad_bridge.KeypadAdvert.{KeypadStatus}
use switchbot_keypad_bridge.Bridge.State.{
  Effect, Advert, Bridge, Method, ◌>>◌, skip, on_tamper, on_duress, stop_scan,
}
use switchbot_keypad_bridge.Bridge.Scan.Calm.{
  is_tamper, is_duress, count, count-append, count-emit_if, NoAlarm, emit_if-NoAlarm, count-NoAlarm,
  last_flags, publish_readings-IsCalm,
}
use switchbot_keypad_bridge.Bridge.Scan.{raise_alarms, publish_readings, apply_advert}

-- The alarm of one reading after the flag before it.
abbrev pub rise : Bool → Bool → ℕ
rise before now = if now && not before then 1 else 0

zero_either : (b : Bool) → ◌≡◌ {A = ℕ} (if b then 0 else 0) 0
zero_either true = refl
zero_either false = refl

raise_alarms-count :
    (st : KeypadStatus) (s : Bridge)
    → (count is_tamper (raise_alarms st s).0 ≡ rise s.battery.last_tamper st.tamper)
      × (count is_duress (raise_alarms st s).0 ≡ rise s.battery.last_duress st.duress)
unfolding raise_alarms
raise_alarms-count st s =
    let t = st.tamper && not s.battery.last_tamper in
    let d = st.duress && not s.battery.last_duress in
    let ts : List Effect = if t then on_tamper ∷ [] else [] in
    let ds : List Effect = if d then on_duress ∷ [] else [] in
    let flat : (f : Effect → ℕ) → count f ((ts ++ ds) ++ []) ≡ count f ts + count f ds =
      λ f. ap (count f) (append-nil (ts ++ ds)) ∙ count-append f ts ds in
    (
      omega (
        arith,
        flat is_tamper,
        count-emit_if is_tamper t on_tamper,
        count-emit_if is_tamper d on_duress,
        zero_either d,
      ),
      omega (
        arith,
        flat is_duress,
        count-emit_if is_duress t on_tamper,
        count-emit_if is_duress d on_duress,
        zero_either t,
      ),
    )

stop_scan-NoAlarm : (b : Bool) → NoAlarm (if b then stop_scan ∷ [] else [])
stop_scan-NoAlarm b = emit_if-NoAlarm b stop_scan refl refl

only : (a b c : ℕ) → a ≡ 0 → c ≡ 0 → (a + b) + c ≡ b
only a b c ha hc = omega arith

apply_advert-count :
    (epoch : ℕ) (is_scanning : Bool) (a : Advert) (s : Bridge)
    → (count is_tamper (apply_advert epoch is_scanning a s).0
        ≡ rise s.battery.last_tamper a.status.tamper)
      × (count is_duress (apply_advert epoch is_scanning a s).0
          ≡ rise s.battery.last_duress a.status.duress)
unfolding apply_advert
apply_advert-count epoch is_scanning a s =
    let s1 = (publish_readings epoch a s).1 in
    let s2 = (raise_alarms a.status s1).1 in
    let calm = publish_readings-IsCalm epoch a s in
    let alarms = raise_alarms-count a.status s1 in
    let stop : List Effect = if s2.battery.scan_active && is_scanning then stop_scan ∷ [] else [] in
    let silent = count-NoAlarm (publish_readings epoch a s).0 calm.0 in
    let stopped = count-NoAlarm stop (stop_scan-NoAlarm (s2.battery.scan_active && is_scanning)) in
    let split : (f : Effect → ℕ)
        → count f (((publish_readings epoch a s).0 ++ (raise_alarms a.status s1).0) ++ stop)
          ≡ (count f (publish_readings epoch a s).0 + count f (raise_alarms a.status s1).0)
            + count f stop =
      λ f.
        count-append f ((publish_readings epoch a s).0 ++ (raise_alarms a.status s1).0) stop
        ∙ ap (λ k. k + count f stop)
            (count-append f (publish_readings epoch a s).0 (raise_alarms a.status s1).0) in
    (
      split is_tamper
          ∙ only (count is_tamper (publish_readings epoch a s).0)
              (count is_tamper (raise_alarms a.status s1).0) (count is_tamper stop) silent.0
              stopped.0
          ∙ alarms.0
          ∙ ap (λ (x : Bool × Bool). rise x.0 a.status.tamper) calm.1,
      split is_duress
          ∙ only (count is_duress (publish_readings epoch a s).0)
              (count is_duress (raise_alarms a.status s1).0) (count is_duress stop) silent.1
              stopped.1
          ∙ alarms.1
          ∙ ap (λ (x : Bool × Bool). rise x.1 a.status.duress) calm.1,
    )

apply_advert-flags :
    (epoch : ℕ) (is_scanning : Bool) (a : Advert) (s : Bridge)
    → last_flags (apply_advert epoch is_scanning a s).1 ≡ (a.status.tamper, a.status.duress)
unfolding apply_advert raise_alarms
apply_advert-flags epoch is_scanning a s = refl

-- Advertisements that the main task takes one after the other, each with the clock's seconds and
-- whether the radio still scans.
pub apply_all : List (ℕ × Bool × Advert) → Method
apply_all [] = skip
apply_all ((epoch, is_scanning, a) ∷ heard) = apply_advert epoch is_scanning a >> apply_all heard

-- How often a flag comes up.
pub rises : Bool → List Bool → ℕ
rises before [] = 0
rises before (now ∷ flags) = rise before now + rises now flags

abbrev pub tampers : List (ℕ × Bool × Advert) → List Bool
tampers = map (λ a. a.2.status.tamper)

abbrev pub duresses : List (ℕ × Bool × Advert) → List Bool
duresses = map (λ a. a.2.status.duress)

-- Over any sequence of advertisements the tamper alarm fires exactly as often as its flag comes up, and
-- so does the duress alarm: never again while the flag stays up, and again after it went down.
pub apply_all-count :
    (heard : List (ℕ × Bool × Advert)) (s : Bridge)
    → (count is_tamper (apply_all heard s).0 ≡ rises s.battery.last_tamper (tampers heard))
      × (count is_duress (apply_all heard s).0 ≡ rises s.battery.last_duress (duresses heard))
unfolding apply_all rises count
apply_all-count [] s = (refl, refl)
apply_all-count ((epoch, is_scanning, a) ∷ heard) s =
    let s1 = (apply_advert epoch is_scanning a s).1 in
    let one = apply_advert-count epoch is_scanning a s in
    let rest = apply_all-count heard s1 in
    let flags = apply_advert-flags epoch is_scanning a s in
    let split : (f : Effect → ℕ)
        → count f ((apply_advert epoch is_scanning a s).0 ++ (apply_all heard s1).0)
          ≡ count f (apply_advert epoch is_scanning a s).0 + count f (apply_all heard s1).0 =
      λ f. count-append f (apply_advert epoch is_scanning a s).0 (apply_all heard s1).0 in
    (
      split is_tamper
          ∙ ap₂ ◌+◌ one.0 (rest.0 ∙ ap (λ (x : Bool × Bool). rises x.0 (tampers heard)) flags),
      split is_duress
          ∙ ap₂ ◌+◌ one.1 (rest.1 ∙ ap (λ (x : Bool × Bool). rises x.1 (duresses heard)) flags),
    )
