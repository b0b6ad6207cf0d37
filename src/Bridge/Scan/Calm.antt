-- ===== src/Bridge/Scan/Calm.antt =====
-- components/switchbot_keypad_bridge/switchbot_keypad_bridge.cpp: the readings of an advertisement raise no
-- alarm and leave the flags that alarms compare with.
use switchbot_keypad_bridge.Common.{
  ℕ, ◌+◌, ◌≡◌, refl, ◌∙◌, Bool, true, false, ◌&&◌, List, [], ◌∷◌, ◌++◌, arith, leb, if◌then◌else◌,
  All, All-append, ℤ,
}
use switchbot_keypad_bridge.KeypadAdvert.{KeypadStatus}
use switchbot_keypad_bridge.Bridge.State.{
  Effect, Advert, Bridge, Method, ◌>>◌, emit_if, on_tamper, on_duress, publish_rssi,
}
use switchbot_keypad_bridge.Bridge.Scan.{
  publish_last_seen_now, learn_info, publish_level, publish_flags, publish_readings,
}

abbrev pub is_tamper : Effect → ℕ
is_tamper on_tamper = 1
is_tamper _ = 0

abbrev pub is_duress : Effect → ℕ
is_duress on_duress = 1
is_duress _ = 0

-- How many of the effects are counted by `f`.
unfoldable pub count : (Effect → ℕ) → List Effect → ℕ
count f [] = 0
count f (e ∷ es) = f e + count f es

pub count-append :
    (f : Effect → ℕ) (xs ys : List Effect) → count f (xs ++ ys) ≡ count f xs + count f ys
unfolding count
count-append f [] ys = omega arith
count-append f (x ∷ xs) ys = omega (arith, count-append f xs ys)

pub count-emit_if :
    (f : Effect → ℕ) (b : Bool) (e : Effect)
    → count f (if b then e ∷ [] else []) ≡ (if b then f e else 0)
unfolding count
count-emit_if f true e = omega arith
count-emit_if f false e = refl

-- Effects of which none is an alarm.
abbrev pub NoAlarm : List Effect → Type 0
NoAlarm = All (λ e. (is_tamper e ≡ 0) × (is_duress e ≡ 0))

pub both : (xs ys : List Effect) → NoAlarm xs → NoAlarm ys → NoAlarm (xs ++ ys)
both xs ys = All-append (λ e. (is_tamper e ≡ 0) × (is_duress e ≡ 0)) xs ys

pub emit_if-NoAlarm :
    (b : Bool) (e : Effect) → is_tamper e ≡ 0 → is_duress e ≡ 0 → NoAlarm (if b then e ∷ [] else [])
emit_if-NoAlarm true e t d = ((t, d), tt)
emit_if-NoAlarm false e t d = tt

pub count-NoAlarm :
    (es : List Effect) → NoAlarm es → (count is_tamper es ≡ 0) × (count is_duress es ≡ 0)
unfolding count
count-NoAlarm [] q = (refl, refl)
count-NoAlarm (e ∷ es) q =
    let (t, d) = count-NoAlarm es q.1 in (omega (arith, q.0.0, t), omega (arith, q.0.1, d))

-- The flags of the last advertisement, which the alarms compare with.
abbrev pub last_flags : Bridge → Bool × Bool
last_flags s = (s.battery.last_tamper, s.battery.last_duress)

-- A step that raises no alarm and leaves the flags.
abbrev pub IsCalm : Method → Type 0
IsCalm f = (s : Bridge) → NoAlarm (f s).0 × (last_flags (f s).1 ≡ last_flags s)

pub then-IsCalm : (f g : Method) → IsCalm f → IsCalm g → IsCalm (f >> g)
then-IsCalm f g hf hg s =
    (both (f s).0 (g (f s).1).0 (hf s).0 (hg (f s).1).0, (hg (f s).1).1 ∙ (hf s).1)

pub if_calm :
    (b : Bool) (s : Bridge) (x y : List Effect × Bridge)
    → NoAlarm x.0 × (last_flags x.1 ≡ last_flags s)
    → NoAlarm y.0 × (last_flags y.1 ≡ last_flags s)
    → NoAlarm (if b then x else y).0 × (last_flags (if b then x else y).1 ≡ last_flags s)
if_calm true s x y hx hy = hx
if_calm false s x y hx hy = hy

pub learn_info-IsCalm : (a : Advert) → IsCalm (learn_info a)
unfolding learn_info
learn_info-IsCalm a s = if_calm s.identity.info.valid s _ _ (tt, refl) (((refl, refl), tt), refl)

pub publish_level-IsCalm : (level : ℤ) → IsCalm (publish_level level)
unfolding publish_level
publish_level-IsCalm level s = if_calm _ s _ _ (((refl, refl), tt), refl) (tt, refl)

pub publish_flags-IsCalm : (st : KeypadStatus) → IsCalm (publish_flags st)
unfolding publish_flags
publish_flags-IsCalm st s = (
  both _ _
      (both _ _
        (both _ _
          (both _ _ (emit_if-NoAlarm s.wiring.charging _ refl refl)
            (emit_if-NoAlarm s.wiring.lockout _ refl refl))
          (emit_if-NoAlarm s.wiring.motion _ refl refl))
        (emit_if-NoAlarm s.wiring.tamper _ refl refl))
      (emit_if-NoAlarm s.wiring.duress _ refl refl),
  refl,
)

pub publish_last_seen-IsCalm : (epoch : ℕ) → IsCalm (publish_last_seen_now epoch)
unfolding publish_last_seen_now
publish_last_seen-IsCalm epoch s =
    (emit_if-NoAlarm (s.wiring.last_seen && leb 1600000000 epoch) _ refl refl, refl)

pub publish_readings-IsCalm : (epoch : ℕ) (a : Advert) → IsCalm (publish_readings epoch a)
unfolding publish_readings
publish_readings-IsCalm epoch a =
    let heard : Method = λ s. emit_if s.wiring.rssi (publish_rssi a.rssi) s in
    let seen = heard >> publish_last_seen_now epoch in
    let learnt = seen >> learn_info a in
    let level = publish_level a.status.battery in
    let hc : IsCalm heard =
      λ s. (emit_if-NoAlarm s.wiring.rssi (publish_rssi a.rssi) refl refl, refl) in
    let sc = then-IsCalm heard (publish_last_seen_now epoch) hc (publish_last_seen-IsCalm epoch) in
    let lc = then-IsCalm seen (learn_info a) sc (learn_info-IsCalm a) in
    then-IsCalm (learnt >> level) (publish_flags a.status)
      (then-IsCalm learnt level lc (publish_level-IsCalm a.status.battery))
      (publish_flags-IsCalm a.status)
