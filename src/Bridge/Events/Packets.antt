-- ===== src/Bridge/Events/Packets.antt =====
-- components/switchbot_keypad_bridge/switchbot_keypad_bridge.cpp: events send no packet to the keypad and
-- leave the session alone.
use switchbot_keypad_bridge.Common.{
  ◌≡◌, refl, inl, inr, Bool, true, false, List, [], ◌∷◌, ◌++◌, if◌then◌else◌, Bool-cases, get_or,
  All, All-append, ℤ,
}
use switchbot_keypad_bridge.LockProtocol.{UnlockMethod}
use switchbot_keypad_bridge.Bridge.State.{Effect, Bridge, notify}
use switchbot_keypad_bridge.Bridge.Events.{
  Clock, log_event, method_slot, publish_lock, publish_doorbell, count_unlock, announce_unlock,
  publish_unlock,
}
use switchbot_keypad_bridge.Bridge.Events.Debounce.{
  is_repeat, publish_unlock-repeat, armed, publish_unlock-other,
}

abbrev pub is_notify : Effect → Bool
is_notify (notify p) = true
is_notify _ = false

-- Effects of which none is a packet to the keypad.
abbrev pub NoPacket : List Effect → Type 0
NoPacket = All (λ e. is_notify e ≡ false)

pub emit_if-NoPacket :
    (b : Bool) (e : Effect) → is_notify e ≡ false → NoPacket (if b then e ∷ [] else [])
emit_if-NoPacket true e q = (q, tt)
emit_if-NoPacket false e q = tt

pub both : (xs ys : List Effect) → NoPacket xs → NoPacket ys → NoPacket (xs ++ ys)
both xs ys = All-append (λ e. is_notify e ≡ false) xs ys

pub announce_unlock-NoPacket :
    (c : Clock) (m : UnlockMethod) (i : ℤ) (s : Bridge) → NoPacket (announce_unlock c m i s).0
unfolding announce_unlock log_event count_unlock
announce_unlock-NoPacket c m i s =
    both _ _
      (both _ _
        (both _ _
          (both _ _
            (both _ _ (emit_if-NoPacket s.wiring.last_method _ refl)
              (emit_if-NoPacket s.wiring.last_user _ refl))
            (emit_if-NoPacket (get_or s.wiring.unlock_counts (method_slot m) false) _ refl))
          tt)
        (emit_if-NoPacket s.wiring.keypad_event _ refl))
      (refl, tt)

pub publish_unlock-NoPacket :
    (c : Clock) (m : UnlockMethod) (i : ℤ) (s : Bridge) → NoPacket (publish_unlock c m i s).0
publish_unlock-NoPacket c m i s = elim (Bool-cases (is_repeat c m i s.unlocks)) [
  | inl same ↦ rw (publish_unlock-repeat c m i s same) tt
  | inr other ↦
      rw (publish_unlock-other c m i s other) (announce_unlock-NoPacket c m i (armed c m i s))
]

pub publish_lock-NoPacket : (c : Clock) (s : Bridge) → NoPacket (publish_lock c s).0
unfolding publish_lock log_event
publish_lock-NoPacket c s =
    both _ _ (both _ _ (emit_if-NoPacket s.wiring.keypad_event _ refl) tt) (refl, tt)

pub publish_doorbell-NoPacket : (c : Clock) (s : Bridge) → NoPacket (publish_doorbell c s).0
unfolding publish_doorbell log_event
publish_doorbell-NoPacket c s =
    both _ _ (both _ _ (emit_if-NoPacket s.wiring.keypad_event _ refl) tt) (refl, tt)

pub publish_unlock-session :
    (c : Clock) (m : UnlockMethod) (i : ℤ) (s : Bridge)
    → (publish_unlock c m i s).1.session ≡ s.session
publish_unlock-session c m i s = elim (Bool-cases (is_repeat c m i s.unlocks)) [
  | inl same ↦ rw (publish_unlock-repeat c m i s same) refl
  | inr other ↦ rw (publish_unlock-other c m i s other) (announce c m i (armed c m i s))
]
  where
    announce :
        (c : Clock) (m : UnlockMethod) (i : ℤ) (s : Bridge)
        → (announce_unlock c m i s).1.session ≡ s.session
    announce c m i s = unfold announce_unlock log_event count_unlock in refl
