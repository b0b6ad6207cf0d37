-- ===== src/Bridge/Events/Debounce.antt =====
-- components/switchbot_keypad_bridge/switchbot_keypad_bridge.cpp: when `publish_unlock_` stays silent.
use switchbot_keypad_bridge.LockProtocol.{UnlockMethod}
use switchbot_keypad_bridge.Bridge.State.{Unlocks, Bridge, elapsed}
use switchbot_keypad_bridge.Bridge.Events.{
  Clock, log_event, is_debounced, count_unlock, announce_unlock, stamp, publish_unlock,
}
use switchbot_keypad_bridge.Common.{
  ℕ, ◌<◌, ◌≡◌, refl, ◌↔◌, inl, inr, Bool, true, false, ◌&&◌, [], arith, ltb, Bool-cases, ℤ, ==ℤ_iff,
}

-- The unlock is a repeat of the last announced credential, inside a window that is not switched off.
abbrev pub IsRepeat : Clock → UnlockMethod → ℤ → Unlocks → Type 0
IsRepeat c m i u =
    (u.last_index ≡ i) × ((u.last_method ≡ m) × (elapsed c.unlock_ms u.last_ms < u.min_interval_ms))

abbrev pub is_repeat : Clock → UnlockMethod → ℤ → Unlocks → Bool
is_repeat c m i u = ltb 0 u.min_interval_ms && is_debounced c.unlock_ms m i u

pub is_repeat-IsRepeat :
    (c : Clock) (m : UnlockMethod) (i : ℤ) (u : Unlocks)
    → (is_repeat c m i u ≡ true) ↔ IsRepeat c m i u
unfolding is_debounced
is_repeat-IsRepeat c m i u = ground (arith, ==ℤ_iff u.last_index i)

stamp_on :
    (now : ℕ) (u : Unlocks) → 0 < u.min_interval_ms → stamp now u ≡ record u { last_ms = now }
unfolding stamp
stamp_on now u p = ground arith

pub publish_unlock-repeat :
    (c : Clock) (m : UnlockMethod) (i : ℤ) (s : Bridge)
    → is_repeat c m i s.unlocks ≡ true
    → publish_unlock c m i s ≡ ([], record s { unlocks = stamp c.unlock_ms s.unlocks })
unfolding publish_unlock
publish_unlock-repeat c m i s e = rw e refl

-- The state in which an unlock that is no repeat is announced.
abbrev pub armed : Clock → UnlockMethod → ℤ → Bridge → Bridge
armed c m i s = record s {
  unlocks = record (stamp c.unlock_ms s.unlocks) { last_method = m; last_index = i };
}

pub publish_unlock-other :
    (c : Clock) (m : UnlockMethod) (i : ℤ) (s : Bridge)
    → is_repeat c m i s.unlocks ≡ false
    → publish_unlock c m i s ≡ announce_unlock c m i (armed c m i s)
unfolding publish_unlock
publish_unlock-other c m i s e = rw e refl

-- What the debounce remembers of an unlock.
abbrev pub Remembers : Clock → UnlockMethod → ℤ → ℕ → Unlocks → Type 0
Remembers c m i d u =
    (u.last_index ≡ i)
    × ((u.last_method ≡ m) × ((u.last_ms ≡ c.unlock_ms) × (u.min_interval_ms ≡ d)))

announce_unlock-Remembers :
    (c c' : Clock) (m : UnlockMethod) (i : ℤ) (d : ℕ) (s : Bridge)
    → Remembers c m i d s.unlocks
    → Remembers c m i d (announce_unlock c' m i s).1.unlocks
unfolding announce_unlock log_event count_unlock
announce_unlock-Remembers c c' m i d s r = r

pub publish_unlock-Remembers :
    (c : Clock) (m : UnlockMethod) (i : ℤ) (s : Bridge)
    → 0 < s.unlocks.min_interval_ms
    → Remembers c m i s.unlocks.min_interval_ms (publish_unlock c m i s).1.unlocks
publish_unlock-Remembers c m i s p = elim (Bool-cases (is_repeat c m i s.unlocks)) [
  | inl same ↦
      rw (publish_unlock-repeat c m i s same, stamp_on c.unlock_ms s.unlocks p)
        (let r = (is_repeat-IsRepeat c m i s.unlocks).0 same in (r.0, (r.1.0, (refl, refl))))
  | inr other ↦ rw (publish_unlock-other c m i s other) (
      announce_unlock-Remembers c c m i s.unlocks.min_interval_ms (armed c m i s)
        (rw (stamp_on c.unlock_ms s.unlocks p) (refl, (refl, (refl, refl)))))
]
