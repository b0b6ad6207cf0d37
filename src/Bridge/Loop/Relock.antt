-- ===== src/Bridge/Loop/Relock.antt =====
-- components/switchbot_keypad_bridge/switchbot_keypad_bridge.cpp: when the emulated lock falls back to
-- locked by itself.
use switchbot_keypad_bridge.Common.{ℕ, ◌+◌, ◌^◌, ◌≤◌, ◌<◌, ◌≡◌, ◌↔◌, arith, u32}
use switchbot_keypad_bridge.Bridge.State.{LockState, Bridge, locked, unlocked}
use switchbot_keypad_bridge.Bridge.Commands.{arm_relock}
use switchbot_keypad_bridge.Bridge.Loop.{relock_step}

-- The state of the lock in a pass of the loop `later` milliseconds after an unlock at `start`.
abbrev pub state_later : ℕ → ℕ → Bridge → LockState
state_later start later s =
    (relock_step (u32 (start + later))
      (record s { lock = arm_relock start (record (s.lock) { state = unlocked }) })).1.lock.state

-- With a relock delay, a pass of the loop after an unlock finds the lock locked again exactly when the
-- delay is over, also where the 32-bit clock wraps in between.
pub relock_step_iff :
    (start later : ℕ) (s : Bridge)
    → 0 < s.lock.auto_relock_ms
    → s.lock.auto_relock_ms < 2 ^ 31
    → later < 2 ^ 31
    → (state_later start later s ≡ locked) ↔ (s.lock.auto_relock_ms ≤ later)
unfolding relock_step arm_relock
relock_step_iff start later s p hd hl = ground arith
