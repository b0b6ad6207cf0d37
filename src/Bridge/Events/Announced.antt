-- ===== src/Bridge/Events/Announced.antt =====
-- components/switchbot_keypad_bridge/switchbot_keypad_bridge.cpp: which of a series of unlocks
-- `publish_unlock_` announces, and to whom it gives them.
use switchbot_keypad_bridge.Common.{
  ℕ, ◌<◌, ◌≡◌, refl, sym, ◌∙◌, subst, ◌↔◌, ◌⊎◌, inl, inr, Bool, true, false, List, [], ◌∷◌, ◌++◌,
  arith, if◌then◌else◌, Bool-cases, get_or, All, All-append, ℤ,
}
use switchbot_keypad_bridge.LockProtocol.{unlock_method_name, UnlockMethod}
use switchbot_keypad_bridge.Bridge.Users.{lookup_user}
use switchbot_keypad_bridge.Bridge.State.{Effect, Bridge, elapsed, on_unlock}
use switchbot_keypad_bridge.Bridge.Events.{
  Clock, log_event, method_slot, count_unlock, announce_unlock, stamp, publish_unlock,
}
use switchbot_keypad_bridge.Bridge.Events.Debounce.{
  IsRepeat, is_repeat, is_repeat-IsRepeat, publish_unlock-repeat, armed, publish_unlock-other,
  Remembers, publish_unlock-Remembers,
}

-- An accepted unlock: when it came, and by which credential.
pub record Unlocking : Type 0 where
  pub clock : Clock
  pub method : UnlockMethod
  pub index : ℤ

-- The unlock is of the same credential as the one before it, and less than `d` milliseconds after it.
pub record IsEcho (d : ℕ) (before after : Unlocking) : Type 0 where
  pub same_index : before.index ≡ after.index
  pub same_method : before.method ≡ after.method
  pub near : elapsed after.clock.unlock_ms before.clock.unlock_ms < d

abbrev pub is_unlock : Effect → Bool
is_unlock (on_unlock method index name) = true
is_unlock _ = false

-- The unlock is announced once, as the last of its effects, with the name of its credential.
pub record Announces (u : Unlocking) (s : Bridge) (es : List Effect) : Type 0 where
  pub others : List Effect
  pub none_of_them : All (λ e. is_unlock e ≡ false) others
  pub effects :
      es
      ≡ others
        ++ on_unlock
            (unlock_method_name u.method)
            u.index
            (lookup_user s.web_users s.users u.method u.index)
          ∷ []

abbrev pub publish : Unlocking → Bridge → List Effect × Bridge
publish u s = publish_unlock u.clock u.method u.index s

-- Each of the unlocks has no effect at all if it echoes the unlock before it, and is announced if it does not.
abbrev pub Debounced : ℕ → Unlocking → List Unlocking → Bridge → Type 0
Debounced d before [] s = Unit
Debounced d before (u ∷ us) s =
    ((IsEcho d before u × ((publish u s).0 ≡ []))
      ⊎ (¬ IsEcho d before u × Announces u s (publish u s).0))
    × Debounced d u us (publish u s).1

emit_if-others :
    (b : Bool) (e : Effect)
    → is_unlock e ≡ false
    → All (λ e. is_unlock e ≡ false) (if b then e ∷ [] else [])
emit_if-others true e q = (q, tt)
emit_if-others false e q = tt

abbrev and_then :
    (xs ys : List Effect)
    → All (λ e. is_unlock e ≡ false) xs
    → All (λ e. is_unlock e ≡ false) ys
    → All (λ e. is_unlock e ≡ false) (xs ++ ys)
and_then xs ys = All-append (λ e. is_unlock e ≡ false) xs ys

announce_unlock-Announces :
    (u : Unlocking) (s : Bridge)
    → Announces u s (announce_unlock u.clock u.method u.index (armed u.clock u.method u.index s)).0
unfolding announce_unlock log_event count_unlock
announce_unlock-Announces u s = record {
  others = _;
  none_of_them =
      and_then _ _
        (and_then _ _
          (and_then _ _
            (and_then _ _ (emit_if-others s.wiring.last_method _ refl)
              (emit_if-others s.wiring.last_user _ refl))
            (emit_if-others (get_or s.wiring.unlock_counts (method_slot u.method) false) _ refl))
          tt)
        (emit_if-others s.wiring.keypad_event _ refl);
  effects = refl;
}

-- What is remembered of the unlock before, where there is a window.
abbrev After : ℕ → Unlocking → Bridge → Type 0
After d u s =
    (s.unlocks.min_interval_ms ≡ d) × (0 < d → Remembers u.clock u.method u.index d s.unlocks)

publish-same_window :
    (u : Unlocking) (s : Bridge)
    → (publish u s).1.unlocks.min_interval_ms ≡ s.unlocks.min_interval_ms
unfolding publish_unlock stamp announce_unlock log_event count_unlock
publish-same_window u s = ground arith

publish-After :
    (d : ℕ) (u : Unlocking) (s : Bridge) → s.unlocks.min_interval_ms ≡ d → After d u (publish u s).1
publish-After d u s e = (
  publish-same_window u s ∙ e,
  λ p.
      subst (λ d. Remembers u.clock u.method u.index d (publish u s).1.unlocks) e
        (publish_unlock-Remembers u.clock u.method u.index s (subst (λ d. 0 < d) (sym e) p)),
)

IsEcho-IsRepeat :
    (d : ℕ) (a u : Unlocking) (s : Bridge)
    → After d a s
    → IsEcho d a u ↔ IsRepeat u.clock u.method u.index s.unlocks
IsEcho-IsRepeat d a u s (e, remembered) = (
  λ echo.
      let (ri, (rm, (rt, rd))) = remembered (omega (arith, echo.near)) in
      (ri ∙ echo.same_index, (rm ∙ echo.same_method, rw (rt, rd) (echo.near))),
  λ repeat.
      let (i, (m, near)) = repeat in
      let (ri, (rm, (rt, rd))) = remembered (omega (arith, near, e)) in
      record { same_index = sym ri ∙ i; same_method = sym rm ∙ m; near = rw (rt, rd) at near },
)

publish-outcome :
    (d : ℕ) (a u : Unlocking) (s : Bridge)
    → After d a s
    → (IsEcho d a u × ((publish u s).0 ≡ [])) ⊎ (¬ IsEcho d a u × Announces u s (publish u s).0)
publish-outcome d a u s h =
    let (to, from) = IsEcho-IsRepeat d a u s h in
    let (is, has) = is_repeat-IsRepeat u.clock u.method u.index s.unlocks in
    elim (Bool-cases (is_repeat u.clock u.method u.index s.unlocks)) [
      | inl same ↦
          inl (from (is same), rw (publish_unlock-repeat u.clock u.method u.index s same) refl)
      | inr other ↦ inr (
        (λ echo. absurd (cc (has (to echo), other))),
        rw (publish_unlock-other u.clock u.method u.index s other) (announce_unlock-Announces u s),
      )
    ]

debounced :
    (d : ℕ) (a : Unlocking) (us : List Unlocking) (s : Bridge) → After d a s → Debounced d a us s
debounced d a [] s h = tt
debounced d a (u ∷ us) s h =
    (publish-outcome d a u s h, debounced d u us _ (publish-After d u s h.0))

-- In any series of accepted unlocks, whatever came before it, each one after the first is passed over without
-- any effect if it is of the same credential as the unlock right before it and less than the configured interval
-- after it; else it is announced once, with its method, its slot and the user's name. This covers chains of
-- passed-over unlocks, each of which restarts the interval, and the interval 0, where all are announced.
pub publish_unlock-Debounced :
    (s : Bridge) (first : Unlocking) (later : List Unlocking)
    → Debounced s.unlocks.min_interval_ms first later (publish first s).1
publish_unlock-Debounced s first later =
    debounced s.unlocks.min_interval_ms first later _ (publish-After _ first s refl)
