-- ===== src/Bridge/EventLog/Bounded.antt =====
-- components/switchbot_keypad_bridge/switchbot_keypad_bridge.cpp: the log keeps the last 32 events.
use switchbot_keypad_bridge.Common.{
  ℕ, suc, ◌+◌, ◌-◌, ◌≤◌, ◌≡◌, refl, sym, ap, ◌∙◌, inl, inr, List, [], ◌∷◌, ◌++◌, append_assoc,
  append-nil, arith, ltb, Bool-cases, length, drop, length-append, length-drop, drop-add,
  drop-append,
}
use switchbot_keypad_bridge.Bridge.EventLog.{LogEvent, event_log_max, pop_excess, push_event}

-- The last `n` of a list.
abbrev pub take_last {ℓ} : {A : Type ℓ} → ℕ → List A → List A
take_last n xs = drop (length xs - n) xs

pop_excess-eq-take_last : (es : List LogEvent) → pop_excess es ≡ take_last event_log_max es
unfolding pop_excess
pop_excess-eq-take_last [] = refl
pop_excess-eq-take_last (e ∷ es) = elim (Bool-cases (ltb 32 (length (e ∷ es)))) [
  | inl long ↦
      rw (long, pop_excess-eq-take_last es)
        (ap (λ k. drop k (e ∷ es)) {x = suc (length es - 32)} {y = suc (length es) - 32}
          (ground arith))
  | inr short ↦
      rw short (ap (λ k. drop k (e ∷ es)) {x = 0} {y = suc (length es) - 32} (ground arith))
]

-- The log after a sequence of events, the first one first.
pub log_all : List LogEvent → List LogEvent → List LogEvent
log_all [] log = log
log_all (ev ∷ evs) log = log_all evs (push_event ev log)

take_last-append :
    {A : Type 0} (n : ℕ) (xs ys : List A)
    → take_last n (take_last n xs ++ ys) ≡ take_last n (xs ++ ys)
take_last-append n xs ys =
    let a = length xs - n in
    let e : drop a xs ++ ys ≡ drop a (xs ++ ys) = sym (drop-append a xs ys (omega arith)) in
    ap (λ zs. drop (length zs - n) zs) e
    ∙ drop-add a (length (drop a (xs ++ ys)) - n) (xs ++ ys)
    ∙ ap (λ k. drop k (xs ++ ys)) {x = a + (length (drop a (xs ++ ys)) - n)}
        {y = length (xs ++ ys) - n} (omega (arith, length-drop a (xs ++ ys), length-append xs ys))

-- However many events are logged after however many others, the log is the last 32 of all of them in
-- order, and so never longer than that.
pub log_all-eq-take_last :
    (evs log : List LogEvent)
    → length log ≤ event_log_max
    → log_all evs log ≡ take_last event_log_max (log ++ evs)
unfolding log_all push_event
log_all-eq-take_last [] log h =
    sym (rw append-nil (ap (λ k. drop k log) {x = length log - 32} {y = 0} (omega arith)))
log_all-eq-take_last (ev ∷ evs) log h =
    let longer = log ++ ev ∷ [] in
    let kept : length (pop_excess longer) ≤ 32 =
      rw (pop_excess-eq-take_last longer)
        (omega (arith, length-drop (length longer - 32) longer)) in
    log_all-eq-take_last evs (pop_excess longer) kept
    ∙ ap (λ es. take_last 32 (es ++ evs)) (pop_excess-eq-take_last longer)
    ∙ take_last-append 32 longer evs
    ∙ ap (take_last 32) (append_assoc log (ev ∷ []) evs)
