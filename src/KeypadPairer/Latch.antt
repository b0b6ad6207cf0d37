-- ===== src/KeypadPairer/Latch.antt =====
-- components/switchbot_keypad_bridge/keypad_pairer.cpp: the session IV that a job gets.
use switchbot_keypad_bridge.Common.{
  ℕ, zero, suc, ◌≡◌, refl, sym, ap, ◌∙◌, Bool, true, false, Option, none, some, List, [], ◌∷◌, ◌++◌,
  arith, if◌then◌else◌, take, drop, Bytes,
}
use switchbot_keypad_bridge.KeypadPairer.Dialect.{label}
use switchbot_keypad_bridge.KeypadPairer.JobStatus.{
  KeypadPairer, set_step, set_failed, is_iv_frame, on_notify, deliver, failed,
}
use switchbot_keypad_bridge.KeypadPairer.Job.{
  Run, Job, ◌>>=◌, ◌>>◌, update, gets, show, hang_up, ensure, next_reply, write_value, write,
  show_step,
}
use switchbot_keypad_bridge.KeypadPairer.Session.{
  iv_not_requested, no_session, Radio, first_round, later_rounds, await_iv, iv_wait_rounds,
  iv_request, request_iv,
}

-- The first notification that carries an IV.
abbrev pub first_iv : List Bytes → Option Bytes
first_iv [] = none
first_iv (n ∷ ns) =
    let rest = first_iv ns in if is_iv_frame n then some (take 16 (drop 4 n)) else rest

-- What the pairer has latched, if anything.
abbrev pub latched_iv : KeypadPairer → Option Bytes
latched_iv p = if p.iv_received then some p.iv else none

abbrev pub or_else : Option Bytes → Option Bytes → Option Bytes
or_else none o = o
or_else (some iv) o = some iv

on_notify-iv :
    (n : Bytes) (p : KeypadPairer)
    → latched_iv (on_notify n p)
      ≡ or_else (latched_iv p) (if is_iv_frame n then some (take 16 (drop 4 n)) else none)
unfolding on_notify
on_notify-iv n p = ground arith

or_else_assoc : (a b c : Option Bytes) → or_else (or_else a b) c ≡ or_else a (or_else b c)
or_else_assoc none b c = refl
or_else_assoc (some iv) b c = refl

deliver-iv :
    (ns : List Bytes) (p : KeypadPairer)
    → latched_iv (deliver ns p) ≡ or_else (latched_iv p) (first_iv ns)
unfolding deliver
deliver-iv [] p = ground arith
deliver-iv (n ∷ ns) p =
    deliver-iv ns (on_notify n p)
    ∙ ap (λ o. or_else o (first_iv ns)) (on_notify-iv n p)
    ∙ or_else_assoc (latched_iv p) _ (first_iv ns)
    ∙ ap (or_else (latched_iv p)) (ground arith)

-- The notifications of `n` waits.
abbrev pub within : ℕ → List (List Bytes) → List Bytes
within zero rounds = []
within (suc n) rounds = first_round rounds ++ within n (later_rounds rounds)

first_iv-append : (ns ms : List Bytes) → first_iv (ns ++ ms) ≡ or_else (first_iv ns) (first_iv ms)
first_iv-append [] ms = refl
first_iv-append (n ∷ ns) ms = ground (arith, first_iv-append ns ms)

received-stays :
    (p : KeypadPairer) (o : Option Bytes)
    → p.iv_received ≡ true
    → latched_iv p ≡ or_else (latched_iv p) o
received-stays p o e = ground (arith, e)

await_iv-iv :
    (left : ℕ) (rounds : List (List Bytes)) (p : KeypadPairer)
    → latched_iv (await_iv left rounds p) ≡ or_else (latched_iv p) (first_iv (within left rounds))
unfolding await_iv
await_iv-iv zero rounds p = ground arith
await_iv-iv (suc left) rounds p =
    let q = deliver (first_round rounds) p in
    let goes_on =
      await_iv-iv left (later_rounds rounds) q
      ∙ ap (λ o. or_else o (first_iv (within left (later_rounds rounds))))
          (deliver-iv (first_round rounds) p)
      ∙ or_else_assoc (latched_iv p) _ _
      ∙ ap (or_else (latched_iv p))
          (sym (first_iv-append (first_round rounds) (within left (later_rounds rounds)))) in
    ground (arith, goes_on, received-stays p (first_iv (within (suc left) rounds)))

-- A session is open with the IV that was heard, or the job has failed.
abbrev pub SessionAfter : Option Bytes → Option (Unit {0}) × Run → Type 0
SessionAfter none r = (r.0 ≡ none) × (r.1.pairer.status.state ≡ failed)
SessionAfter (some iv) r = (r.0 ≡ some tt) × (r.1.pairer.iv_received ≡ true) × (r.1.pairer.iv ≡ iv)

ensure-session :
    (b : Bool) (s : Run) (heard : Option Bytes)
    → s.pairer.iv_received ≡ b
    → latched_iv s.pairer ≡ heard
    → SessionAfter heard (ensure b no_session s)
unfolding hang_up set_failed
ensure-session true s none e h = absurd (ground (arith, e, h))
ensure-session true s (some iv) e h = (refl, e, ground (arith, e, h))
ensure-session false s none e h = (refl, refl)
ensure-session false s (some iv) e h = absurd (ground (arith, e, h))

abbrev await_session : Radio → Job (Unit {0})
await_session radio =
    update (await_iv iv_wait_rounds radio.iv_rounds)
    >> (gets (λ p. p.iv_received) >>= λ received. ensure received no_session)

after_write :
    (w : Bool) (radio : Radio) (s : Run) (heard : Option Bytes)
    → latched_iv (await_iv iv_wait_rounds radio.iv_rounds s.pairer) ≡ heard
    → SessionAfter
        (if w then heard else none)
        ((ensure w iv_not_requested >> await_session radio) s)
unfolding hang_up set_failed
after_write true radio s heard h =
    ensure-session _ (record s { pairer = await_iv iv_wait_rounds radio.iv_rounds s.pairer }) heard
      refl h
after_write false radio s heard h = (refl, refl)

-- The notifications that arrive with the acknowledgement of the IV request and in the six waits behind it.
abbrev pub heard_by : Radio → Run → List Bytes
heard_by radio s = (next_reply s.air).0.notices ++ within iv_wait_rounds radio.iv_rounds

-- A session is opened exactly when the keypad acknowledges the IV request and one of the notifications up to
-- the end of the six waits is a 20-byte frame that begins 01 00. The IV of the session is that of the first
-- such frame, whatever follows it. In every other case the job fails.
pub request_iv-SessionAfter :
    (radio : Radio) (s : Run)
    → s.pairer.iv_received ≡ false
    → SessionAfter
        (if (next_reply s.air).0.written then first_iv (heard_by radio s) else none)
        (request_iv radio s)
unfolding request_iv write_value show set_step
request_iv-SessionAfter radio s fresh =
    let r = (next_reply s.air).0 in
    let p : KeypadPairer = record (s.pairer) {
      status = record (s.pairer.status) { step = 2; message = label 2 };
    } in
    let first : latched_iv p ≡ none = ground (arith, fresh) in
    after_write r.written radio
      (record s {
        pairer = deliver r.notices p;
        air = (next_reply s.air).1;
        acts = write (iv_request p) r.written ∷ show_step 2 ∷ s.acts;
      })
      (first_iv (heard_by radio s))
      (await_iv-iv iv_wait_rounds radio.iv_rounds (deliver r.notices p)
        ∙ ap (λ o. or_else o (first_iv (within iv_wait_rounds radio.iv_rounds)))
            (deliver-iv r.notices p ∙ ap (λ o. or_else o (first_iv r.notices)) first)
        ∙ sym (first_iv-append r.notices (within iv_wait_rounds radio.iv_rounds)))
