-- ===== src/KeypadPairer/Job.antt =====
-- components/switchbot_keypad_bridge/keypad_pairer.cpp: what a job does over the air, as a program that can give
-- up. The keypad and the radio are not part of the program: their answers come with the job.
use switchbot_keypad_bridge.Common.{
  ℕ, Bool, true, false, Option, none, some, List, [], ◌∷◌, get_or, Bytes,
}
use switchbot_keypad_bridge.AesCtr.Cipher.{Xcrypt}
use switchbot_keypad_bridge.KeypadPairer.Dialect.{label}
use switchbot_keypad_bridge.KeypadPairer.JobStatus.{KeypadPairer, set_step, set_failed, deliver}

-- The calls of the BLE stack that a job makes, the steps it shows, and the log of a raw command.
pub data Act : Type 0 where
  stop_advertising start_advertising create_client delete_client : Act
  terminate_link subscribe disconnect : Act
  connect : Bool → Act
  write : Bytes → Bool → Act
  show_step : ℕ → Act
  log_response : Bool → Bytes → Bytes → Act

-- What comes back from a write: whether the keypad acknowledged it, and the notifications until the end of the
-- wait for one.
pub record Reply : Type 0 where
  pub written : Bool
  pub notices : List Bytes

-- Out of answers, the keypad is out of range.
abbrev pub no_reply : Reply
no_reply = record { written = false; notices = [] }

-- A job under way: `air` holds the replies to the writes still to come, `acts` what was done, latest first.
pub record Run : Type 0 where
  pub pairer : KeypadPairer
  pub air : List Reply
  pub acts : List Act

-- `none` is an early return.
abbrev pub Job : Type 0 → Type 0
Job A = Run → Option A × Run

abbrev pub pure : {A : Type 0} → A → Job A
pure a s = (some a, s)

abbrev pub leave : {A : Type 0} → Job A
leave s = (none, s)

abbrev pub and_then : {A B : Type 0} → Option A × Run → (A → Job B) → Option B × Run
and_then (some a, s) f = f a s
and_then (none, s) f = (none, s)

infixl 5 ◌>>=◌ ◌>>◌
abbrev pub ◌>>=◌ : {A B : Type 0} → Job A → (A → Job B) → Job B
◌>>=◌ m f s = and_then (m s) f

abbrev pub ◌>>◌ : {A B : Type 0} → Job A → Job B → Job B
m >> k = m >>= λ _. k

abbrev pub act : Act → Job (Unit {0})
act a s = (some tt, record s { acts = a ∷ s.acts })

abbrev pub update : (KeypadPairer → KeypadPairer) → Job (Unit {0})
update f s = (some tt, record s { pairer = f s.pairer })

abbrev pub gets : {A : Type 0} → (KeypadPairer → A) → Job A
gets f s = (some (f s.pairer), s)

-- A step is shown to whoever polls the status.
unfoldable pub show : ℕ → Job (Unit {0})
show step = update (set_step step (label step)) >> act (show_step step)

abbrev pub give_up : {A : Type 0} → Bytes → Job A
give_up msg = update (set_failed msg) >> leave

-- The link is closed and its client freed before the job fails.
unfoldable pub hang_up : {A : Type 0} → Bytes → Job A
hang_up msg = act disconnect >> (act delete_client >> give_up msg)

abbrev pub ensure : Bool → Bytes → Job (Unit {0})
ensure true msg = pure tt
ensure false msg = hang_up msg

-- The next answer from the air.
abbrev pub next_reply : List Reply → Reply × List Reply
next_reply [] = (no_reply, [])
next_reply (r ∷ rs) = (r, rs)

-- `writeValue`, with the notifications that follow it.
unfoldable pub write_value : Bytes → Job Bool
write_value frame s =
    let (r, rest) = next_reply s.air in
    (
      some r.written,
      record s {
        pairer = deliver r.notices s.pairer;
        air = rest;
        acts = write frame r.written ∷ s.acts;
      },
    )

abbrev pub frame_for : KeypadPairer → Bytes → Bytes
frame_for p ciphertext = 0x57 ∷ p.key_id ∷ get_or p.iv 0 0 ∷ get_or p.iv 1 0 ∷ ciphertext

-- A frame that could be encrypted is written; a missing acknowledgement is tolerated.
abbrev pub send_encrypted : Option Bytes → Job Bool
send_encrypted none s = (some false, s)
send_encrypted (some ciphertext) s = write_value (frame_for s.pairer ciphertext) s

module _ (xcrypt : Xcrypt Bytes) where
  unfoldable pub send_command : Bytes → Job Bool
  send_command plaintext s = send_encrypted (xcrypt s.pairer.key s.pairer.iv plaintext) s
