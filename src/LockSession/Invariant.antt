-- ===== src/LockSession/Invariant.antt =====
-- components/switchbot_keypad_bridge/lock_session.cpp: what holds of a session between two frames.
use switchbot_keypad_bridge.Common.{
  ℕ, suc, ◌≤◌, ◌<◌, ◌≡◌, refl, sym, ap, ◌∙◌, subst, inl, inr, Bool, true, false, List, [], ◌∷◌,
  ◌++◌, arith, Bool-cases, Option-cases, length, get_or, take, drop, All, length-append, length-set,
  length-drop, All-append, set-All, get_or-All, take-All, Bytes, IsByte,
}
use switchbot_keypad_bridge.AesCtr.Cipher.{Xcrypt}
use switchbot_keypad_bridge.LockSession.{
  accept_iv_request, frame_header, finish_command, decrypt_frame, encrypted_frame, process_frame,
  ReplayEntry, LockSession, Entropy, max_payload, replay_history_size, session_iv, new_session,
  clear_replay_history, reset, rotate_iv, is_replayed_ciphertext, record_ciphertext,
}
use switchbot_keypad_bridge.LockSession.State.{
  empty_entry, clear_entries, entropy_bytes, is_recordable, write_entry,
}
use switchbot_keypad_bridge.LockProtocol.{decode_lock_command}

-- A replay entry means at most the 32 bytes of its array.
abbrev pub EntryFits : ReplayEntry → Type 0
EntryFits e = (e.len ≤ max_payload) × (length e.bytes ≡ max_payload)

pub record IsValid (s : LockSession) : Type 0 where
  pub iv_size : length s.iv_response ≡ 20
  pub iv_header : take 4 s.iv_response ≡ 0x01 ∷ 0x00 ∷ 0x00 ∷ 0x00 ∷ []
  pub iv_bytes : All IsByte s.iv_response
  pub history_size : length s.replay_history ≡ replay_history_size
  pub head_in : s.replay_head < replay_history_size
  pub entries_fit : All EntryFits s.replay_history

new_session-IsValid : IsValid new_session
unfolding new_session
new_session-IsValid = record {
  iv_size = refl;
  iv_header = refl;
  iv_bytes = omega arith;
  history_size = refl;
  head_in = omega arith;
  entries_fit = omega arith;
}

length-clear_entries : (es : List ReplayEntry) → length (clear_entries es) ≡ length es
unfolding clear_entries
length-clear_entries [] = refl
length-clear_entries (e ∷ es) = ap suc (length-clear_entries es)

clear_entries-fit : (es : List ReplayEntry) → All EntryFits es → All EntryFits (clear_entries es)
unfolding clear_entries
clear_entries-fit [] h = h
clear_entries-fit (e ∷ es) h = ((omega arith, h.0.1), clear_entries-fit es h.1)

clear-IsValid : (s : LockSession) → IsValid s → IsValid (clear_replay_history s)
unfolding clear_replay_history
clear-IsValid s v = record {
  iv_size = v.iv_size;
  iv_header = v.iv_header;
  iv_bytes = v.iv_bytes;
  history_size = length-clear_entries s.replay_history ∙ v.history_size;
  head_in = omega arith;
  entries_fit = clear_entries-fit s.replay_history v.entries_fit;
}

pub reset-IsValid : (s : LockSession) → IsValid s → IsValid (reset s)
unfolding reset
reset-IsValid s v =
    clear-IsValid (record s { iv_established = false })
      (record {
        iv_size = v.iv_size;
        iv_header = v.iv_header;
        iv_bytes = v.iv_bytes;
        history_size = v.history_size;
        head_in = v.head_in;
        entries_fit = v.entries_fit;
      })

entropy-IsByte : (r : Entropy) → All IsByte (entropy_bytes r)
entropy-IsByte r = omega arith

length-entropy_bytes : (r : Entropy) → length (entropy_bytes r) ≡ 16
length-entropy_bytes r = refl

iv_response-rotate_iv :
    (r : Entropy) (s : LockSession)
    → IsValid s
    → (rotate_iv r s).iv_response ≡ 0x01 ∷ 0x00 ∷ 0x00 ∷ 0x00 ∷ entropy_bytes r
unfolding rotate_iv
iv_response-rotate_iv r s v = ap (λ h. h ++ entropy_bytes r) v.iv_header

rotate_iv-IsValid : (r : Entropy) (s : LockSession) → IsValid s → IsValid (rotate_iv r s)
unfolding rotate_iv
rotate_iv-IsValid r s v = record {
  iv_size = ap length (iv_response-rotate_iv r s v);
  iv_header = ap (take 4) (iv_response-rotate_iv r s v);
  iv_bytes =
      All-append IsByte (take 4 s.iv_response) _ (take-All IsByte 4 s.iv_response v.iv_bytes)
        (entropy-IsByte r);
  history_size = v.history_size;
  head_in = v.head_in;
  entries_fit = v.entries_fit;
}

write_entry-fits :
    (ct : Bytes) (e : ReplayEntry)
    → is_recordable ct ≡ true
    → EntryFits e
    → EntryFits (write_entry ct e)
unfolding write_entry
write_entry-fits ct e k f =
    ground (arith, length-append ct (drop (length ct) e.bytes), length-drop (length ct) e.bytes)

record-IsValid : (ct : Bytes) (s : LockSession) → IsValid s → IsValid (record_ciphertext ct s)
unfolding record_ciphertext
record-IsValid ct s v = elim (Bool-cases (is_recordable ct)) [
  | inr f ↦ rw f v
  | inl t ↦ rw t (record {
    iv_size = v.iv_size;
    iv_header = v.iv_header;
    iv_bytes = v.iv_bytes;
    history_size = length-set s.replay_history s.replay_head _ ∙ v.history_size;
    head_in = omega arith;
    entries_fit = set-All EntryFits s.replay_history s.replay_head _ v.entries_fit (
        write_entry-fits ct _ t (
          get_or-All EntryFits s.replay_history s.replay_head empty_entry v.entries_fit
            (omega arith)));
  })
]

-- A method that leaves the IV and the history alone keeps the invariant.
pub same_buffers-IsValid :
    {s t : LockSession}
    → t.iv_response ≡ s.iv_response
    → t.replay_history ≡ s.replay_history
    → t.replay_head ≡ s.replay_head
    → IsValid s
    → IsValid t
same_buffers-IsValid {s} {t} e1 e2 e3 v = record {
  iv_size = ap length e1 ∙ v.iv_size;
  iv_header = ap (take 4) e1 ∙ v.iv_header;
  iv_bytes = subst (All IsByte) (sym e1) v.iv_bytes;
  history_size = ap length e2 ∙ v.history_size;
  head_in = omega arith;
  entries_fit = subst (All EntryFits) (sym e2) v.entries_fit;
}

pub accept-IsValid :
    (r : Entropy) (frame : Bytes) (s : LockSession)
    → IsValid s
    → IsValid (accept_iv_request r frame s).1
unfolding accept_iv_request
accept-IsValid r frame s v =
    let adopted = record s { slot_id = get_or frame 7 0 } in
    same_buffers-IsValid refl refl refl (
      clear-IsValid (rotate_iv r adopted)
        (rotate_iv-IsValid r adopted (same_buffers-IsValid {s = s} refl refl refl v)))

-- What an answered IV request leaves: the IV that was drawn, under the fixed header, and a session
-- that takes encrypted frames.
pub iv_response-accept :
    (r : Entropy) (frame : Bytes) (s : LockSession)
    → IsValid s
    → (accept_iv_request r frame s).1.iv_response ≡ 0x01 ∷ 0x00 ∷ 0x00 ∷ 0x00 ∷ entropy_bytes r
unfolding accept_iv_request clear_replay_history
iv_response-accept r frame s v =
    let adopted = record s { slot_id = get_or frame 7 0 } in
    iv_response-rotate_iv r adopted (same_buffers-IsValid {s = s} refl refl refl v)

finish-IsValid :
    (ct : Bytes) (seen : Bool) (s : LockSession) → IsValid s → IsValid (finish_command ct seen s).1
unfolding finish_command
finish-IsValid ct seen s v = ground (arith, record-IsValid ct s v)

module _ (xcrypt : Xcrypt ℕ) where
  decrypt-IsValid :
      (ct : Bytes) (s : LockSession) → IsValid s → IsValid (decrypt_frame xcrypt ct s).1
  unfolding decrypt_frame
  decrypt-IsValid ct s v = elim (Option-cases (xcrypt s.aes_key (session_iv s) ct)) [
    | inl e ↦ rw (e, decrypt_frame) v
    | inr (p, e) ↦
        rw (e, decrypt_frame)
          (finish-IsValid ct (is_replayed_ciphertext ct s)
            (record s { last_command = decode_lock_command p })
            (same_buffers-IsValid {s = s} refl refl refl v))
  ]

  encrypted-IsValid :
      (frame : Bytes) (s : LockSession) → IsValid s → IsValid (encrypted_frame xcrypt frame s).1
  unfolding encrypted_frame
  encrypted-IsValid frame s v =
      let s' = record s { header = frame_header frame } in
      let v' : IsValid s' = same_buffers-IsValid {s = s} refl refl refl v in
      ground (arith, v', decrypt-IsValid (drop 4 frame) s' v')

  -- Every frame, of any bytes, whatever the cipher and the random words are, keeps the session valid:
  -- the IV response stays 20 bytes under its fixed header, the replay ring keeps its 8 entries of at
  -- most 32 bytes, and its head stays inside it.
  pub process_frame-IsValid :
      (r : Entropy) (frame : Bytes) (s : LockSession)
      → IsValid s
      → IsValid (process_frame xcrypt r frame s).1
  unfolding process_frame
  process_frame-IsValid r frame s v =
      ground (arith, v, accept-IsValid r frame s v, encrypted-IsValid frame s v)
