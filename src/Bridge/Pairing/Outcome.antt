-- ===== src/Bridge/Pairing/Outcome.antt =====
-- components/switchbot_keypad_bridge/switchbot_keypad_bridge.cpp: what `unpair` leaves in the bridge, in the
-- flash and in the key store, and what a keypad can still do.
use switchbot_keypad_bridge.Common.{
  ℕ, ◌≡◌, refl, ◌∙◌, subst, inl, inr, Bool, true, false, Option, none, some, List, [], ◌∷◌, arith,
  ◌==◌, if◌then◌else◌, Bool-cases, drop, replicate, Bytes,
}
use switchbot_keypad_bridge.LockSession.{
  is_iv_request, accept_iv_request, process_frame, drop_frame, command, LockSession, Entropy,
  session_iv,
}
use switchbot_keypad_bridge.Bridge.State.{
  no_keypad_info, Effect, Bridge, clear_comm_key, destroy_key, start_ui,
}
use switchbot_keypad_bridge.Bridge.Pairing.{
  keypad_name_max, create_shared_key, drop_aes_key, use_aes_key, end_scan, forget_keypad,
  finish_unpair, unpair,
}
use switchbot_keypad_bridge.Bridge.Startup.{Flash}
use switchbot_keypad_bridge.Bridge.Startup.InStep.{saved_all}
use switchbot_keypad_bridge.AesCtr.Cipher.{Xcrypt}
use switchbot_keypad_bridge.Bridge.Pairing.Unpaired.{Forgotten, unpair-Forgotten}
use switchbot_keypad_bridge.LockSession.Accepted.{process-iv_request}
use switchbot_keypad_bridge.LockSession.Gate.{process_frame-command_iff}
use switchbot_keypad_bridge.LockSession.Invariant.{IsValid, process_frame-IsValid}
use switchbot_keypad_bridge.LockSession.Steps.{process_frame-Keeps}
use switchbot_keypad_bridge.LockSession.State.{clear_replay_history, rotate_iv}
use switchbot_keypad_bridge.LockSession.Traces.{Arrival, IsQuiet, feed, no_iv_drops}

-- The handles of the key store that are destroyed, and the keys with which the page is started again.
abbrev pub destroyed : List Effect → List ℕ
destroyed [] = []
destroyed (destroy_key handle ∷ es) = handle ∷ destroyed es
destroyed (_ ∷ es) = destroyed es

abbrev pub started : List Effect → List Bytes
started [] = []
started (start_ui key ∷ es) = key ∷ started es
started (_ ∷ es) = started es

abbrev pub clears_comm_key : List Effect → Bool
clears_comm_key [] = false
clears_comm_key (clear_comm_key ∷ es) = true
clears_comm_key (_ ∷ es) = clears_comm_key es

-- The key is rotated: the new one is in the bridge and in the flash, and the old handle, if there is one, is
-- destroyed, and no other.
pub record Rotated (key : Bytes) (s : Bridge) (es : List Effect) (s' : Bridge) : Type 0 where
  pub shared_key : s'.identity.shared_key ≡ key
  pub flash_key : (f : Flash) → (saved_all es f).key ≡ some key
  pub old_key :
      destroyed es ≡ (if s.identity.aes_key_handle == 0 then [] else s.identity.aes_key_handle ∷ [])

-- A keypad under the session: before the next IV request nothing is accepted, and whatever comes, an accepted
-- frame decrypts under the key of this handle, which no frame changes.
pub record OnlyUnder (xcrypt : Xcrypt ℕ) (handle : ℕ) (t : LockSession) : Type 0 where
  pub silent :
      (fs : List Arrival) (r : Entropy) (frame : Bytes)
      → IsQuiet fs
      → is_iv_request frame ≡ false
      → (process_frame xcrypt r frame (feed xcrypt fs t)).0 ≡ drop_frame
  pub new_key :
      (fs : List Arrival) (r : Entropy) (frame : Bytes)
      → (process_frame xcrypt r frame (feed xcrypt fs t)).0 ≡ command
      → (plaintext : Bytes) × (xcrypt handle (session_iv (feed xcrypt fs t)) (drop 4 frame)
          ≡ some plaintext)

-- The keypad is forgotten: in the bridge, in the flash and by the session; the page is started with the new key.
pub record IsUnpaired (xcrypt : Xcrypt ℕ) (key : Bytes) (handle : ℕ) (es : List Effect)
    (s' : Bridge) : Type 0 where
  pub forgotten : Forgotten key handle s'
  pub own_handle : s'.identity.aes_key_handle ≡ handle
  pub no_scan : s'.battery.scan_active ≡ false
  pub flash_name : (f : Flash) → (saved_all es f).name ≡ some (replicate keypad_name_max 0)
  pub flash_info : (f : Flash) → (saved_all es f).info ≡ some no_keypad_info
  pub comm_key : clears_comm_key es ≡ true
  pub page : started es ≡ key ∷ []
  pub only_under : OnlyUnder xcrypt handle s'.session

-- The keypad is still paired, in the bridge and in the flash, but there is no key in the key store, and the session
-- is left as it was.
pub record IsHalfDone (s : Bridge) (es : List Effect) (s' : Bridge) : Type 0 where
  pub still_paired : s'.identity.paired ≡ s.identity.paired
  pub same_name : s'.identity.name ≡ s.identity.name
  pub same_info : s'.identity.info ≡ s.identity.info
  pub same_session : s'.session ≡ s.session
  pub no_handle : s'.identity.aes_key_handle ≡ 0
  pub flash_name : (f : Flash) → (saved_all es f).name ≡ f.name
  pub flash_info : (f : Flash) → (saved_all es f).info ≡ f.info
  pub comm_key : clears_comm_key es ≡ false
  pub page : started es ≡ []

abbrev pub UnpairOutcome : Xcrypt ℕ → Bytes → Option ℕ → Bridge → List Effect → Bridge → Type 0
UnpairOutcome xcrypt key none s es s' = Rotated key s es s' × IsHalfDone s es s'
UnpairOutcome xcrypt key (some handle) s es s' =
    Rotated key s es s' × IsUnpaired xcrypt key handle es s'

unpair-Rotated :
    (key : Bytes) (handle : Option ℕ) (is_scanning : Bool) (s : Bridge)
    → let (es, s') = unpair key handle is_scanning s in Rotated key s es s'
unfolding unpair create_shared_key drop_aes_key finish_unpair use_aes_key forget_keypad end_scan
unpair-Rotated key none is_scanning s = record {
  shared_key = ground arith;
  flash_key = λ f. ground arith;
  old_key = ground arith;
}
unpair-Rotated key (some handle) is_scanning s = record {
  shared_key = ground arith;
  flash_key = λ f. ground arith;
  old_key = ground arith;
}

unpair-IsHalfDone :
    (key : Bytes) (is_scanning : Bool) (s : Bridge)
    → let (es, s') = unpair key none is_scanning s in IsHalfDone s es s'
unfolding unpair create_shared_key drop_aes_key finish_unpair
unpair-IsHalfDone key is_scanning s = record {
  still_paired = ground arith;
  same_name = ground arith;
  same_info = ground arith;
  same_session = ground arith;
  no_handle = ground arith;
  flash_name = λ f. ground arith;
  flash_info = λ f. ground arith;
  comm_key = ground arith;
  page = ground arith;
}

module _ (xcrypt : Xcrypt ℕ) where
  process_frame-same_key :
      (r : Entropy) (frame : Bytes) (t : LockSession)
      → IsValid t
      → (process_frame xcrypt r frame t).1.aes_key ≡ t.aes_key
  unfolding accept_iv_request clear_replay_history rotate_iv
  process_frame-same_key r frame t v = elim (Bool-cases (is_iv_request frame)) [
    | inl i ↦ rw (process-iv_request xcrypt r frame t i) refl
    | inr n ↦ (process_frame-Keeps xcrypt r frame t v n).same_key
  ]

  feed-same_key :
      (fs : List Arrival) (t : LockSession) → IsValid t → (feed xcrypt fs t).aes_key ≡ t.aes_key
  unfolding feed
  feed-same_key [] t v = refl
  feed-same_key ((r, frame) ∷ fs) t v =
      feed-same_key fs _ (process_frame-IsValid xcrypt r frame t v)
      ∙ process_frame-same_key r frame t v

  reset-OnlyUnder :
      (handle : ℕ) (t : LockSession)
      → IsValid t
      → t.iv_established ≡ false
      → t.aes_key ≡ handle
      → OnlyUnder xcrypt handle t
  reset-OnlyUnder handle t v off e = record {
    silent = λ fs r frame quiet n. no_iv_drops xcrypt t fs r frame v off quiet n;
    new_key = λ fs r frame c.
        let a = (process_frame-command_iff xcrypt r frame (feed xcrypt fs t)).0 c in
        (
          a.plaintext,
          subst (λ k. xcrypt k (session_iv (feed xcrypt fs t)) (drop 4 frame) ≡ some a.plaintext)
              (feed-same_key fs t v ∙ e) a.decrypts,
        );
  }

  unpair-IsUnpaired :
      (key : Bytes) (handle : ℕ) (is_scanning : Bool) (s : Bridge)
      → IsValid s.session
      → let (es, s') = unpair key (some handle) is_scanning s in IsUnpaired xcrypt key handle es s'
  unfolding unpair create_shared_key drop_aes_key finish_unpair use_aes_key forget_keypad end_scan
  unpair-IsUnpaired key handle is_scanning s v =
      let forgotten = unpair-Forgotten key handle is_scanning s v in
      record {
        forgotten = forgotten;
        own_handle = ground arith;
        no_scan = ground arith;
        flash_name = λ f. ground arith;
        flash_info = λ f. ground arith;
        comm_key = ground arith;
        page = ground arith;
        only_under =
            reset-OnlyUnder handle _ (forgotten.valid_session) (forgotten.no_iv)
              (forgotten.new_handle);
      }

  -- An unpair rotates the key in any case: the new one is in the bridge and in the flash, and exactly the old
  -- handle, if there is one, is destroyed. If the key store imports the new key, the keypad is forgotten, in the
  -- bridge and in the flash, its communication key is cleared, and the page starts with the new key; no frame is
  -- accepted before the next IV request, and after it only one that decrypts under the new handle. If the import
  -- fails, the keypad stays paired, in the bridge and in the flash, with the session as it was and no handle.
  pub unpair-UnpairOutcome :
      (key : Bytes) (handle : Option ℕ) (is_scanning : Bool) (s : Bridge)
      → IsValid s.session
      → let (es, s') = unpair key handle is_scanning s in UnpairOutcome xcrypt key handle s es s'
  unpair-UnpairOutcome key none is_scanning s v =
      (unpair-Rotated key none is_scanning s, unpair-IsHalfDone key is_scanning s)
  unpair-UnpairOutcome key (some handle) is_scanning s v =
      (unpair-Rotated key (some handle) is_scanning s, unpair-IsUnpaired key handle is_scanning s v)
