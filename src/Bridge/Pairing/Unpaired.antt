-- ===== src/Bridge/Pairing/Unpaired.antt =====
-- components/switchbot_keypad_bridge/switchbot_keypad_bridge.cpp: what is left of a keypad after `unpair`.
use switchbot_keypad_bridge.Common.{
  ℕ, ◌≡◌, refl, sym, ◌∙◌, subst, inl, inr, Bool, true, false, some, List, ◌==◌, if◌then◌else◌,
  Bool-cases, replicate, negsuc, Bytes,
}
use switchbot_keypad_bridge.LockSession.{LockSession, set_aes_key, forget_slot, reset}
use switchbot_keypad_bridge.LockSession.Invariant.{IsValid, reset-IsValid, same_buffers-IsValid}
use switchbot_keypad_bridge.Bridge.State.{no_keypad_info, Effect, Lock, Identity, Bridge}
use switchbot_keypad_bridge.Bridge.Pairing.{
  create_shared_key, drop_aes_key, use_aes_key, end_scan, forget_keypad, finish_unpair, unpair,
}

-- The bridge knows no keypad: the session has the key of this handle, no token slot and no IV, and no
-- name, MAC or battery level of a keypad is left.
pub record Forgotten (key : Bytes) (handle : ℕ) (s : Bridge) : Type 0 where
  pub new_key : s.identity.shared_key ≡ key
  pub new_handle : s.session.aes_key ≡ handle
  pub no_slot : s.session.slot_id ≡ 0
  pub no_iv : s.session.iv_established ≡ false
  pub unpaired : s.identity.paired ≡ false
  pub no_info : s.identity.info ≡ no_keypad_info
  pub no_name : s.identity.name ≡ replicate 48 0
  pub no_level : s.battery.last_battery ≡ negsuc 0
  pub valid_session : IsValid s.session

drop_aes_key-kept :
    (s : Bridge)
    → ((drop_aes_key s).1.session ≡ s.session)
      × ((drop_aes_key s).1.identity.shared_key ≡ s.identity.shared_key)
      × ((drop_aes_key s).1.lock ≡ s.lock)
unfolding drop_aes_key
drop_aes_key-kept s = elim (Bool-cases (s.identity.aes_key_handle == 0)) [
  | inl none_yet ↦ rw none_yet (refl, refl, refl)
  | inr old ↦ rw old (refl, refl, refl)
]

choose :
    {A : Type 0} (b : Bool) (x y : List Effect × Bridge) (f : Bridge → A) (z : A)
    → f x.1 ≡ z
    → f y.1 ≡ z
    → f (if b then x else y).1 ≡ z
choose true x y f z hx hy = hx
choose false x y f z hx hy = hy

end_scan-kept :
    {A : Type 0} (is_scanning : Bool) (s : Bridge) (f : LockSession → Identity → Lock → A)
    → f
        (end_scan is_scanning s).1.session
        (end_scan is_scanning s).1.identity
        (end_scan is_scanning s).1.lock
      ≡ f s.session s.identity s.lock
unfolding end_scan
end_scan-kept is_scanning s f =
    choose s.battery.scan_active _ _ (λ (t : Bridge). f t.session t.identity t.lock) _ refl refl

-- Once the new key is imported, an unpair forgets the keypad, whatever scan is open and whatever was
-- negotiated.
pub unpair-Forgotten :
    (key : Bytes) (handle : ℕ) (is_scanning : Bool) (s : Bridge)
    → IsValid s.session
    → Forgotten key handle (unpair key (some handle) is_scanning s).1
unfolding unpair create_shared_key finish_unpair use_aes_key forget_keypad forget_slot reset
    set_aes_key
unpair-Forgotten key handle is_scanning s v =
    let s0 : Bridge = record s { identity = record (s.identity) { shared_key = key } } in
    let s1 = (drop_aes_key s0).1 in
    let s2 = (use_aes_key handle s1).1 in
    let s3 = (end_scan is_scanning s2).1 in
    let kept1 = drop_aes_key-kept s0 in
    let v3 : IsValid s3.session =
      subst IsValid (sym (end_scan-kept is_scanning s2 (λ t i l. t)))
        (same_buffers-IsValid {s = s1.session} refl refl refl (subst IsValid (sym kept1.0) v)) in
    record {
      new_key = end_scan-kept is_scanning s2 (λ t i l. i.shared_key) ∙ kept1.1;
      new_handle = end_scan-kept is_scanning s2 (λ t i l. t.aes_key);
      no_slot = refl;
      no_iv = refl;
      unpaired = refl;
      no_info = refl;
      no_name = refl;
      no_level = refl;
      valid_session =
          same_buffers-IsValid {s = reset s3.session} refl refl refl (reset-IsValid s3.session v3);
    }
