-- ===== src/KeypadPairer/Reading.antt =====
-- components/switchbot_keypad_bridge/keypad_pairer.cpp: the values that a read of the settings brings.
use switchbot_keypad_bridge.Common.{
  ℕ, ◌≡◌, refl, ap, ◌∙◌, subst, Bool, true, Option, none, some, List, [], ◌∷◌, ltb, if◌then◌else◌,
  length, drop, ℤ, negsuc, Bytes,
}
use switchbot_keypad_bridge.AesCtr.Cipher.{Xcrypt}
use switchbot_keypad_bridge.KeypadPairer.JobStatus.{
  Request, KeypadPairer, set_success, take_read_result, on_notify, deliver,
}
use switchbot_keypad_bridge.KeypadPairer.Job.{
  Reply, Run, Job, and_then, ◌>>=◌, ◌>>◌, update, gets, next_reply, write_value, send_encrypted,
  send_command,
}
use switchbot_keypad_bridge.KeypadPairer.Execute.{
  clear_notify, finish, first_byte, keep_values, decrypt_notify, value_read, read_param, read_each,
  read_settings_job,
}
use switchbot_keypad_bridge.KeypadPairer.Delivery.{SameSession, deliver-SameSession}

abbrev pub last_notice : List Bytes → Bytes → Bytes
last_notice [] d = d
last_notice (n ∷ ns) d = last_notice ns n

on_notify-last : (n : Bytes) (p : KeypadPairer) → (on_notify n p).last_notify ≡ n
unfolding on_notify
on_notify-last n p = refl

deliver-last :
    (ns : List Bytes) (p : KeypadPairer) → (deliver ns p).last_notify ≡ last_notice ns p.last_notify
unfolding deliver
deliver-last [] p = refl
deliver-last (n ∷ ns) p = deliver-last ns (on_notify n p) ∙ ap (last_notice ns) (on_notify-last n p)

and_then-some :
    {A B : Type 0} (r : Option A × Run) (f : A → Job B) (a : A)
    → r.0 ≡ some a
    → and_then r f ≡ f a r.1
and_then-some (some b, s) f a e = ap (λ c. f c s) (cc e)
and_then-some (none, s) f a e = absurd (cc e)

module _ (xcrypt : Xcrypt Bytes) (p : KeypadPairer) where
  abbrev pub first_of : Bytes → Bytes → Bytes → Bool → ℤ
  first_of key iv n ack =
      if ack
      then first_byte (if ltb 4 (length n) then xcrypt key iv (drop 4 n) else none)
      else negsuc 0

  -- The value in a reply to a GET, -1 where there is none: the first decrypted byte of the last notification.
  abbrev pub value_in : Reply → ℤ
  value_in r = first_of p.key p.iv (last_notice r.notices []) r.written

  -- The GET of a parameter that cannot be encrypted is not sent, and so uses no reply.
  abbrev pub values_after : Option Bytes → List Reply → ℤ × List Reply
  values_after none air = (negsuc 0, air)
  values_after (some ct) air = (value_in (next_reply air).0, (next_reply air).1)

  abbrev pub values_of : Bytes → List Reply → List ℤ
  values_of [] air = []
  values_of (param ∷ params) air =
      let (value, rest) = values_after (xcrypt p.key p.iv (0x0F ∷ 0x53 ∷ 0x01 ∷ param ∷ [])) air in
      value ∷ values_of params rest

  -- A job's step that brings a value and leaves the rest of the replies.
  abbrev Brings : ℤ × List Reply → Option ℤ × Run → Type 0
  Brings v r = (r.0 ≡ some v.0) × (r.1.air ≡ v.1) × SameSession p r.1.pairer

  sent-Brings :
      (o : Option Bytes) (s : Run)
      → SameSession p s.pairer
      → s.pairer.last_notify ≡ []
      → Brings
          (values_after o s.air)
          ((send_encrypted o >>= λ sent. gets (value_read xcrypt sent)) s)
  unfolding write_value decrypt_notify
  sent-Brings none s same clear = (refl, refl, same)
  sent-Brings (some ct) s same clear =
      let r = (next_reply s.air).0 in
      let n = last_notice r.notices [] in
      let q = deliver r.notices s.pairer in
      let same' = deliver-SameSession r.notices same in
      let last : q.last_notify ≡ n =
        deliver-last r.notices s.pairer ∙ ap (last_notice r.notices) clear in
      let e : value_read xcrypt r.written q ≡ value_in r =
        λ i. first_of (same'.key i) (same'.iv i) (last i) r.written in
      (ap some e, refl, same')

  cleared : {q : KeypadPairer} → SameSession p q → SameSession p (clear_notify q)
  cleared same = record {
    key = same.key;
    key_id = same.key_id;
    iv = same.iv;
    latched = same.latched;
  }

  read_param-Brings :
      (param : ℕ) (s : Run)
      → SameSession p s.pairer
      → Brings
          (values_after (xcrypt p.key p.iv (0x0F ∷ 0x53 ∷ 0x01 ∷ param ∷ [])) s.air)
          (read_param xcrypt param s)
  unfolding read_param send_command
  read_param-Brings param s same =
      subst (λ o. Brings (values_after o s.air) (read_param xcrypt param s))
        (λ i. xcrypt (same.key i) (same.iv i) (0x0F ∷ 0x53 ∷ 0x01 ∷ param ∷ []))
        (sent-Brings _ (record s { pairer = clear_notify s.pairer }) (cleared same) refl)

  read_each-values :
      (params : Bytes) (s : Run)
      → SameSession p s.pairer
      → (read_each xcrypt params s).0 ≡ some (values_of params s.air)
  unfolding read_each
  read_each-values [] s same = refl
  read_each-values (param ∷ params) s same =
      let v = values_after (xcrypt p.key p.iv (0x0F ∷ 0x53 ∷ 0x01 ∷ param ∷ [])) s.air in
      let (got, air, same') = read_param-Brings param s same in
      let rest = read_each-values params (read_param xcrypt param s).1 same' in
      let next : (read_each xcrypt params (read_param xcrypt param s).1).0
          ≡ some (values_of params v.1) =
        rest ∙ ap (λ a. some (values_of params a)) air in
      ap (λ o. o.0) (and_then-some _ _ v.0 got)
      ∙ ap (λ o. o.0) (and_then-some _ _ (values_of params v.1) next)

-- In an open session a read of the settings yields one value for each parameter, in their order, and yields
-- them once: a parameter's value is the first decrypted byte of the last notification that came with its own
-- GET, and -1 where the GET was not acknowledged, could not be encrypted, or brought none of over 4 bytes.
-- Nothing that came with an earlier parameter is taken for it.
pub read_settings_job-values :
    (xcrypt : Xcrypt Bytes) (req : Request) (s : Run)
    → s.pairer.iv_received ≡ true
    → let (values, q) = take_read_result (read_settings_job xcrypt req s).1.pairer in
      (values ≡ some (values_of xcrypt s.pairer req.read_params s.air))
      × ((take_read_result q).0 ≡ none)
unfolding read_settings_job finish set_success take_read_result
read_settings_job-values xcrypt req s latched =
    let same : SameSession s.pairer s.pairer = record {
      key = refl;
      key_id = refl;
      iv = refl;
      latched = latched;
    } in
    let e =
      and_then-some (read_each xcrypt req.read_params s)
        (λ values. update (keep_values values) >> finish req) _
        (read_each-values xcrypt s.pairer req.read_params s same) in
    (
      ap (λ (r : Option (Unit {0}) × Run). (take_read_result r.1.pairer).0) e,
      ap (λ (r : Option (Unit {0}) × Run). (take_read_result (take_read_result r.1.pairer).1).0) e,
    )
