-- ===== src/KeypadPairer/Delivery.antt =====
-- components/switchbot_keypad_bridge/keypad_pairer.cpp: what a pairing sends is its plan, as the keypad reads it.
use switchbot_keypad_bridge.Common.{
  ℕ, ◌≡◌, refl, sym, ap, ap₂, ◌∙◌, subst, Bool, true, false, Option, none, some, List, [], ◌∷◌,
  ◌++◌, append_assoc, append-nil, arith, length, get_or, All, Bytes, IsByte,
}
use switchbot_keypad_bridge.AesCtr.Cipher.{Xcrypt, IsStream}
use switchbot_keypad_bridge.KeypadPairer.JobStatus.{
  KeypadPairer, set_step, set_failed, on_notify, deliver,
}
use switchbot_keypad_bridge.KeypadPairer.Job.{
  Reply, Run, pure, show, hang_up, ensure, next_reply, write_value, frame_for, send_encrypted,
  send_command, write,
}
use switchbot_keypad_bridge.KeypadPairer.Triple.{After, Triple}
use switchbot_keypad_bridge.KeypadPairer.Plan.{
  PlanItem, required, optional, accepted, Reads, Delivered-append, Sent, StoppedAt, nothing, got,
  lost,
}

-- The session's key and IV; a notification changes neither, once an IV is latched.
pub record SameSession (p q : KeypadPairer) : Type 0 where
  pub key : q.key ≡ p.key
  pub key_id : q.key_id ≡ p.key_id
  pub iv : q.iv ≡ p.iv
  pub latched : q.iv_received ≡ true

on_notify-SameSession :
    {p q : KeypadPairer} (notice : Bytes) → SameSession p q → SameSession p (on_notify notice q)
unfolding on_notify
on_notify-SameSession notice h = ground arith

pub deliver-SameSession :
    {p : KeypadPairer} (ns : List Bytes) {q : KeypadPairer}
    → SameSession p q
    → SameSession p (deliver ns q)
unfolding deliver
deliver-SameSession [] h = h
deliver-SameSession (n ∷ ns) {q} h =
    deliver-SameSession ns {q = on_notify n q} (on_notify-SameSession n h)

module _ (xcrypt : Xcrypt Bytes) (stream : IsStream xcrypt) (start_run : Run)
    (iv_length : length start_run.pairer.iv ≡ 16) (plan : List PlanItem) where
  -- What is left of the plan when the run is at `s`.
  pub record Midway (left : List PlanItem) (s : Run) : Type 0 where
    pub sent_so_far : List PlanItem
    pub split : plan ≡ sent_so_far ++ left
    pub sent : Sent xcrypt start_run.pairer sent_so_far start_run s
    pub same : SameSession start_run.pairer s.pairer

  abbrev pub Stopped : Run → Type 0
  Stopped s = StoppedAt xcrypt start_run.pairer plan start_run s

  abbrev pub Going : {A : Type 0} → List PlanItem → A → Run → Type 0
  Going left _ s = Midway left s

  abbrev pub Tried : PlanItem → List PlanItem → Bool → Run → Type 0
  Tried c left true s = Midway left s
  Tried c left false s = Midway (c ∷ left) s

  module _ (left : List PlanItem) where
    pub show-Rule : (n : ℕ) → Triple (Midway left) (show n) (Going left) Stopped
    unfolding show set_step
    show-Rule n = record {
      at = λ s h. record {
        sent_so_far = h.sent_so_far;
        split = h.split;
        sent = record { frames = h.sent.frames; log = h.sent.log; delivered = h.sent.delivered };
        same = record {
          key = h.same.key;
          key_id = h.same.key_id;
          iv = h.same.iv;
          latched = h.same.latched;
        };
      };
    }

    pub ensure-Rule :
        (ok : Bool) (pt msg : Bytes)
        → Triple (Tried (required pt msg) left ok) (ensure ok msg) (Going left) Stopped
    unfolding hang_up set_failed
    ensure-Rule true pt msg = record { at = λ s h. h }
    ensure-Rule false pt msg = record {
      at = λ s h. record {
        before = h.sent_so_far;
        item = required pt msg;
        after = left;
        where_in_plan = h.split;
        sent = record { frames = h.sent.frames; log = h.sent.log; delivered = h.sent.delivered };
        error = refl;
        ended = refl;
      };
    }

    -- An optional command counts as done also when it is lost.
    pub tolerate-Rule :
        (ok : Bool) (pt : Bytes)
        → Triple (Tried (optional pt) left ok) (pure tt) (Going left) Stopped
    tolerate-Rule true pt = record { at = λ s h. h }
    tolerate-Rule false pt = record {
      at = λ s h. record {
        sent_so_far = h.sent_so_far ++ optional pt ∷ [];
        split = h.split ∙ sym (append_assoc h.sent_so_far (optional pt ∷ []) left);
        sent = record {
          frames = h.sent.frames ++ [];
          log = λ later. rw append-nil (h.sent.log later);
          delivered = Delivered-append xcrypt _ h.sent.delivered (lost refl nothing);
        };
        same = h.same;
      };
    }

    module _ (c : PlanItem) (bytes : All IsByte c.bytes) where
      read_back :
          (s : Run) (ct : Bytes)
          → Midway (c ∷ left) s
          → xcrypt s.pairer.key s.pairer.iv c.bytes ≡ some ct
          → Reads xcrypt start_run.pairer (frame_for s.pairer ct) c.bytes
      read_back s ct h e = record {
        header =
            ap₂ (λ k iv. 0x57 ∷ k ∷ get_or iv 0 0 ∷ get_or iv 1 0 ∷ []) h.same.key_id h.same.iv;
        body =
            subst (λ k. xcrypt k start_run.pairer.iv ct ≡ some c.bytes) h.same.key
              (subst (λ iv. xcrypt s.pairer.key iv ct ≡ some c.bytes) h.same.iv
                (stream s.pairer.key s.pairer.iv c.bytes ct (ap length h.same.iv ∙ iv_length) bytes
                  e).1);
      }

      written-Rule :
          (s : Run) (ct : Bytes) (ack : Bool) (ns : List Bytes) (air : List Reply)
          → Midway (c ∷ left) s
          → xcrypt s.pairer.key s.pairer.iv c.bytes ≡ some ct
          → Tried c left ack (record s {
            pairer = deliver ns s.pairer;
            air = air;
            acts = write (frame_for s.pairer ct) ack ∷ s.acts;
          })
      written-Rule s ct true ns air h e = record {
        sent_so_far = h.sent_so_far ++ c ∷ [];
        split = h.split ∙ sym (append_assoc h.sent_so_far (c ∷ []) left);
        sent = record {
          frames = h.sent.frames ++ frame_for s.pairer ct ∷ [];
          log = λ later.
              h.sent.log (frame_for s.pairer ct ∷ later)
              ∙ ap (accepted start_run.acts)
                  (sym (append_assoc h.sent.frames (frame_for s.pairer ct ∷ []) later));
          delivered = Delivered-append xcrypt _ h.sent.delivered (got (read_back s ct h e) nothing);
        };
        same = deliver-SameSession ns h.same;
      }
      written-Rule s ct false ns air h e = record {
        sent_so_far = h.sent_so_far;
        split = h.split;
        sent = record { frames = h.sent.frames; log = h.sent.log; delivered = h.sent.delivered };
        same = deliver-SameSession ns h.same;
      }

      encrypted-Rule :
          (o : Option Bytes) (s : Run)
          → Midway (c ∷ left) s
          → xcrypt s.pairer.key s.pairer.iv c.bytes ≡ o
          → After (Tried c left) Stopped (send_encrypted o s)
      unfolding write_value
      encrypted-Rule none s h e = h
      encrypted-Rule (some ct) s h e =
          let (r, rest) = next_reply s.air in written-Rule s ct r.written r.notices rest h e

      pub send_command-Rule :
          Triple (Midway (c ∷ left)) (send_command xcrypt c.bytes) (Tried c left) Stopped
      unfolding send_command
      send_command-Rule = record { at = λ s h. encrypted-Rule _ s h refl }
