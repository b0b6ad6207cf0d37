-- ===== src/KeypadPairer/Rules.antt =====
-- components/switchbot_keypad_bridge/keypad_pairer.cpp: what each action of a job does to its phase, its steps and
-- its status.
use switchbot_keypad_bridge.Common.{
  ℕ, suc, ◌≡◌, refl, ap, ◌∙◌, Bool, true, false, none, some, List, [], ◌∷◌, arith, Bytes,
}
use switchbot_keypad_bridge.AesCtr.Cipher.{Xcrypt}
use switchbot_keypad_bridge.KeypadPairer.JobStatus.{
  JobStatus, Request, KeypadPairer, set_step, set_success, set_failed, on_notify, deliver,
}
use switchbot_keypad_bridge.KeypadPairer.Job.{
  Act, Run, Job, pure, act, update, gets, show, hang_up, ensure, next_reply, write_value,
  send_encrypted, send_command,
}
use switchbot_keypad_bridge.KeypadPairer.Execute.{finish}
use switchbot_keypad_bridge.KeypadPairer.Triple.{After, Triple}
use switchbot_keypad_bridge.KeypadPairer.Phases.{
  Phase, advance, advance_from, shown, UnderWay, GaveUp, Finished, silent, linked,
}

pub on_notify-status : (notice : Bytes) (p : KeypadPairer) → (on_notify notice p).status ≡ p.status
unfolding on_notify
on_notify-status notice p = ground arith

pub deliver-status : (ns : List Bytes) (p : KeypadPairer) → (deliver ns p).status ≡ p.status
unfolding deliver
deliver-status [] p = refl
deliver-status (n ∷ ns) p = deliver-status ns (on_notify n p) ∙ on_notify-status n p

module _ (b : JobStatus) where
  abbrev pub Going : {A : Type 0} → Phase → ℕ → A → Run → Type 0
  Going p n _ s = UnderWay b p n s

  abbrev pub Rule : {A : Type 0} → Phase → ℕ → Job A → Phase → ℕ → Type 0
  Rule p n m q k = Triple (UnderWay b p n) m (Going q k) (GaveUp b silent)

  pub act-Rule :
      (a : Act) (p q : Phase) (n : ℕ)
      → advance a p ≡ some q
      → ((acts : List Act) → shown (a ∷ acts) ≡ shown acts)
      → Rule p n (act a) q n
  act-Rule a p q n legal quiet = record {
    at = λ s h. record {
      phase = ap (advance_from a) h.phase ∙ legal;
      going = h.going;
      same_job = h.same_job;
      same_total = h.same_total;
      steps = quiet s.acts ∙ h.steps;
    };
  }

  pub update-Rule :
      (f : KeypadPairer → KeypadPairer) (p : Phase) (n : ℕ)
      → ((k : KeypadPairer) → (f k).status ≡ k.status)
      → Rule p n (update f) p n
  update-Rule f p n keeps = record {
    at = λ s h. record {
      phase = h.phase;
      going = ap (λ (st : JobStatus). st.state) (keeps s.pairer) ∙ h.going;
      same_job = ap (λ (st : JobStatus). st.job_id) (keeps s.pairer) ∙ h.same_job;
      same_total = ap (λ (st : JobStatus). st.total) (keeps s.pairer) ∙ h.same_total;
      steps = h.steps;
    };
  }

  pub gets-Rule : {A : Type 0} (f : KeypadPairer → A) (p : Phase) (n : ℕ) → Rule p n (gets f) p n
  gets-Rule f p n = record { at = λ s h. h }

  pub pure-Rule :
      {A : Type 0} (a : A) (p : Phase) (n : ℕ) {E : Run → Type 0}
      → Triple (UnderWay b p n) (pure a) (Going p n) E
  pure-Rule a p n = record { at = λ s h. h }

  pub show-Rule :
      (p : Phase) (n : ℕ) {E : Run → Type 0} → Triple (UnderWay b p n) (show n) (Going p (suc n)) E
  unfolding show set_step
  show-Rule p n = record {
    at = λ s h. record {
      phase = ap (advance_from (Act.show_step n)) h.phase;
      going = h.going;
      same_job = h.same_job;
      same_total = h.same_total;
      steps = ap (λ (ns : List ℕ). n ∷ ns) h.steps;
    };
  }

  pub hang_up-Rule :
      {A : Type 0} (msg : Bytes) (n : ℕ) {Q : A → Run → Type 0}
      → Triple (UnderWay b linked n) (hang_up {A = A} msg) Q (GaveUp b silent)
  unfolding hang_up set_failed
  hang_up-Rule msg n = record {
    at = λ s h. record {
      phase = ap (λ o. advance_from Act.delete_client (advance_from Act.disconnect o)) h.phase;
      ended = refl;
      same_job = h.same_job;
      same_total = h.same_total;
      told = refl;
      reached = n;
      steps = h.steps;
    };
  }

  pub ensure-Rule : (ok : Bool) (msg : Bytes) (n : ℕ) → Rule linked n (ensure ok msg) linked n
  ensure-Rule true msg n = pure-Rule tt linked n
  ensure-Rule false msg n = hang_up-Rule msg n

  pub write_value-Rule : (frame : Bytes) (n : ℕ) → Rule linked n (write_value frame) linked n
  unfolding write_value
  write_value-Rule frame n = record {
    at = λ s h.
        let (r, rest) = next_reply s.air in
        let e = deliver-status r.notices s.pairer in
        record {
          phase = ap (advance_from (Act.write frame r.written)) h.phase;
          going = ap (λ (st : JobStatus). st.state) e ∙ h.going;
          same_job = ap (λ (st : JobStatus). st.job_id) e ∙ h.same_job;
          same_total = ap (λ (st : JobStatus). st.total) e ∙ h.same_total;
          steps = h.steps;
        };
  }

  pub send_command-Rule :
      (xcrypt : Xcrypt Bytes) (pt : Bytes) (n : ℕ) → Rule linked n (send_command xcrypt pt) linked n
  unfolding send_command
  send_command-Rule xcrypt pt n = record {
    at = λ s h.
        elim (xcrypt s.pairer.key s.pairer.iv pt)
          as (λ ct. After (Going linked n) (GaveUp b silent) (send_encrypted ct s)) [
            | none ↦ h
            | some ct ↦ (write_value-Rule _ n).at s h
          ];
  }

  pub finish-Rule :
      (req : Request) (n : ℕ)
      → Triple (UnderWay b linked n) (finish req) (λ _. Finished b req silent n) (GaveUp b silent)
  unfolding finish set_success
  finish-Rule req n = record {
    at = λ s h. record {
      phase = ap (λ o. advance_from Act.delete_client (advance_from Act.disconnect o)) h.phase;
      ended = refl;
      same_job = h.same_job;
      all_steps = refl;
      same_total = h.same_total;
      same_mac = refl;
      same_family = refl;
      steps = h.steps;
    };
  }
