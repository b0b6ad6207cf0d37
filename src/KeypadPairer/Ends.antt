-- ===== src/KeypadPairer/Ends.antt =====
-- components/switchbot_keypad_bridge/keypad_pairer.cpp: every job ends, and keeps to the rules of the radio.
use switchbot_keypad_bridge.Common.{
  hex_text, ℕ, suc, ◌≡◌, refl, subst, inl, inr, Bool, true, false, not, Option, none, some, [], ◌∷◌,
  if◌then◌else◌, Bool-cases, is_nil, Bytes,
}
use switchbot_keypad_bridge.AesCtr.Cipher.{Xcrypt}
use switchbot_keypad_bridge.KeypadAdvert.{KeypadFamily, original, vision}
use switchbot_keypad_bridge.KeypadPairer.Dialect.{
  FamilyPreset, preset_for, doorbell_step, step_count,
}
use switchbot_keypad_bridge.KeypadPairer.JobStatus.{JobStatus, Request}
use switchbot_keypad_bridge.KeypadPairer.Job.{
  Job, act, update, gets, show, ensure, send_command, log_response,
}
use switchbot_keypad_bridge.KeypadPairer.Execute.{
  raw_failed, not_entered, slot_not_opened, chunk_1_failed, chunk_2_failed, target_failed,
  clear_notify, finish, keep_values, end_raw, slot_init, chunk_1, chunk_2, new_target, finalize_1,
  value_read, read_param, read_each, read_settings_job, plain_answer, raw_command_job, run_step,
  send_best_effort, probe_capabilities, open_slot, write_key, enable_doorbell_step, finalize,
  pair_commands, pair_job, with_session,
}
use switchbot_keypad_bridge.KeypadPairer.Triple.{Triple, Triple-bind}
use switchbot_keypad_bridge.KeypadPairer.Phases.{UnderWay, GaveUp, Finished, silent, linked}
use switchbot_keypad_bridge.KeypadPairer.Rules.{
  Rule, act-Rule, update-Rule, gets-Rule, pure-Rule, show-Rule, hang_up-Rule, ensure-Rule,
  send_command-Rule, finish-Rule,
}

-- How many steps a job of a request shows when it succeeds.
pub session_steps : Request → ℕ
session_steps req =
    if not (is_nil req.read_params)
    then 3
    else if not (is_nil req.raw_command)
    then 3
    else step_count req.family

module _ (b : JobStatus) (xcrypt : Xcrypt Bytes) where
  send-Rule : (pt : Bytes) (n : ℕ) → Rule b linked n (send_command xcrypt pt) linked n
  send-Rule pt n = send_command-Rule b xcrypt pt n

  best_effort-Rule : (pt : Bytes) (n : ℕ) → Rule b linked n (send_best_effort xcrypt pt) linked n
  unfolding send_best_effort
  best_effort-Rule pt n =
      Triple-bind (send_command xcrypt pt) _ (send-Rule pt n) (λ _. pure-Rule b tt linked n)

  read_param-Rule : (param n : ℕ) → Rule b linked n (read_param xcrypt param) linked n
  unfolding read_param
  read_param-Rule param n =
      Triple-bind (update clear_notify) _ (update-Rule b clear_notify linked n (λ _. refl)) (λ _.
        Triple-bind (send_command xcrypt (0x0F ∷ 0x53 ∷ 0x01 ∷ param ∷ [])) _ (send-Rule _ n)
          (λ sent. gets-Rule b (value_read xcrypt sent) linked n))

  read_each-Rule : (params : Bytes) (n : ℕ) → Rule b linked n (read_each xcrypt params) linked n
  unfolding read_each
  read_each-Rule [] n = pure-Rule b [] linked n
  read_each-Rule (param ∷ params) n =
      Triple-bind (read_param xcrypt param) _ (read_param-Rule param n) (λ value.
        Triple-bind (read_each xcrypt params) _ (read_each-Rule params n)
          (λ values. pure-Rule b (value ∷ values) linked n))

  -- A job that ends well after `n` steps.
  abbrev Ends : ℕ → Job (Unit {0}) → Request → ℕ → Type 0
  Ends n m req k = Triple (UnderWay b linked n) m (λ _. Finished b req silent k) (GaveUp b silent)

  read_settings_job-Rule : (req : Request) (n : ℕ) → Ends n (read_settings_job xcrypt req) req n
  unfolding read_settings_job
  read_settings_job-Rule req n =
      Triple-bind (read_each xcrypt req.read_params) _ (read_each-Rule req.read_params n) (λ values.
        Triple-bind (update (keep_values values)) _
          (update-Rule b (keep_values values) linked n (λ _. refl)) (λ _. finish-Rule b req n))

  end_raw-Rule : (sent : Bool) (req : Request) (n : ℕ) → Ends n (end_raw sent req) req n
  end_raw-Rule true req n = finish-Rule b req n
  end_raw-Rule false req n = hang_up-Rule b raw_failed n

  raw_command_job-Rule : (req : Request) (n : ℕ) → Ends n (raw_command_job xcrypt req) req n
  unfolding raw_command_job
  raw_command_job-Rule req n =
      Triple-bind (update clear_notify) _ (update-Rule b clear_notify linked n (λ _. refl)) (λ _.
        Triple-bind (send_command xcrypt req.raw_command) _ (send-Rule req.raw_command n) (λ sent.
          Triple-bind (gets (λ p. p.last_notify)) _ (gets-Rule b (λ p. p.last_notify) linked n)
            (λ answer.
              Triple-bind (gets (plain_answer xcrypt)) _
                (gets-Rule b (plain_answer xcrypt) linked n)
                (λ plain.
                  Triple-bind (act (log_response sent (hex_text answer) (hex_text plain))) _
                    (act-Rule b _ linked linked n refl (λ _. refl))
                    (λ _. end_raw-Rule sent req n)))))

  run_step-Rule :
      (n : ℕ) (pt msg : Bytes) → Rule b linked n (run_step xcrypt n pt msg) linked (suc n)
  unfolding run_step
  run_step-Rule n pt msg = Triple-bind (show n) _ (show-Rule b linked n) (λ _.
      Triple-bind (send_command xcrypt pt) _ (send-Rule pt (suc n))
        (λ sent. ensure-Rule b sent msg (suc n)))

  probe-Rule :
      (probe : Option Bytes) (n : ℕ) → Rule b linked n (probe_capabilities xcrypt probe) linked n
  probe-Rule none n = pure-Rule b tt linked n
  probe-Rule (some probe) n = best_effort-Rule probe n

  open_slot-Rule : (preset : FamilyPreset) → Rule b linked 3 (open_slot xcrypt preset) linked 4
  unfolding open_slot
  open_slot-Rule preset = Triple-bind (show 3) _ (show-Rule b linked 3) (λ _.
      Triple-bind (send_command xcrypt preset.enter_pairing) _ (send-Rule _ 4) (λ entered.
        Triple-bind (ensure entered not_entered) _ (ensure-Rule b entered not_entered 4) (λ _.
          Triple-bind (probe_capabilities xcrypt preset.capabilities_probe) _
            (probe-Rule preset.capabilities_probe 4)
            (λ _.
              Triple-bind (send_best_effort xcrypt (0x06 ∷ 0x03 ∷ [])) _ (best_effort-Rule _ 4)
                (λ _.
                  Triple-bind (send_command xcrypt (slot_init preset)) _ (send-Rule _ 4)
                    (λ opened. ensure-Rule b opened slot_not_opened 4))))))

  write_key-Rule :
      (preset : FamilyPreset) (req : Request)
      → Rule b linked 4 (write_key xcrypt preset req) linked 7
  unfolding write_key
  write_key-Rule preset req =
      Triple-bind (run_step xcrypt 4 (chunk_1 preset req) chunk_1_failed) _ (run_step-Rule 4 _ _)
        (λ _.
          Triple-bind (run_step xcrypt 5 (chunk_2 preset req) chunk_2_failed) _
            (run_step-Rule 5 _ _) (λ _. run_step-Rule 6 (new_target preset req) target_failed))

  -- The doorbell is the ninth step, if there is one.
  abbrev steps_of : Option Bytes → ℕ
  steps_of none = 8
  steps_of (some cmd) = 9

  doorbell-Rule :
      (cmd : Option Bytes) → Rule b linked 8 (enable_doorbell_step xcrypt cmd) linked (steps_of cmd)
  doorbell-Rule none = pure-Rule b tt linked 8
  doorbell-Rule (some cmd) =
      Triple-bind (show doorbell_step) _ (show-Rule b linked 8) (λ _. best_effort-Rule cmd 9)

  finalize-Rule :
      (preset : FamilyPreset)
      → Rule b linked 7 (finalize xcrypt preset) linked (steps_of preset.enable_doorbell)
  unfolding finalize
  finalize-Rule preset = Triple-bind (show 7) _ (show-Rule b linked 7) (λ _.
      Triple-bind (send_best_effort xcrypt (finalize_1 preset)) _ (best_effort-Rule _ 8) (λ _.
        Triple-bind (send_best_effort xcrypt (0x0F ∷ 0x53 ∷ 0x01 ∷ 0x06 ∷ [])) _
          (best_effort-Rule _ 8) (λ _. doorbell-Rule preset.enable_doorbell)))

  steps_of-step_count :
      (family : KeypadFamily) → steps_of (preset_for family).enable_doorbell ≡ step_count family
  unfolding preset_for step_count
  steps_of-step_count original = refl
  steps_of-step_count vision = refl

  pair_job-Rule : (req : Request) → Ends 3 (pair_job xcrypt req) req (step_count req.family)
  unfolding pair_job pair_commands
  pair_job-Rule req =
      let preset = preset_for req.family in
      let e = steps_of-step_count req.family in
      Triple-bind (pair_commands xcrypt preset req) _
        (Triple-bind (open_slot xcrypt preset) _ (open_slot-Rule preset) (λ _.
          Triple-bind (write_key xcrypt preset req) _ (write_key-Rule preset req)
            (λ _. finalize-Rule preset)))
        (λ _.
          subst (λ n. Ends (steps_of preset.enable_doorbell) (finish req) req n) e
            (finish-Rule b req (steps_of preset.enable_doorbell)))

  pub with_session-Rule : (req : Request) → Ends 3 (with_session xcrypt req) req (session_steps req)
  unfolding with_session session_steps
  with_session-Rule req = elim (Bool-cases (is_nil req.read_params)) [
    | inr e ↦ rw e (read_settings_job-Rule req 3)
    | inl e ↦ rw e (elim (Bool-cases (is_nil req.raw_command)) [
      | inr e' ↦ rw e' (raw_command_job-Rule req 3)
      | inl e' ↦ rw e' (pair_job-Rule req)
    ])
  ]
