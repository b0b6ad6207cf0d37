-- ===== src/KeypadPairer/Execute.antt =====
-- components/switchbot_keypad_bridge/keypad_pairer.cpp: `execute_`, with its three kinds of job.
use switchbot_keypad_bridge.Common.{
  hex_text, ℕ, Bool, true, false, not, Option, none, some, List, [], ◌∷◌, ltb, if◌then◌else◌,
  length, take, drop, is_nil, ℤ, pos, negsuc, Bytes, text,
}
use switchbot_keypad_bridge.AesCtr.Cipher.{Xcrypt}
use switchbot_keypad_bridge.KeypadPairer.Dialect.{FamilyPreset, preset_for, doorbell_step}
use switchbot_keypad_bridge.KeypadPairer.JobStatus.{Request, KeypadPairer, set_success}
use switchbot_keypad_bridge.KeypadPairer.Job.{
  Reply, Run, Job, pure, ◌>>=◌, ◌>>◌, act, update, gets, show, hang_up, ensure, send_command,
  stop_advertising, start_advertising, delete_client, disconnect, log_response,
}
use switchbot_keypad_bridge.KeypadPairer.Session.{
  Radio, discover_target, on_air, open_link, find_service, request_iv,
}

-- The errors that the page shows.
abbrev pub raw_failed : Bytes
raw_failed = text "send_command write failed"

abbrev pub not_entered : Bytes
not_entered = text "enter_pairing rejected."

abbrev pub slot_not_opened : Bytes
slot_not_opened = text "Could not open the keypad's key slot."

abbrev pub chunk_1_failed : Bytes
chunk_1_failed = text "Could not write shared_key (1/2)."

abbrev pub chunk_2_failed : Bytes
chunk_2_failed = text "Could not write shared_key (2/2)."

abbrev pub target_failed : Bytes
target_failed = text "Could not update target lock MAC."

abbrev pub clear_notify : KeypadPairer → KeypadPairer
clear_notify p = record p { last_notify = [] }

-- The link is closed, and the job has succeeded.
unfoldable pub finish : Request → Job (Unit {0})
finish req = do act disconnect; act delete_client; update (set_success req.keypad_mac req.family)

-- The first decrypted byte of a reply to a GET.
abbrev pub first_byte : Option Bytes → ℤ
first_byte none = negsuc 0
first_byte (some []) = negsuc 0
first_byte (some (b ∷ bs)) = pos b

abbrev pub keep_values : List ℤ → KeypadPairer → KeypadPairer
keep_values values p = record p { read_values = values; read_ready = true }

abbrev pub plain_of : Option Bytes → Bytes
plain_of none = []
plain_of (some pt) = pt

abbrev pub end_raw : Bool → Request → Job (Unit {0})
end_raw true req = finish req
end_raw false req = hang_up raw_failed

abbrev pub slot_init : FamilyPreset → Bytes
slot_init preset = 0x0F ∷ 0x20 ∷ 0x03 ∷ preset.shared_slot ∷ preset.slot_init_nonce ∷ []

-- Half of the shared token.
abbrev pub token_chunk : FamilyPreset → ℕ → Bytes → Bytes
token_chunk preset n half = 0x0F ∷ 0x20 ∷ 0x04 ∷ preset.shared_slot ∷ n ∷ half

abbrev pub chunk_1 : FamilyPreset → Request → Bytes
chunk_1 preset req = token_chunk preset 0x00 (take 8 req.shared_token)

abbrev pub chunk_2 : FamilyPreset → Request → Bytes
chunk_2 preset req = token_chunk preset 0x01 (take 8 (drop 8 req.shared_token))

abbrev pub new_target : FamilyPreset → Request → Bytes
new_target preset req = 0x06 ∷ 0x01 ∷ preset.shared_slot ∷ take 6 req.esp_mac

abbrev pub finalize_1 : FamilyPreset → Bytes
finalize_1 preset = 0x0F ∷ 0x52 ∷ 0x02 ∷ 0x02 ∷ 0x10 ∷ 0xFF ∷ 0x05 ∷ 0x06 ∷ preset.finalize_tail

module _ (xcrypt : Xcrypt Bytes) where
  -- What stands behind the 4-byte header of the last notification.
  unfoldable pub decrypt_notify : KeypadPairer → Option Bytes
  decrypt_notify p =
      if ltb 4 (length p.last_notify) then xcrypt p.key p.iv (drop 4 p.last_notify) else none

  abbrev pub value_read : Bool → KeypadPairer → ℤ
  value_read sent p = if sent then first_byte (decrypt_notify p) else negsuc 0

  unfoldable pub read_param : ℕ → Job ℤ
  read_param param = do
    update clear_notify
    sent ← send_command xcrypt (0x0F ∷ 0x53 ∷ 0x01 ∷ param ∷ [])
    gets (value_read sent)

  unfoldable pub read_each : Bytes → Job (List ℤ)
  read_each [] = pure []
  read_each (param ∷ params) = do
    value ← read_param param
    values ← read_each params
    pure (value ∷ values)

  unfoldable pub read_settings_job : Request → Job (Unit {0})
  read_settings_job req = do
    values ← read_each req.read_params
    update (keep_values values)
    finish req

  abbrev pub plain_answer : KeypadPairer → Bytes
  plain_answer p = plain_of (decrypt_notify p)

  unfoldable pub raw_command_job : Request → Job (Unit {0})
  raw_command_job req = do
    update clear_notify
    sent ← send_command xcrypt req.raw_command
    answer ← gets (λ p. p.last_notify)
    plain ← gets plain_answer
    act (log_response sent (hex_text answer) (hex_text plain))
    end_raw sent req

  -- `run_step`
  unfoldable pub run_step : ℕ → Bytes → Bytes → Job (Unit {0})
  run_step step pt err_msg = do show step; sent ← send_command xcrypt pt; ensure sent err_msg

  -- A frame whose loss is tolerated.
  unfoldable pub send_best_effort : Bytes → Job (Unit {0})
  send_best_effort pt = do sent ← send_command xcrypt pt; pure tt

  abbrev pub probe_capabilities : Option Bytes → Job (Unit {0})
  probe_capabilities none = pure tt
  probe_capabilities (some probe) = send_best_effort probe

  unfoldable pub open_slot : FamilyPreset → Job (Unit {0})
  open_slot preset = do
    show 3
    entered ← send_command xcrypt preset.enter_pairing
    ensure entered not_entered
    probe_capabilities preset.capabilities_probe
    send_best_effort (0x06 ∷ 0x03 ∷ [])
    opened ← send_command xcrypt (slot_init preset)
    ensure opened slot_not_opened

  unfoldable pub write_key : FamilyPreset → Request → Job (Unit {0})
  write_key preset req = do
    run_step 4 (chunk_1 preset req) chunk_1_failed
    run_step 5 (chunk_2 preset req) chunk_2_failed
    run_step 6 (new_target preset req) target_failed

  abbrev pub enable_doorbell_step : Option Bytes → Job (Unit {0})
  enable_doorbell_step none = pure tt
  enable_doorbell_step (some cmd) = show doorbell_step >> send_best_effort cmd

  unfoldable pub finalize : FamilyPreset → Job (Unit {0})
  finalize preset = do
    show 7
    send_best_effort (finalize_1 preset)
    send_best_effort (0x0F ∷ 0x53 ∷ 0x01 ∷ 0x06 ∷ [])
    enable_doorbell_step preset.enable_doorbell

  unfoldable pub pair_commands : FamilyPreset → Request → Job (Unit {0})
  pair_commands preset req = do open_slot preset; write_key preset req; finalize preset

  unfoldable pub pair_job : Request → Job (Unit {0})
  pair_job req = do pair_commands (preset_for req.family) req; finish req

  -- A read goes before a command, a command before a pairing.
  unfoldable pub with_session : Request → Job (Unit {0})
  with_session req =
      if not (is_nil req.read_params)
      then read_settings_job req
      else if not (is_nil req.raw_command)
      then raw_command_job req
      else pair_job req

  unfoldable pub with_radio : Radio → Request → Job (Unit {0})
  with_radio radio req = do open_link radio; find_service radio; request_iv radio; with_session req

  -- `AdvPause`: the destructor runs on every way out.
  unfoldable pub with_pause : Job (Unit {0}) → Run → Run
  with_pause body s = (act start_advertising (body (act stop_advertising s).1).1).1

  abbrev pub if_found : Radio → Request → Option (Unit {0}) × Run → Run
  if_found radio req (none, s) = s
  if_found radio req (some u, s) = with_pause (with_radio radio req) s

  unfoldable pub execute : Radio → Request → Run → Run
  execute radio req s =
      if_found radio req ((show 0 >> on_air (discover_target req.keypad_mac radio.seen)) s)

  -- The task that `start` creates. It begins with no call made.
  abbrev pub run_task : Radio → Request → KeypadPairer → List Reply → Run
  run_task radio req p air = execute radio req (record { pairer = p; air = air; acts = [] })
