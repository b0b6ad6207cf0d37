-- ===== src/KeypadPairer/Followed.antt =====
-- components/switchbot_keypad_bridge/keypad_pairer.cpp: `execute_` follows the plan of a pairing.
use switchbot_keypad_bridge.Common.{
  ℕ, ◌≡◌, Option, none, some, List, [], ◌∷◌, ◌++◌, arith, length, take, drop, All, drop-All,
  take-All, Bytes, IsByte,
}
use switchbot_keypad_bridge.AesCtr.Cipher.{Xcrypt, IsStream}
use switchbot_keypad_bridge.KeypadPairer.Job.{Run, Job, ◌>>=◌, show, ensure, send_command}
use switchbot_keypad_bridge.KeypadPairer.Execute.{
  not_entered, slot_not_opened, chunk_1_failed, chunk_2_failed, target_failed, slot_init, chunk_1,
  chunk_2, new_target, finalize_1, run_step, send_best_effort, probe_capabilities, open_slot,
  write_key, enable_doorbell_step, finalize, pair_commands,
}
use switchbot_keypad_bridge.KeypadPairer.Triple.{Triple, Triple-bind}
use switchbot_keypad_bridge.KeypadPairer.Plan.{
  PlanItem, required, optional, if_any, pairing_plan, IsOfBytes,
}
use switchbot_keypad_bridge.KeypadPairer.Delivery.{
  Midway, Stopped, Going, show-Rule, ensure-Rule, tolerate-Rule, send_command-Rule,
}
use switchbot_keypad_bridge.KeypadPairer.Dialect.{FamilyPreset, doorbell_step}
use switchbot_keypad_bridge.KeypadPairer.JobStatus.{Request}

module _ (xcrypt : Xcrypt Bytes) (stream : IsStream xcrypt) (start_run : Run)
    (iv_length : length start_run.pairer.iv ≡ 16) (plan : List PlanItem) where
  -- A part of the job brings the plan from one rest to another.
  abbrev Brings : List PlanItem → Job (Unit {0}) → List PlanItem → Type 0
  Brings left m left' =
      Triple (Midway xcrypt stream start_run iv_length plan left) m
        (Going xcrypt stream start_run iv_length plan left')
        (Stopped xcrypt stream start_run iv_length plan)

  module _ (left : List PlanItem) where
    show-Brings : (n : ℕ) → Brings left (show n) left
    show-Brings n = show-Rule xcrypt stream start_run iv_length plan left n

    send_required :
        (pt msg : Bytes)
        → All IsByte pt
        → Brings (required pt msg ∷ left) (send_command xcrypt pt >>= λ sent. ensure sent msg) left
    send_required pt msg bytes =
        Triple-bind _ _
          (send_command-Rule xcrypt stream start_run iv_length plan left (required pt msg) bytes)
          (λ sent. ensure-Rule xcrypt stream start_run iv_length plan left sent pt msg)

    send_optional :
        (pt : Bytes) → All IsByte pt → Brings (optional pt ∷ left) (send_best_effort xcrypt pt) left
    unfolding send_best_effort
    send_optional pt bytes =
        Triple-bind _ _
          (send_command-Rule xcrypt stream start_run iv_length plan left (optional pt) bytes)
          (λ sent. tolerate-Rule xcrypt stream start_run iv_length plan left sent pt)

    run_step-Brings :
        (n : ℕ) (pt msg : Bytes)
        → All IsByte pt
        → Brings (required pt msg ∷ left) (run_step xcrypt n pt msg) left
    unfolding run_step
    run_step-Brings n pt msg bytes =
        Triple-bind _ _
          (show-Rule xcrypt stream start_run iv_length plan (required pt msg ∷ left) n)
          (λ _. send_required pt msg bytes)

    probe-Brings :
        (probe : Option Bytes)
        → All (λ c. All IsByte c.bytes) (if_any probe)
        → Brings (if_any probe ++ left) (probe_capabilities xcrypt probe) left
    probe-Brings none bytes = record { at = λ s h. h }
    probe-Brings (some pt) bytes = send_optional pt bytes.0

  module _ (preset : FamilyPreset) (preset_bytes : IsOfBytes preset) (left : List PlanItem) where
    open_slot-Brings :
        Brings
          (required preset.enter_pairing not_entered
            ∷ (if_any preset.capabilities_probe
                ++ (optional (0x06 ∷ 0x03 ∷ [])
                    ∷ required (slot_init preset) slot_not_opened
                    ∷ left)))
          (open_slot xcrypt preset)
          left
    unfolding open_slot
    open_slot-Brings =
        let ready = required (slot_init preset) slot_not_opened ∷ left in
        let prepared = optional (0x06 ∷ 0x03 ∷ []) ∷ ready in
        let probed = if_any preset.capabilities_probe ++ prepared in
        Triple-bind (show 3) _ (show-Brings (required preset.enter_pairing not_entered ∷ probed) 3)
          (λ _.
            Triple-bind (send_command xcrypt preset.enter_pairing) _
              (send_command-Rule xcrypt stream start_run iv_length plan probed
                (required preset.enter_pairing not_entered) preset_bytes.enter)
              (λ entered.
                Triple-bind (ensure entered not_entered) _
                  (ensure-Rule xcrypt stream start_run iv_length plan probed entered
                    preset.enter_pairing not_entered)
                  (λ _.
                    Triple-bind (probe_capabilities xcrypt preset.capabilities_probe) _
                      (probe-Brings prepared preset.capabilities_probe preset_bytes.probe)
                      (λ _.
                        Triple-bind (send_best_effort xcrypt (0x06 ∷ 0x03 ∷ [])) _
                          (send_optional ready (0x06 ∷ 0x03 ∷ []) (omega arith))
                          (λ _.
                            send_required left (slot_init preset) slot_not_opened
                              (omega (arith, preset_bytes.slot, preset_bytes.nonce)))))))

    write_key-Brings :
        (req : Request)
        → All IsByte req.shared_token
        → All IsByte req.esp_mac
        → Brings
            (required (chunk_1 preset req) chunk_1_failed
              ∷ required (chunk_2 preset req) chunk_2_failed
              ∷ required (new_target preset req) target_failed
              ∷ left)
            (write_key xcrypt preset req)
            left
    unfolding write_key
    write_key-Brings req token mac =
        let moved = required (new_target preset req) target_failed ∷ left in
        let half = required (chunk_2 preset req) chunk_2_failed ∷ moved in
        Triple-bind (run_step xcrypt 4 (chunk_1 preset req) chunk_1_failed) _
          (run_step-Brings half 4 (chunk_1 preset req) chunk_1_failed (
            omega arith,
            (
              omega arith,
              (
                omega arith,
                (preset_bytes.slot, (omega arith, take-All IsByte 8 req.shared_token token)),
              ),
            ),
          ))
          (λ _.
            Triple-bind (run_step xcrypt 5 (chunk_2 preset req) chunk_2_failed) _
              (run_step-Brings moved 5 (chunk_2 preset req) chunk_2_failed (
                omega arith,
                (
                  omega arith,
                  (
                    omega arith,
                    (
                      preset_bytes.slot,
                      (
                        omega arith,
                        take-All IsByte 8 (drop 8 req.shared_token)
                            (drop-All IsByte 8 req.shared_token token),
                      ),
                    ),
                  ),
                ),
              ))
              (λ _. run_step-Brings left 6 (new_target preset req) target_failed (
                omega arith,
                (omega arith, (preset_bytes.slot, take-All IsByte 6 req.esp_mac mac)),
              )))

  doorbell-Brings :
      (cmd : Option Bytes)
      → All (λ c. All IsByte c.bytes) (if_any cmd)
      → Brings (if_any cmd) (enable_doorbell_step xcrypt cmd) []
  doorbell-Brings none bytes = record { at = λ s h. h }
  doorbell-Brings (some pt) bytes =
      Triple-bind (show doorbell_step) _ (show-Brings (optional pt ∷ []) doorbell_step)
        (λ _. send_optional [] pt bytes.0)

  finalize-Brings :
      (preset : FamilyPreset)
      → IsOfBytes preset
      → Brings
          (optional (finalize_1 preset)
            ∷ optional (0x0F ∷ 0x53 ∷ 0x01 ∷ 0x06 ∷ [])
            ∷ if_any preset.enable_doorbell)
          (finalize xcrypt preset)
          []
  unfolding finalize
  finalize-Brings preset preset_bytes =
      let rest = if_any preset.enable_doorbell in
      let closed = optional (0x0F ∷ 0x53 ∷ 0x01 ∷ 0x06 ∷ []) ∷ rest in
      Triple-bind (show 7) _ (show-Brings (optional (finalize_1 preset) ∷ closed) 7) (λ _.
        Triple-bind (send_best_effort xcrypt (finalize_1 preset)) _
          (send_optional closed (finalize_1 preset) preset_bytes.tail)
          (λ _.
            Triple-bind (send_best_effort xcrypt (0x0F ∷ 0x53 ∷ 0x01 ∷ 0x06 ∷ [])) _
              (send_optional rest (0x0F ∷ 0x53 ∷ 0x01 ∷ 0x06 ∷ []) (omega arith))
              (λ _. doorbell-Brings preset.enable_doorbell preset_bytes.doorbell)))

  pub pair_commands-Brings :
      (preset : FamilyPreset) (req : Request)
      → IsOfBytes preset
      → All IsByte req.shared_token
      → All IsByte req.esp_mac
      → Brings
          (pairing_plan preset
            (take 8 req.shared_token)
            (take 8 (drop 8 req.shared_token))
            (take 6 req.esp_mac))
          (pair_commands xcrypt preset req)
          []
  unfolding pair_commands
  pair_commands-Brings preset req preset_bytes token mac =
      let tail =
        optional (finalize_1 preset)
        ∷ optional (0x0F ∷ 0x53 ∷ 0x01 ∷ 0x06 ∷ [])
        ∷ if_any preset.enable_doorbell in
      let keyed =
        required (chunk_1 preset req) chunk_1_failed
        ∷ required (chunk_2 preset req) chunk_2_failed
        ∷ required (new_target preset req) target_failed
        ∷ tail in
      Triple-bind (open_slot xcrypt preset) _ (open_slot-Brings preset preset_bytes keyed) (λ _.
        Triple-bind (write_key xcrypt preset req) _
          (write_key-Brings preset preset_bytes tail req token mac)
          (λ _. finalize-Brings preset preset_bytes))
