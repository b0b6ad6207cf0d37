-- ===== src/KeypadPairer/Tests.antt =====
-- Tests of components/switchbot_keypad_bridge/keypad_pairer.cpp.
use switchbot_keypad_bridge.Common.{
  unsigned_text, ℕ, ◌≡◌, refl, ◌≢◌, ◌↔◌, ◌⊎◌, true, false, none, some, [], if◌then◌else◌, is_nil,
}
use switchbot_keypad_bridge.KeypadPairer.Dialect.{preset_for, step_count}
use switchbot_keypad_bridge.KeypadPairer.JobStatus.{
  set_running, set_step, set_success, job_id_at, start, take_read_result, on_notify, deliver,
  running, success, failed,
}
use switchbot_keypad_bridge.KeypadPairer.Job.{Run, show, next_reply, write_value, send_command}
use switchbot_keypad_bridge.KeypadPairer.Session.{
  discover_target, try_connect, open_link, find_service, await_iv, request_iv,
}
use switchbot_keypad_bridge.KeypadPairer.Execute.{
  finish, read_settings_job, run_step, send_best_effort, open_slot, write_key, finalize,
  pair_commands, pair_job, with_session, with_radio, with_pause, execute, run_task,
}
use switchbot_keypad_bridge.KeypadPairer.Phases.{phase_of, shown, below, on_advertising}
use switchbot_keypad_bridge.KeypadPairer.Ends.{session_steps}
use switchbot_keypad_bridge.KeypadPairer.Outcome.{
  can_start, start_iff, run_task-ends, run_task-phase, run_task-steps,
}
use switchbot_keypad_bridge.KeypadPairer.Latch.{
  first_iv, SessionAfter, heard_by, request_iv-SessionAfter,
}
use switchbot_keypad_bridge.KeypadPairer.Reading.{values_of, read_settings_job-values}
use switchbot_keypad_bridge.KeypadPairer.Sample.{
  raw_xcrypt, idle_pairer, vision_request, near_radio, good_air, asking_run, reading_run,
  read_request,
}
use switchbot_keypad_bridge.AesCtr.{aes_ctr_xcrypt_raw_key}
use switchbot_keypad_bridge.MacUtils.{upper_mac}

abbrev vision_job : Run
vision_job =
    run_task raw_xcrypt near_radio vision_request
      (start 5000000 true true vision_request idle_pairer).1 good_air

paired : vision_job.pairer.status.state ≡ success
unfolding start set_running job_id_at unsigned_text execute discover_target upper_mac show set_step
    with_pause with_radio open_link try_connect find_service request_iv write_value deliver
    on_notify await_iv with_session pair_job pair_commands open_slot write_key finalize run_step
    send_best_effort send_command preset_for step_count finish set_success aes_ctr_xcrypt_raw_key
paired = refl

start_iff_example :
    ((is_nil (start 5000000 true true vision_request idle_pairer).0 ≡ false)
      ↔ (can_start 5000000 true true vision_request idle_pairer ≡ true))
    × (idle_pairer.status.state ≡ running
        → start 5000000 true true vision_request idle_pairer ≡ ([], idle_pairer))
    × (idle_pairer.status.state ≢ running
        → is_nil (start 5000000 true true vision_request idle_pairer).0 ≡ true
        → ((start 5000000 true true vision_request idle_pairer).1.status.state ≡ failed)
          × (is_nil (start 5000000 true true vision_request idle_pairer).1.status.error ≡ false))
start_iff_example = start_iff 5000000 true true vision_request idle_pairer

started : is_nil (start 5000000 true true vision_request idle_pairer).0 ≡ false
started = (start_iff 5000000 true true vision_request idle_pairer).0.1 refl

run_task-ends_example :
    ((vision_job.pairer.status.state ≡ success)
        × (vision_job.pairer.status.step ≡ step_count vision_request.family)
        × (vision_job.pairer.status.keypad_mac ≡ vision_request.keypad_mac)
        × (vision_job.pairer.status.family ≡ vision_request.family)
      ⊎ (vision_job.pairer.status.state ≡ failed)
        × (vision_job.pairer.status.message ≡ vision_job.pairer.status.error))
    × (vision_job.pairer.status.job_id ≡ (start 5000000 true true vision_request idle_pairer).0)
    × (vision_job.pairer.status.total ≡ step_count vision_request.family)
run_task-ends_example =
    run_task-ends raw_xcrypt near_radio vision_request idle_pairer 5000000 true true good_air
      started

run_task-phase_example : phase_of vision_job.acts ≡ some on_advertising
run_task-phase_example =
    run_task-phase raw_xcrypt near_radio vision_request idle_pairer 5000000 true true good_air
      started

run_task-steps_example :
    (n : ℕ) × (shown vision_job.acts ≡ below n)
    × (vision_job.pairer.status.state ≡ success → n ≡ session_steps vision_request)
run_task-steps_example =
    run_task-steps raw_xcrypt near_radio vision_request idle_pairer 5000000 true true good_air
      started

request_iv-SessionAfter_example :
    SessionAfter
      (if (next_reply asking_run.air).0.written
        then first_iv (heard_by near_radio asking_run)
        else none)
      (request_iv near_radio asking_run)
request_iv-SessionAfter_example = request_iv-SessionAfter near_radio asking_run refl

read_settings_job-values_example :
    let (values, q) =
      take_read_result (read_settings_job raw_xcrypt read_request reading_run).1.pairer in
    (values
      ≡ some (values_of raw_xcrypt reading_run.pairer read_request.read_params reading_run.air))
    × ((take_read_result q).0 ≡ none)
read_settings_job-values_example = read_settings_job-values raw_xcrypt read_request reading_run refl
