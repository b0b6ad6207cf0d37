-- ===== src/PairingUi/Handlers/HandOver.antt =====
-- components/switchbot_keypad_bridge/pairing_ui.cpp: from a request for a pairing over its job to the bridge.
use switchbot_keypad_bridge.Common.{◌≡◌, false, List, All, Bytes}
use switchbot_keypad_bridge.AesCtr.Cipher.{Xcrypt}
use switchbot_keypad_bridge.KeypadAdvert.{KeypadFamily}
use switchbot_keypad_bridge.KeypadPairer.JobStatus.{JobStatus, Request, KeypadPairer, start}
use switchbot_keypad_bridge.KeypadPairer.Job.{Reply}
use switchbot_keypad_bridge.KeypadPairer.Session.{Radio}
use switchbot_keypad_bridge.KeypadPairer.Execute.{run_task}
use switchbot_keypad_bridge.CloudClient.Client.{AccountDevice, KeypadKey}
use switchbot_keypad_bridge.PairingUi.PairStatus.{is_success_state}
use switchbot_keypad_bridge.PairingUi.Server.{PairingUi}
use switchbot_keypad_bridge.PairingUi.Replies.{Around}
use switchbot_keypad_bridge.PairingUi.Handlers.{pair_request, stash_key}

abbrev pub Unfinished : List JobStatus → Type 0
Unfinished sts = All (λ st. is_success_state st.state ≡ false) sts

-- The job that a request starts, and its id.
module _ (w : Around) (family : KeypadFamily) (dev : AccountDevice) (key : KeypadKey)
    (ui : PairingUi) where
  abbrev pub request : Request
  request = pair_request w family dev key ui.shared_key

  abbrev pub begun : Bytes × KeypadPairer
  begun =
      start w.launch.now_us w.launch.sem_made w.launch.spawned request
        (stash_key dev key ui).1.pairer

module _ (xcrypt : Xcrypt Bytes) (radio : Radio) (air : List Reply) (w : Around)
    (family : KeypadFamily) (dev : AccountDevice) (key : KeypadKey) (ui : PairingUi) where
  -- The status at the end of the job.
  abbrev pub last_status : JobStatus
  last_status =
      (run_task xcrypt radio (request w family dev key ui) (begun w family dev key ui).1
        air).pairer.status
