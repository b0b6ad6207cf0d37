-- ===== src/PairingUi/Handlers/Paired.antt =====
-- components/switchbot_keypad_bridge/pairing_ui.cpp: what a request for a pairing comes to.
use switchbot_keypad_bridge.Common.{
  ℕ, zero, suc, ◌+◌, ◌≡◌, refl, sym, ap, ◌∙◌, Bool, true, false, not, Option, none, some, List, [],
  ◌∷◌, if◌then◌else◌, length, is_nil, Bytes, text,
}
use switchbot_keypad_bridge.KeypadAdvert.{KeypadFamily}
use switchbot_keypad_bridge.KeypadPairer.JobStatus.{Request, running}
use switchbot_keypad_bridge.KeypadPairer.Outcome.{Accepted, start-Accepted}
use switchbot_keypad_bridge.CloudClient.Client.{
  AccountDevice, CloudClient, KeypadKey, fetch_keypad_key,
}
use switchbot_keypad_bridge.CloudClient.Cjson.{Cjson}
use switchbot_keypad_bridge.CloudClient.Post.{Answer, ok, error}
use switchbot_keypad_bridge.CloudClient.Client.Keys.{SizedKey, fetch_keypad_key-SizedKey}
use switchbot_keypad_bridge.PairingUi.Replies.{
  HttpReq, Around, Payload, UiEffect, Handled, reply_error, error_text, job_started,
}
use switchbot_keypad_bridge.PairingUi.PairStatus.{bind_job}
use switchbot_keypad_bridge.PairingUi.Server.{PairingUi, start_job}
use switchbot_keypad_bridge.PairingUi.Handlers.{
  labels_from, find_device, pair_request, stash_key, started_reply, start_pairing, pair_fetched,
  pair_found, pair_listed, handle_pair,
}
use switchbot_keypad_bridge.KeypadPairer.Dialect.{step_count}

-- A job runs, under a key of 16 bytes and the id that the page was told, with a label for each of its steps; and
-- the hand-over waits for this very job.
pub record IsPairing (id : Bytes) (shown : List Bytes) (ui : PairingUi) : Type 0 where
  pub going : ui.pairer.status.state ≡ running
  pub same_id : ui.pairer.status.job_id ≡ id
  pub key_size : length ui.pairer.key ≡ 16
  pub all_labels : length shown ≡ ui.pairer.status.total
  pub bound_id : ui.job.job_id ≡ id
  pub unannounced : ui.job.success_notified ≡ false

abbrev pub PairOutcome : PairingUi → Payload → PairingUi → Type 0
PairOutcome ui (job_started id shown) ui' = IsPairing id shown ui'
PairOutcome ui (error_text msg) ui' = ui'.job ≡ ui.job
PairOutcome ui _ ui' = ⊥

length-labels_from :
    (family : KeypadFamily) (n left : ℕ) → length (labels_from family n left) ≡ left
unfolding labels_from
length-labels_from family n zero = refl
length-labels_from family n (suc left) = ap suc (length-labels_from family (n + 1) left)

module _ (w : Around) (family : KeypadFamily) (dev : AccountDevice) (key : KeypadKey)
    (sized : length key.1 ≡ 16) where
  abbrev request_of : PairingUi → Request
  request_of ui = pair_request w family dev key ui.shared_key

  started-PairOutcome :
      (id : Bytes) (ui ui' : PairingUi)
      → (is_nil id ≡ false → Accepted (request_of ui) id ui'.pairer)
      → PairOutcome ui
          (started_reply id family).payload
          (record ui' { job = bind_job dev.name id ui.job })
  unfolding bind_job
  started-PairOutcome [] ui ui' accepted = refl
  started-PairOutcome (c ∷ cs) ui ui' accepted =
      let a = accepted refl in
      record {
        going = a.going;
        same_id = a.bound;
        key_size = ap length a.keyed ∙ sized;
        all_labels = length-labels_from family 0 (step_count family) ∙ sym a.sized;
        bound_id = refl;
        unannounced = refl;
      }

  start_pairing-PairOutcome :
      (effects : List UiEffect) (ui : PairingUi)
      → let r = start_pairing w family dev key effects ui in PairOutcome ui r.0.payload r.2
  start_pairing-PairOutcome effects ui =
      started-PairOutcome _ ui (start_job w.launch (request_of ui) (stash_key dev key ui).1).1 (
        start-Accepted w.launch.now_us w.launch.sem_made w.launch.spawned (request_of ui)
          (stash_key dev key ui).1.pairer)

module _ (cjson : Cjson) (w : Around) (family : KeypadFamily) where
  pair_fetched-PairOutcome :
      (dev : AccountDevice) (answer : Answer KeypadKey) (effects : List UiEffect) (ui : PairingUi)
      → SizedKey answer
      → let r = pair_fetched w family dev answer effects ui in PairOutcome ui r.0.payload r.2
  pair_fetched-PairOutcome dev (error msg) effects ui sized = refl
  pair_fetched-PairOutcome dev (ok key) effects ui sized =
      start_pairing-PairOutcome w family dev key sized.0 effects ui

  pair_found-PairOutcome :
      (o : Option AccountDevice) (effects : List UiEffect) (ui : PairingUi)
      → let r = pair_found cjson w family o effects ui in PairOutcome ui r.0.payload r.2
  pair_found-PairOutcome none effects ui = refl
  pair_found-PairOutcome (some dev) effects ui =
      pair_fetched-PairOutcome dev (fetch_keypad_key cjson dev.mac w.second ui.cloud).1 _
        (record ui { cloud = (fetch_keypad_key cjson dev.mac w.second ui.cloud).2 })
        (fetch_keypad_key-SizedKey cjson dev.mac w.second ui.cloud).0

  pair_listed-PairOutcome :
      (mac : Bytes) (answer : Answer (List AccountDevice)) (effects : List UiEffect)
      (ui : PairingUi)
      → let r = pair_listed cjson w family mac answer effects ui in PairOutcome ui r.0.payload r.2
  pair_listed-PairOutcome mac (error msg) effects ui = refl
  pair_listed-PairOutcome mac (ok devices) effects ui =
      pair_found-PairOutcome (find_device mac devices) effects ui

  pair_tests :
      (no_mac session : Bool) (mac : Bytes) (answer : Answer (List AccountDevice))
      (effects : List UiEffect) (cloud : CloudClient) (ui : PairingUi)
      → let r : Handled =
          if no_mac
          then (reply_error (text "400 Bad Request") (text "Missing keypad mac."), [], ui)
          else if not session
          then (reply_error (text "401 Unauthorized") (text "Sign in first."), [], ui)
          else pair_listed cjson w family mac answer effects (record ui { cloud = cloud }) in
        PairOutcome ui r.0.payload r.2
  pair_tests true session mac answer effects cloud ui = refl
  pair_tests false false mac answer effects cloud ui = refl
  pair_tests false true mac answer effects cloud ui =
      pair_listed-PairOutcome mac answer effects (record ui { cloud = cloud })

-- A request for a pairing has one of two outcomes. Either the page gets the id of a job that now runs, under a key
-- of exactly 16 bytes, with one label for each of its steps, and the hand-over waits for this job. Or the page
-- gets an error, and the hand-over waits for what it waited for before.
pub handle_pair-PairOutcome :
    (cjson : Cjson) (w : Around) (req : HttpReq) (ui : PairingUi)
    → let r = handle_pair cjson w req ui in PairOutcome ui r.0.payload r.2
unfolding handle_pair
handle_pair-PairOutcome cjson w req ui = pair_tests cjson w _ _ _ _ _ _ _ ui
