-- ===== src/KeypadPairer/Linking.antt =====
-- components/switchbot_keypad_bridge/keypad_pairer.cpp: what comes before the session keeps to the
-- rules of the radio.
use switchbot_keypad_bridge.Common.{
  ℕ, zero, suc, ◌≡◌, refl, ◌∙◌, Bool, true, false, ◌&&◌, List, if◌then◌else◌, Bytes,
}
use switchbot_keypad_bridge.KeypadPairer.JobStatus.{JobStatus, KeypadPairer, set_failed, deliver}
use switchbot_keypad_bridge.KeypadPairer.Job.{
  Run, Job, act, update, gets, show, give_up, ensure, write_value, create_client, delete_client,
  terminate_link, subscribe, connect,
}
use switchbot_keypad_bridge.KeypadPairer.Session.{
  not_connected, no_service, iv_not_requested, no_session, Attempt, Radio, first_attempt,
  later_attempts, free_link, unless_connected, try_connect, connect_attempts, on_link, open_link,
  find_service, first_round, later_rounds, await_iv, iv_wait_rounds, iv_request, request_iv,
}
use switchbot_keypad_bridge.KeypadPairer.Triple.{Triple, Triple-bind}
use switchbot_keypad_bridge.KeypadPairer.Phases.{Phase, UnderWay, GaveUp, silent, holding, linked}
use switchbot_keypad_bridge.KeypadPairer.Rules.{
  deliver-status, Going, Rule, act-Rule, update-Rule, gets-Rule, pure-Rule, show-Rule, ensure-Rule,
  write_value-Rule,
}

await_iv-status :
    (left : ℕ) (rounds : List (List Bytes)) (p : KeypadPairer)
    → (await_iv left rounds p).status ≡ p.status
unfolding await_iv
await_iv-status zero rounds p = refl
await_iv-status (suc left) rounds p =
    let rest = await_iv left (later_rounds rounds) (deliver (first_round rounds) p) in
    elim p.iv_received as (λ c. (if c then p else rest).status ≡ p.status) [
      | true ↦ refl
      | false ↦
          await_iv-status left (later_rounds rounds) (deliver (first_round rounds) p)
          ∙ deliver-status (first_round rounds) p
    ]

module _ (b : JobStatus) where
  free_link-Rule : (held : Bool) (n : ℕ) → Rule b holding n (free_link held) holding n
  free_link-Rule true n = act-Rule b terminate_link holding holding n refl (λ _. refl)
  free_link-Rule false n = pure-Rule b tt holding n

  -- Linked after a connection, else holding the client.
  abbrev after_connect : Bool → Phase
  after_connect true = linked
  after_connect false = holding

  abbrev Tried : ℕ → Bool → Run → Type 0
  Tried n connected s = UnderWay b (after_connect connected) n s

  connect-Rule :
      (connected : Bool) (n : ℕ)
      → Rule b holding n (act (connect connected)) (after_connect connected) n
  connect-Rule true n = act-Rule b (connect true) holding linked n refl (λ _. refl)
  connect-Rule false n = act-Rule b (connect false) holding holding n refl (λ _. refl)

  unless_connected-Rule :
      (connected : Bool) (rest : Job Bool) (n : ℕ)
      → Triple (UnderWay b holding n) rest (Tried n) (GaveUp b silent)
      → Triple
          (UnderWay b (after_connect connected) n)
          (unless_connected connected rest)
          (Tried n)
          (GaveUp b silent)
  unless_connected-Rule true rest n h = record { at = λ s u. u }
  unless_connected-Rule false rest n h = h

  try_connect-Rule :
      (left : ℕ) (attempts : List Attempt) (n : ℕ)
      → Triple (UnderWay b holding n) (try_connect left attempts) (Tried n) (GaveUp b silent)
  unfolding try_connect
  try_connect-Rule zero attempts n = record { at = λ s u. u }
  try_connect-Rule (suc left) attempts n =
      let c = (first_attempt attempts).connected in
      let later = try_connect left (later_attempts attempts) in
      Triple-bind _ _ (free_link-Rule (first_attempt attempts).held n) (λ _.
        Triple-bind (act (connect c)) (λ _. unless_connected c later) (connect-Rule c n)
          (λ _.
            unless_connected-Rule c later n (try_connect-Rule left (later_attempts attempts) n)))

  pub give_up-Rule :
      {A : Type 0} (msg : Bytes) (p : Phase) (n : ℕ) {Q : A → Run → Type 0}
      → Triple (UnderWay b p n) (give_up {A = A} msg) Q (GaveUp b p)
  unfolding set_failed
  give_up-Rule msg p n = record {
    at = λ s h. record {
      phase = h.phase;
      ended = refl;
      same_job = h.same_job;
      same_total = h.same_total;
      told = refl;
      reached = n;
      steps = h.steps;
    };
  }

  on_link-Rule :
      (connected : Bool) (n : ℕ)
      → Triple (Tried n connected) (on_link connected) (Going b linked n) (GaveUp b silent)
  on_link-Rule true n = record { at = λ s h. h }
  on_link-Rule false n =
      Triple-bind (act delete_client) _ (act-Rule b delete_client holding silent n refl (λ _. refl))
        (λ _. give_up-Rule not_connected silent n)

  pub open_link-Rule : (radio : Radio) (n : ℕ) → Rule b silent n (open_link radio) linked n
  unfolding open_link
  open_link-Rule radio n =
      Triple-bind (act create_client) _ (act-Rule b create_client silent holding n refl (λ _. refl))
        (λ _.
          Triple-bind (try_connect connect_attempts radio.attempts) on_link
            (try_connect-Rule connect_attempts radio.attempts n) (λ c. on_link-Rule c n))

  pub find_service-Rule : (radio : Radio) → Rule b linked 1 (find_service radio) linked 2
  unfolding find_service
  find_service-Rule radio = Triple-bind (show 1) _ (show-Rule b linked 1) (λ _.
      Triple-bind (ensure (radio.has_rx && radio.has_tx) no_service) (λ _. act subscribe)
        (ensure-Rule b (radio.has_rx && radio.has_tx) no_service 2)
        (λ _. act-Rule b subscribe linked linked 2 refl (λ _. refl)))

  pub request_iv-Rule : (radio : Radio) → Rule b linked 2 (request_iv radio) linked 3
  unfolding request_iv
  request_iv-Rule radio = Triple-bind (show 2) _ (show-Rule b linked 2) (λ _.
      Triple-bind (gets iv_request) _ (gets-Rule b iv_request linked 3) (λ frame.
        Triple-bind (write_value frame) _ (write_value-Rule b frame 3) (λ written.
          Triple-bind (ensure written iv_not_requested) _ (ensure-Rule b written iv_not_requested 3)
            (λ _.
              Triple-bind (update (await_iv iv_wait_rounds radio.iv_rounds)) _
                (update-Rule b _ linked 3 (await_iv-status iv_wait_rounds radio.iv_rounds))
                (λ _.
                  Triple-bind (gets (λ p. p.iv_received)) _ (gets-Rule b _ linked 3)
                    (λ received. ensure-Rule b received no_session 3))))))
