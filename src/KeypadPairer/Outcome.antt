-- ===== src/KeypadPairer/Outcome.antt =====
-- components/switchbot_keypad_bridge/keypad_pairer.cpp: what a whole job comes to, from its start to its end.
use switchbot_keypad_bridge.Common.{
  ℕ, ◌≡◌, refl, ap, ◌∙◌, ◌≢◌, ◌↔◌, ◌⊎◌, inl, inr, Bool, true, false, not, ◌&&◌, ◌||◌, Option, none,
  some, List, [], arith, is_nil, Bytes,
}
use switchbot_keypad_bridge.AesCtr.Cipher.{Xcrypt}
use switchbot_keypad_bridge.KeypadPairer.JobStatus.{
  JobStatus, Request, KeypadPairer, set_running, set_failed, is_running, job_id_at, start, running,
  success, failed,
}
use switchbot_keypad_bridge.KeypadPairer.Job.{
  Reply, Run, ◌>>◌, act, show, stop_advertising, start_advertising,
}
use switchbot_keypad_bridge.KeypadPairer.Session.{
  not_seen, Radio, on_air, open_link, find_service, request_iv,
}
use switchbot_keypad_bridge.KeypadPairer.Execute.{
  with_radio, with_pause, if_found, execute, run_task,
}
use switchbot_keypad_bridge.KeypadPairer.Triple.{After, Triple, Triple-bind}
use switchbot_keypad_bridge.KeypadPairer.Phases.{
  advance_from, phase_of, shown, below, UnderWay, GaveUp, Finished, on_advertising, silent,
}
use switchbot_keypad_bridge.KeypadPairer.Rules.{Going, act-Rule, pure-Rule, show-Rule}
use switchbot_keypad_bridge.KeypadPairer.Linking.{
  give_up-Rule, open_link-Rule, find_service-Rule, request_iv-Rule,
}
use switchbot_keypad_bridge.KeypadPairer.Ends.{session_steps, with_session-Rule}
use switchbot_keypad_bridge.KeypadPairer.Dialect.{step_count}

abbrev Ended : JobStatus → Request → Run → Type 0
Ended b req s = Finished b req on_advertising (session_steps req) s ⊎ GaveUp b on_advertising s

module _ (b : JobStatus) (xcrypt : Xcrypt Bytes) (radio : Radio) (req : Request) where
  with_radio-Rule :
      Triple
        (UnderWay b silent 1)
        (with_radio xcrypt radio req)
        (λ _. Finished b req silent (session_steps req))
        (GaveUp b silent)
  unfolding with_radio
  with_radio-Rule = Triple-bind (open_link radio) _ (open_link-Rule b radio 1) (λ _.
      Triple-bind (find_service radio) _ (find_service-Rule b radio) (λ _.
        Triple-bind (request_iv radio) _ (request_iv-Rule b radio)
          (λ _. with_session-Rule b xcrypt req)))

  -- The advertising is resumed on every way out.
  resumed :
      (r : Option (Unit {0}) × Run)
      → After (λ _. Finished b req silent (session_steps req)) (GaveUp b silent) r
      → Ended b req (act start_advertising r.1).1
  resumed (some u, s) h = inl (record {
    phase = ap (advance_from start_advertising) h.phase;
    ended = h.ended;
    same_job = h.same_job;
    all_steps = h.all_steps;
    same_total = h.same_total;
    same_mac = h.same_mac;
    same_family = h.same_family;
    steps = h.steps;
  })
  resumed (none, s) h = inr (record {
    phase = ap (advance_from start_advertising) h.phase;
    ended = h.ended;
    same_job = h.same_job;
    same_total = h.same_total;
    told = h.told;
    reached = h.reached;
    steps = h.steps;
  })

  with_pause-Ended :
      (s : Run)
      → UnderWay b on_advertising 1 s
      → Ended b req (with_pause xcrypt (with_radio xcrypt radio req) s)
  unfolding with_pause
  with_pause-Ended s h = resumed _ (
      with_radio-Rule.at (act stop_advertising s).1
        ((act-Rule b stop_advertising on_advertising silent 1 refl (λ _. refl)).at s h))

  on_air-Rule :
      (target : Option Bytes)
      → Triple
          (UnderWay b on_advertising 0)
          (show 0 >> on_air target)
          (Going b on_advertising 1)
          (GaveUp b on_advertising)
  on_air-Rule (some address) =
      Triple-bind (show 0) _ (show-Rule b on_advertising 0) (λ _. pure-Rule b tt on_advertising 1)
  on_air-Rule none =
      Triple-bind (show 0) _ (show-Rule b on_advertising 0)
        (λ _. give_up-Rule b not_seen on_advertising 1)

  found-Ended :
      (r : Option (Unit {0}) × Run)
      → After (Going b on_advertising 1) (GaveUp b on_advertising) r
      → Ended b req (if_found xcrypt radio req r)
  found-Ended (some u, s) h = with_pause-Ended s h
  found-Ended (none, s) h = inr h

  execute-Ended :
      (s : Run) → UnderWay b on_advertising 0 s → Ended b req (execute xcrypt radio req s)
  unfolding execute
  execute-Ended s h = found-Ended _ ((on_air-Rule _).at s h)

-- What a start that is accepted leaves behind.
pub record Accepted (req : Request) (id : Bytes) (q : KeypadPairer) : Type 0 where
  pub going : q.status.state ≡ running
  pub bound : q.status.job_id ≡ id
  pub sized : q.status.total ≡ step_count req.family
  pub keyed : q.key ≡ req.key

pub start-Accepted :
    (now_us : ℕ) (sem_made spawned : Bool) (req : Request) (p : KeypadPairer)
    → is_nil (start now_us sem_made spawned req p).0 ≡ false
    → Accepted req (start now_us sem_made spawned req p).0 (start now_us sem_made spawned req p).1
unfolding start set_running job_id_at
start-Accepted now_us sem_made spawned req p h = ground arith

-- Whether `start` is given the means to run a job.
module _ (now_us : ℕ) (sem_made spawned : Bool) (req : Request) (p : KeypadPairer) where
  abbrev pub can_start : Bool
  can_start = not (is_running p.status.state) && ((p.has_sem || sem_made) && spawned)

  -- A job starts, and gets an id, exactly when no other job runs and FreeRTOS gives the semaphore and the
  -- task. While a job runs, a start changes nothing, and one that FreeRTOS prevents fails with an error.
  pub start_iff :
      ((is_nil (start now_us sem_made spawned req p).0 ≡ false) ↔ (can_start ≡ true))
      × (p.status.state ≡ running → start now_us sem_made spawned req p ≡ ([], p))
      × (p.status.state ≢ running
          → is_nil (start now_us sem_made spawned req p).0 ≡ true
          → ((start now_us sem_made spawned req p).1.status.state ≡ failed)
            × (is_nil (start now_us sem_made spawned req p).1.status.error ≡ false))
  unfolding start set_running set_failed job_id_at
  start_iff = (
    (λ h. ground arith, λ h. ground arith),
    λ e. ground (arith, e),
    λ ne refused. (ground arith, ground arith),
  )

module _ (xcrypt : Xcrypt Bytes) (radio : Radio) (req : Request) (p : KeypadPairer) (now_us : ℕ)
    (sem_made spawned : Bool) (air : List Reply)
    (accepted : is_nil (start now_us sem_made spawned req p).0 ≡ false) where
  begun :
      Accepted req (start now_us sem_made spawned req p).0 (start now_us sem_made spawned req p).1
  begun = start-Accepted now_us sem_made spawned req p accepted

  run_task-Ended :
      Ended
        (start now_us sem_made spawned req p).1.status
        req
        (run_task xcrypt radio req (start now_us sem_made spawned req p).1 air)
  run_task-Ended = execute-Ended _ xcrypt radio req _ (record {
    phase = refl;
    going = begun.going;
    same_job = refl;
    same_total = refl;
    steps = refl;
  })

  -- Whatever the radio and the keypad do, a job that was started ends, in success with all of its steps
  -- shown done and the identity of the keypad that was asked for, or in failure with the error as its
  -- message; its status still carries the job's id and its number of steps.
  pub run_task-ends :
      let (id, q) = start now_us sem_made spawned req p in
      let st = (run_task xcrypt radio req q air).pairer.status in
      ((st.state ≡ success)
          × (st.step ≡ step_count req.family)
          × (st.keypad_mac ≡ req.keypad_mac)
          × (st.family ≡ req.family)
        ⊎ (st.state ≡ failed) × (st.message ≡ st.error))
      × (st.job_id ≡ id)
      × (st.total ≡ step_count req.family)
  run_task-ends = elim run_task-Ended [
    | inl h ↦ (
      inl (h.ended, h.all_steps ∙ h.same_total ∙ begun.sized, h.same_mac, h.same_family),
      h.same_job ∙ begun.bound,
      h.same_total ∙ begun.sized,
    )
    | inr h ↦ (inr (h.ended, h.told), h.same_job ∙ begun.bound, h.same_total ∙ begun.sized)
  ]

  -- On every way through a job its own calls of the BLE stack are in a legal order: between its calls that
  -- stop and start the advertising it creates one client at a time, terminates an old link only with a client in
  -- hand, and subscribes, writes and disconnects only over a link that this client opened; when it ends, that link
  -- is closed, the client freed and the advertising that it stopped started again. What the main loop calls in
  -- the meantime is not part of this.
  pub run_task-phase :
      phase_of (run_task xcrypt radio req (start now_us sem_made spawned req p).1 air).acts
      ≡ some on_advertising
  run_task-phase = elim run_task-Ended [ inl h ↦ h.phase | inr h ↦ h.phase ]

  -- The steps that a job shows are 0, 1, 2 and so on, none of them twice or left out. A job that succeeds has
  -- shown the first three if it reads settings or sends a command, and as a pairing every step of its family, with
  -- the doorbell's for a Vision keypad only.
  pub run_task-steps :
      let s = run_task xcrypt radio req (start now_us sem_made spawned req p).1 air in
      (n : ℕ) × (shown s.acts ≡ below n) × (s.pairer.status.state ≡ success → n ≡ session_steps req)
  run_task-steps = elim run_task-Ended [
    | inl h ↦ (session_steps req, h.steps, λ _. refl)
    | inr h ↦ (h.reached, h.steps, λ e. absurd (cc (h.ended)))
  ]
