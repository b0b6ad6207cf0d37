-- ===== src/KeypadPairer/Phases.antt =====
-- components/switchbot_keypad_bridge/keypad_pairer.cpp: the order of a job's calls of the BLE stack, and
-- what is known of a job under way and of one that has ended.
use switchbot_keypad_bridge.Common.{
  ℕ, zero, suc, ◌≡◌, true, false, Option, none, some, List, [], ◌∷◌,
}
use switchbot_keypad_bridge.KeypadPairer.JobStatus.{JobStatus, Request, running, success, failed}
use switchbot_keypad_bridge.KeypadPairer.Job.{
  Act, Run, stop_advertising, start_advertising, create_client, delete_client, terminate_link,
  subscribe, disconnect, connect, write, show_step, log_response,
}

-- How far the job's own calls have come: the advertising is as the job found it or started again, it is stopped, a
-- client object is held, or the client is linked to the keypad.
pub data Phase : Type 0 where
  on_advertising silent holding linked : Phase

-- Which call of the job is legal when. A step may be shown at any time. The main loop's calls, which may start the
-- advertising while a job runs, are not among these.
abbrev pub advance : Act → Phase → Option Phase
advance stop_advertising on_advertising = some silent
advance create_client silent = some holding
advance terminate_link holding = some holding
advance (connect true) holding = some linked
advance (connect false) holding = some holding
advance subscribe linked = some linked
advance (write frame ack) linked = some linked
advance (log_response ack answer plain) linked = some linked
advance disconnect linked = some holding
advance delete_client holding = some silent
advance start_advertising silent = some on_advertising
advance (show_step n) p = some p
advance _ _ = none

abbrev pub advance_from : Act → Option Phase → Option Phase
advance_from a none = none
advance_from a (some p) = advance a p

-- The phase after all the calls, the latest first; `none` if one of them was illegal.
abbrev pub phase_of : List Act → Option Phase
phase_of [] = some on_advertising
phase_of (a ∷ acts) = advance_from a (phase_of acts)

-- The steps shown, latest first.
abbrev pub shown : List Act → List ℕ
shown [] = []
shown (show_step n ∷ acts) = n ∷ shown acts
shown (_ ∷ acts) = shown acts

-- The numbers below `n`, from the highest.
abbrev pub below : ℕ → List ℕ
below zero = []
below (suc n) = n ∷ below n

-- A job under way, which has shown its first `n` steps.
pub record UnderWay (b : JobStatus) (p : Phase) (n : ℕ) (s : Run) : Type 0 where
  pub phase : phase_of s.acts ≡ some p
  pub going : s.pairer.status.state ≡ running
  pub same_job : s.pairer.status.job_id ≡ b.job_id
  pub same_total : s.pairer.status.total ≡ b.total
  pub steps : shown s.acts ≡ below n

-- A job that has failed: its error is what the page shows.
pub record GaveUp (b : JobStatus) (p : Phase) (s : Run) : Type 0 where
  pub phase : phase_of s.acts ≡ some p
  pub ended : s.pairer.status.state ≡ failed
  pub same_job : s.pairer.status.job_id ≡ b.job_id
  pub same_total : s.pairer.status.total ≡ b.total
  pub told : s.pairer.status.message ≡ s.pairer.status.error
  pub reached : ℕ
  pub steps : shown s.acts ≡ below reached

pub record Finished (b : JobStatus) (req : Request) (p : Phase) (n : ℕ) (s : Run) : Type 0 where
  pub phase : phase_of s.acts ≡ some p
  pub ended : s.pairer.status.state ≡ success
  pub same_job : s.pairer.status.job_id ≡ b.job_id
  pub all_steps : s.pairer.status.step ≡ s.pairer.status.total
  pub same_total : s.pairer.status.total ≡ b.total
  pub same_mac : s.pairer.status.keypad_mac ≡ req.keypad_mac
  pub same_family : s.pairer.status.family ≡ req.family
  pub steps : shown s.acts ≡ below n
