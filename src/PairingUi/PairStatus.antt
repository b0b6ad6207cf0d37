-- ===== src/PairingUi/PairStatus.antt =====
-- components/switchbot_keypad_bridge/pairing_ui.cpp: the poll of a pairing job's progress, and the hand-over
-- of a finished pairing to the bridge.
pub mod Once
use switchbot_keypad_bridge.Common.{
  ℕ, Bool, true, false, not, ◌&&◌, Option, none, some, List, [], ◌∷◌, if◌then◌else◌, is_nil, Bytes,
  bytes_eq,
}
use switchbot_keypad_bridge.KeypadAdvert.{KeypadFamily}
use switchbot_keypad_bridge.KeypadPairer.JobStatus.{
  JobState, JobStatus, idle, running, success, failed,
}

-- The fields that bind a job to the keypad it pairs.
pub record PairingJob : Type 0 where
  pub keypad_name : Bytes
  pub job_id : Bytes
  pub success_notified : Bool

-- The callback's arguments: the keypad's name, its MAC and its family.
abbrev pub Paired : Type 0
Paired = Bytes × Bytes × KeypadFamily

abbrev pub is_success_state : JobState → Bool
is_success_state success = true
is_success_state _ = false

-- The end of `handle_pair_`: a job that started; an empty id is none.
unfoldable pub bind_job : Bytes → Bytes → PairingJob → PairingJob
bind_job name id j =
    if is_nil id then j else record { keypad_name = name; job_id = id; success_notified = false }

-- The success of this job, reported for the first time.
unfoldable pub is_news : JobStatus → PairingJob → Bool
is_news st j =
    is_success_state st.state
    && not j.success_notified
    && bytes_eq st.job_id j.job_id
    && not (is_nil j.job_id)

-- The call of the callback, if it is made.
unfoldable pub notify_paired : JobStatus → PairingJob → List Paired × PairingJob
notify_paired st j =
    if is_news st j
    then ((j.keypad_name, st.keypad_mac, st.family) ∷ [], record j { success_notified = true })
    else ([], j)

-- What the page is told: the step, their number, the message, whether the job is done, and its error.
pub record PairReply : Type 0 where
  pub step : ℕ
  pub total : ℕ
  pub message : Bytes
  pub done : Bool
  pub error : Option Bytes

unfoldable pub pair_reply : JobStatus → PairReply
pair_reply st = record {
  step = st.step;
  total = st.total;
  message = st.message;
  done = elim st.state [ success ↦ true | failed ↦ true | idle ↦ false | running ↦ false ];
  error = elim st.state [ failed ↦ some st.error | success ↦ none | idle ↦ none | running ↦ none ];
}

unfoldable pub handle_pair_status : JobStatus → PairingJob → List Paired × PairReply × PairingJob
handle_pair_status st j = let (calls, j') = notify_paired st j in (calls, pair_reply st, j')
