-- ===== src/PairingUi/PairStatus/Once.antt =====
-- components/switchbot_keypad_bridge/pairing_ui.cpp: a finished pairing is handed over once.
use switchbot_keypad_bridge.Common.{
  ◌≡◌, refl, ap, ◌∙◌, inl, inr, true, false, ◌&&◌, Option, none, some, List, [], ◌∷◌, ◌++◌, arith,
  if◌then◌else◌, Bool-cases, is_nil, Bytes, bytes_eq,
}
use switchbot_keypad_bridge.KeypadPairer.JobStatus.{JobStatus}
use switchbot_keypad_bridge.PairingUi.PairStatus.{
  PairingJob, Paired, is_success_state, bind_job, is_news, notify_paired, handle_pair_status,
}

-- Polls of the job's status one after the other: the callbacks they make, in order.
pub poll_all : List JobStatus → PairingJob → List Paired
poll_all [] j = []
poll_all (st ∷ sts) j = (handle_pair_status st j).0 ++ poll_all sts (handle_pair_status st j).2

-- The first status that reports the success of the job.
unfoldable pub first_success : Bytes → List JobStatus → Option JobStatus
first_success id [] = none
first_success id (st ∷ sts) =
    let rest = first_success id sts in
    if is_success_state st.state && bytes_eq st.job_id id then some st else rest

abbrev pub announcement : Bytes → Option JobStatus → List Paired
announcement name none = []
announcement name (some st) = (name, st.keypad_mac, st.family) ∷ []

call-news :
    (st : JobStatus) (j : PairingJob)
    → is_news st j ≡ true
    → notify_paired st j
      ≡ ((j.keypad_name, st.keypad_mac, st.family) ∷ [], record j { success_notified = true })
unfolding notify_paired
call-news st j e = rw e refl

no_call : (st : JobStatus) (j : PairingJob) → is_news st j ≡ false → notify_paired st j ≡ ([], j)
unfolding notify_paired
no_call st j e = rw e refl

news_once : (st : JobStatus) (j : PairingJob) → j.success_notified ≡ true → is_news st j ≡ false
unfolding is_news
news_once st j d = ground (arith, d)

poll_all-done :
    (sts : List JobStatus) (j : PairingJob) → j.success_notified ≡ true → poll_all sts j ≡ []
unfolding poll_all handle_pair_status
poll_all-done [] j d = refl
poll_all-done (st ∷ sts) j d = rw (no_call st j (news_once st j d)) (poll_all-done sts j d)

-- The job right after it was bound.
abbrev bound : Bytes → Bytes → PairingJob
bound name id = record { keypad_name = name; job_id = id; success_notified = false }

news_when :
    (st : JobStatus) (name id : Bytes)
    → is_nil id ≡ false
    → is_news st (bound name id) ≡ (is_success_state st.state && bytes_eq st.job_id id)
unfolding is_news
news_when st name id n = ground (arith, n)

poll_bound :
    (sts : List JobStatus) (name id : Bytes)
    → is_nil id ≡ false
    → poll_all sts (bound name id) ≡ announcement name (first_success id sts)
unfolding poll_all handle_pair_status first_success
poll_bound [] name id n = refl
poll_bound (st ∷ sts) name id n =
    elim (Bool-cases (is_success_state st.state && bytes_eq st.job_id id)) [
      | inl first ↦
          rw (call-news st (bound name id) (news_when st name id n ∙ first), first)
            (ap ((name, st.keypad_mac, st.family) ∷◌)
              (poll_all-done sts (record (bound name id) { success_notified = true }) refl))
      | inr later ↦
          rw (no_call st (bound name id) (news_when st name id n ∙ later), later)
            (poll_bound sts name id n)
    ]

-- Whatever the job's status is over any number of polls, the bridge is told of the pairing at most once,
-- namely at the first status that reports the success of the very job that was started, with the
-- name captured then and the MAC and the family of that status.
pub poll_all-eq-announcement :
    (sts : List JobStatus) (name id : Bytes) (j : PairingJob)
    → is_nil id ≡ false
    → poll_all sts (bind_job name id j) ≡ announcement name (first_success id sts)
unfolding bind_job
poll_all-eq-announcement sts name id j n = rw n (poll_bound sts name id n)
