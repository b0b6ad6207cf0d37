-- ===== src/KeypadPairer/JobStatus.antt =====
-- components/switchbot_keypad_bridge/keypad_pairer.h and keypad_pairer.cpp: the pairer's state, its status and the
-- methods that set it, the start of a job, and the notifications that a keypad sends.
use switchbot_keypad_bridge.Common.{
  unsigned_text, ℕ, ◌-◌, ◌/◌, Bool, true, false, not, ◌&&◌, Option, none, some, List, [], ◌∷◌, ◌++◌,
  ◌==◌, if◌then◌else◌, length, get_or, take, drop, ℤ, pos, negsuc, Bytes, u8, u32, text,
}
use switchbot_keypad_bridge.KeypadAdvert.{KeypadFamily}
use switchbot_keypad_bridge.KeypadPairer.Dialect.{step_count, label}

-- `KeypadPairer::State`
pub data JobState : Type 0 where
  idle running success failed : JobState

-- `KeypadPairer::Status`
pub record JobStatus : Type 0 where
  pub state : JobState
  pub step : ℕ
  pub total : ℕ
  pub message : Bytes
  pub error : Bytes
  pub job_id : Bytes
  pub keypad_mac : Bytes
  pub family : KeypadFamily

-- The arguments of one job; `key_id` is an `int`.
pub record Request : Type 0 where
  pub keypad_mac : Bytes
  pub family : KeypadFamily
  pub key_id : ℤ
  pub key : Bytes
  pub shared_token : Bytes
  pub esp_mac : Bytes
  pub raw_command : Bytes
  pub read_params : Bytes

-- `has_sem` says whether the semaphore exists. The values read are kept until they are taken.
pub record KeypadPairer : Type 0 where
  pub status : JobStatus
  pub key : Bytes
  pub key_id : ℕ
  pub iv : Bytes
  pub iv_received : Bool
  pub last_notify : Bytes
  pub has_sem : Bool
  pub read_values : List ℤ
  pub read_ready : Bool

unfoldable pub set_running : ℕ → Bytes → KeypadPairer → KeypadPairer
set_running total job_id p = record p {
  status = record (p.status) {
    state = running;
    step = 0;
    total = total;
    message = label 0;
    error = [];
    job_id = job_id;
  };
}

unfoldable pub set_step : ℕ → Bytes → KeypadPairer → KeypadPairer
set_step step msg p = record p { status = record (p.status) { step = step; message = msg } }

unfoldable pub set_success : Bytes → KeypadFamily → KeypadPairer → KeypadPairer
set_success keypad_mac family p = record p {
  status = record (p.status) {
    state = success;
    step = p.status.total;
    message = text "Pairing complete";
    error = [];
    keypad_mac = keypad_mac;
    family = family;
  };
}

unfoldable pub set_failed : Bytes → KeypadPairer → KeypadPairer
set_failed err p = record p {
  status = record (p.status) { state = failed; error = err; message = err };
}

abbrev pub is_running : JobState → Bool
is_running running = true
is_running idle = false
is_running success = false
is_running failed = false

-- `static_cast<uint8_t>` of an `int`
abbrev pub u8_of_int : ℤ → ℕ
u8_of_int (pos n) = u8 n
u8_of_int (negsuc n) = 255 - u8 n

-- "p-%lu" of the milliseconds since the boot
unfoldable pub job_id_at : ℕ → Bytes
job_id_at now_us = text "p-" ++ unsigned_text (u32 (now_us / 1000))

-- The job's own state, before anything can go wrong.
abbrev pub arm_job : Request → KeypadPairer → KeypadPairer
arm_job req p = record p { key = req.key; key_id = u8_of_int req.key_id; iv_received = false }

-- `sem_made` and `spawned` are the answers of FreeRTOS: a semaphore when one is needed, and the task. An
-- empty id is a refusal; otherwise the task runs the request.
unfoldable pub start : ℕ → Bool → Bool → Request → KeypadPairer → Bytes × KeypadPairer
start now_us sem_made spawned req p =
    let q = arm_job req p in
    let armed : KeypadPairer = record q { has_sem = true } in
    let started = set_running (step_count req.family) (job_id_at now_us) armed in
    if is_running p.status.state
    then ([], p)
    else if not p.has_sem && not sem_made
    then ([], set_failed (text "Out of memory allocating the ACK semaphore") q)
    else if not spawned
    then ([], set_failed (text "Could not start pairing task") started)
    else (job_id_at now_us, started)

unfoldable pub take_read_result : KeypadPairer → Option (List ℤ) × KeypadPairer
take_read_result p =
    if p.read_ready then (some p.read_values, record p { read_ready = false }) else (none, p)

-- The 20-byte reply to the IV request.
abbrev pub is_iv_frame : Bytes → Bool
is_iv_frame notice =
    (length notice == 20) && (get_or notice 0 0 == 0x01) && (get_or notice 1 0 == 0x00)

-- The session IV is latched once.
abbrev pub latch_iv : Bytes → KeypadPairer → KeypadPairer
latch_iv notice p =
    if is_iv_frame notice && not p.iv_received
    then record p { iv = take 16 (drop 4 notice); iv_received = true }
    else p

unfoldable pub on_notify : Bytes → KeypadPairer → KeypadPairer
on_notify notice p = record (latch_iv notice p) { last_notify = notice }

-- Notifications one after the other.
unfoldable pub deliver : List Bytes → KeypadPairer → KeypadPairer
deliver [] p = p
deliver (n ∷ ns) p = deliver ns (on_notify n p)
