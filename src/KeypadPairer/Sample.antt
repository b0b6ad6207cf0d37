-- ===== src/KeypadPairer/Sample.antt =====
-- A keypad that answers, for the tests of components/switchbot_keypad_bridge/keypad_pairer.cpp.
use switchbot_keypad_bridge.Common.{true, false, List, [], ◌∷◌, ◌++◌, replicate, pos, Bytes, text}
use switchbot_keypad_bridge.AesCtr.{aes_ctr_xcrypt_raw_key}
use switchbot_keypad_bridge.AesCtr.Cipher.{Xcrypt, IsStream}
use switchbot_keypad_bridge.AesCtr.Laws.{aes_ctr_xcrypt_raw_key-IsStream}
use switchbot_keypad_bridge.AesCtr.Toy.{toy_psa, toy_documented}
use switchbot_keypad_bridge.KeypadAdvert.{original, vision}
use switchbot_keypad_bridge.KeypadPairer.JobStatus.{JobStatus, Request, KeypadPairer, idle, running}
use switchbot_keypad_bridge.KeypadPairer.Job.{Reply, Run}
use switchbot_keypad_bridge.KeypadPairer.Session.{Radio}

abbrev pub raw_xcrypt : Xcrypt Bytes
raw_xcrypt = aes_ctr_xcrypt_raw_key toy_psa

pub raw_IsStream : IsStream raw_xcrypt
raw_IsStream = aes_ctr_xcrypt_raw_key-IsStream toy_psa toy_documented

abbrev pub idle_status : JobStatus
idle_status = record {
  state = idle;
  step = 0;
  total = 0;
  message = [];
  error = [];
  job_id = [];
  keypad_mac = [];
  family = original;
}

abbrev pub idle_pairer : KeypadPairer
idle_pairer = record {
  status = idle_status;
  key = [];
  key_id = 0;
  iv = replicate 16 0;
  iv_received = false;
  last_notify = [];
  has_sem = false;
  read_values = [];
  read_ready = false;
}

abbrev pub vision_request : Request
vision_request = record {
  keypad_mac = text "B0:E9:FE:61:2E:75";
  family = vision;
  key_id = pos 0x45;
  key = replicate 16 3;
  shared_token = replicate 8 0xA0 ++ replicate 8 0xB0;
  esp_mac = replicate 6 0xE5;
  raw_command = [];
  read_params = [];
}

abbrev pub ack : Reply
ack = record { written = true; notices = (0x01 ∷ 0x07 ∷ []) ∷ [] }

abbrev pub iv_frame : Bytes
iv_frame = 0x01 ∷ 0x00 ∷ 0x00 ∷ 0x00 ∷ replicate 16 9

-- The keypad is found at the second attempt, and sends its IV in the second wait.
abbrev pub near_radio : Radio
near_radio = record {
  seen = text "b0:e9:fe:61:2e:75" ∷ [];
  attempts =
      record { held = true; connected = false } ∷ record { held = false; connected = true } ∷ [];
  has_rx = true;
  has_tx = true;
  iv_rounds = [] ∷ (iv_frame ∷ []) ∷ [];
}

abbrev pub no_ack : Reply
no_ack = record { written = false; notices = [] }

-- The preparatory command is lost, and all others get through.
abbrev pub good_air : List Reply
good_air =
    record { written = true; notices = [] }
    ∷ ack
    ∷ ack
    ∷ no_ack
    ∷ ack
    ∷ ack
    ∷ ack
    ∷ ack
    ∷ ack
    ∷ ack
    ∷ ack
    ∷ []

abbrev pub open_run : Run
open_run = record {
  pairer = record idle_pairer {
    status = record idle_status { state = running; total = 9 };
    key = replicate 16 3;
    key_id = 0x45;
    iv = replicate 16 9;
    iv_received = true;
    has_sem = true;
  };
  air = good_air;
  acts = [];
}

abbrev pub asking_run : Run
asking_run = record open_run { pairer = record (open_run.pairer) { iv_received = false } }

-- The first GET brings a value, the second is not acknowledged.
abbrev pub reading_run : Run
reading_run = record open_run {
  air =
      record { written = true; notices = (0x01 ∷ 0x00 ∷ 0x00 ∷ 0x00 ∷ 0x06 ∷ []) ∷ [] }
      ∷ no_ack
      ∷ [];
}

abbrev pub read_request : Request
read_request = record vision_request { read_params = 0x02 ∷ 0x07 ∷ [] }
