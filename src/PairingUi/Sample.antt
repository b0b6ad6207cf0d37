-- ===== src/PairingUi/Sample.antt =====
-- A web server with a signed-in account, for the tests of components/switchbot_keypad_bridge/pairing_ui.cpp.
use switchbot_keypad_bridge.Common.{
  true, false, none, some, List, [], ◌∷◌, ◌++◌, replicate, negsuc, text,
}
use switchbot_keypad_bridge.BleUtils.{Advertised}
use switchbot_keypad_bridge.KeypadAdvert.{KeypadIdent, vision}
use switchbot_keypad_bridge.KeypadPairer.Sample.{idle_pairer}
use switchbot_keypad_bridge.CloudClient.Client.{AccountDevice}
use switchbot_keypad_bridge.CloudClient.Sample.{answering, signed_in_client}
use switchbot_keypad_bridge.PairingUi.Auth.{Credentials}
use switchbot_keypad_bridge.PairingUi.CommKey.{no_comm_key}
use switchbot_keypad_bridge.PairingUi.PairStatus.{PairingJob}
use switchbot_keypad_bridge.PairingUi.Server.{PairingUi}
use switchbot_keypad_bridge.PairingUi.Replies.{HttpReq, Around}

abbrev pub admin : Credentials
admin = record { user = text "admin"; pass = text "secret" }

abbrev pub no_job : PairingJob
no_job = record { keypad_name = []; job_id = []; success_notified = false }

abbrev pub front_door : AccountDevice
front_door = record {
  mac = text "B0E9FE612E75";
  mac_pretty = text "B0:E9:FE:61:2E:75";
  name = text "Front door";
}

abbrev pub vision_ident : KeypadIdent
vision_ident = record { is_keypad = true; family = vision }

abbrev pub open_ui : PairingUi
open_ui = record {
  server = true;
  cloud = signed_in_client;
  pairer = idle_pairer;
  credentials = admin;
  log_keys = true;
  comm_key = no_comm_key;
  ble_scan_busy = false;
  shared_key = replicate 8 0xA0 ++ replicate 8 0xB0;
  html = text "page";
  job = no_job;
  identified = (front_door.mac_pretty, vision_ident) ∷ [];
}

-- Two packets of the keypad, of which the weaker carries its service data, and one of another device.
abbrev pub packets : List Advertised
packets =
    record { address = text "b0:e9:fe:61:2e:75"; rssi = negsuc 60; fd3d_data = []; old_data = [] }
    ∷ record {
      address = text "11:22:33:44:55:66";
      rssi = negsuc 30;
      fd3d_data = 0x6F ∷ [];
      old_data = [];
    }
    ∷ record {
      address = text "b0:e9:fe:61:2e:75";
      rssi = negsuc 80;
      fd3d_data = 0x79 ∷ 0x00 ∷ 0x64 ∷ [];
      old_data = [];
    }
    ∷ []

abbrev pub around : Around
around = record {
  provided = some (text "[]");
  users_handler = none;
  settings_handler = none;
  first = answering (text "D");
  second = answering (text "K");
  adverts = packets;
  own_address = 0xE6 ∷ 0xE5 ∷ 0xE4 ∷ 0xE3 ∷ 0xE2 ∷ 0xE1 ∷ [];
  launch = record { now_us = 5000000; sem_made = true; spawned = true };
}

abbrev pub pair_req : HttpReq
pair_req = record {
  authorization = some (text "Basic admin:secret");
  content_len = 1;
  segments = text "P" ∷ [];
}
