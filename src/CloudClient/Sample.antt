-- ===== src/CloudClient/Sample.antt =====
-- A few JSON documents, for the tests of components/switchbot_keypad_bridge/cloud_client.cpp and pairing_ui.cpp.
use switchbot_keypad_bridge.Common.{
  Bool, true, false, Option, none, some, List, [], ◌∷◌, ◌++◌, if◌then◌else◌, ℤ, pos, Bytes,
  bytes_eq, text,
}
use switchbot_keypad_bridge.CloudClient.Cjson.{Cjson}
use switchbot_keypad_bridge.CloudClient.Post.{Exchange}
use switchbot_keypad_bridge.CloudClient.Client.{CloudClient}

-- A node is its path; the text of a document is its first letter.
pub data Value : Type 0 where
  txt : Bytes → Value
  int : ℤ → Value
  arr : List Bytes → Value
  obj : Value

abbrev documents : List (Bytes × Value)
documents =
    (text "L", obj)
    ∷ (text "L.statusCode", int (pos 100))
    ∷ (text "L.body", obj)
    ∷ (text "L.body.access_token", txt (text "token"))
    ∷ (text "D", obj)
    ∷ (text "D.statusCode", int (pos 100))
    ∷ (text "D.body", obj)
    ∷ (text "D.body.Items", arr (text "D0" ∷ text "D1" ∷ []))
    ∷ (text "D0.device_mac", txt (text "b0e9fe612e75"))
    ∷ (text "D0.device_name", txt (text "Front door"))
    ∷ (text "D1.device_name", txt (text "Hub"))
    ∷ (text "K", obj)
    ∷ (text "K.statusCode", int (pos 100))
    ∷ (text "K.body", obj)
    ∷ (text "K.body.communicationKey", obj)
    ∷ (text "K.body.communicationKey.keyId", txt (text "45"))
    ∷ (text "K.body.communicationKey.key", txt (text "000102030405060708090a0B0C0D0E0F"))
    ∷ (text "P", obj)
    ∷ (text "P.mac", txt (text "B0E9FE612E75"))
    ∷ (text "P.family", txt (text "vision"))
    ∷ []

abbrev value_at : List (Bytes × Value) → Bytes → Option Value
value_at [] path = none
value_at ((p, v) ∷ docs) path =
    let rest = value_at docs path in if bytes_eq p path then some v else rest

abbrev path_if : Option Value → Bytes → Option Bytes
path_if none path = none
path_if (some v) path = some path

abbrev text_at : Option Value → Option Bytes
text_at (some (txt t)) = some t
text_at _ = none

abbrev int_at : Option Value → Option ℤ
int_at (some (int n)) = some n
int_at _ = none

abbrev elements_at : Option Value → Option (List Bytes)
elements_at (some (arr nodes)) = some nodes
elements_at _ = none

abbrev is_obj : Option Value → Bool
is_obj (some obj) = true
is_obj _ = false

abbrev pub sample_cjson : Cjson
sample_cjson = record {
  Node = Bytes;
  parse = λ raw. path_if (value_at documents raw) raw;
  item = λ node name. let path = node ++ b'.' ∷ name in path_if (value_at documents path) path;
  text_of = λ node. text_at (value_at documents node);
  int_of = λ node. int_at (value_at documents node);
  elements = λ node. elements_at (value_at documents node);
  is_object = λ node. is_obj (value_at documents node);
  print_texts = λ members. some (text "{}");
}

-- An exchange that brings a document, in two pieces.
abbrev pub answering : Bytes → Exchange
answering doc = record {
  looks = record { time = 0; waited = 0 } ∷ record { time = 1800000000; waited = 200 } ∷ [];
  has_client = true;
  failure = none;
  status = pos 200;
  chunks = [] ∷ doc ∷ [];
}

abbrev pub failing : Exchange
failing = record (answering []) { failure = some (text "ESP_ERR_HTTP_CONNECT") }

abbrev pub signed_in_client : CloudClient
signed_in_client = record { auth_token = text "token"; region = text "eu"; devices_cache = [] }
