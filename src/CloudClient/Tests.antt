-- ===== src/CloudClient/Tests.antt =====
-- Tests of components/switchbot_keypad_bridge/cloud_client.cpp.
use switchbot_keypad_bridge.Common.{◌≡◌, ◌↔◌, ◌⊎◌, false, [], is_nil, Bytes, text}
use switchbot_keypad_bridge.CloudClient.Post.{ok, error}
use switchbot_keypad_bridge.CloudClient.Client.{
  signed_out, is_logged_in, login, list_devices, fetch_keypad_key,
}
use switchbot_keypad_bridge.CloudClient.Client.SignIn.{Brings, Grants, login-SignIn}
use switchbot_keypad_bridge.CloudClient.Client.Devices.{ListKept, list_devices-ListKept}
use switchbot_keypad_bridge.CloudClient.Client.Keys.{SizedKey, fetch_keypad_key-SizedKey}
use switchbot_keypad_bridge.CloudClient.Sample.{sample_cjson, answering, failing, signed_in_client}

login-SignIn_example :
    let (sent, answer, c') =
      login sample_cjson (text "a@b") (text "pw") (answering (text "L")) failing signed_out in
    ((token : Bytes)
      → ((answer ≡ ok tt) × (c'.auth_token ≡ token))
        ↔ ((raw : Bytes) × Brings (answering (text "L")) raw × Grants sample_cjson raw token))
    × (((answer ≡ ok tt) × (is_nil c'.region ≡ false) × (c'.devices_cache ≡ []))
        ⊎ ((msg : Bytes) × (answer ≡ error msg) × (c' ≡ signed_out)))
login-SignIn_example =
    login-SignIn sample_cjson (text "a@b") (text "pw") (answering (text "L")) failing signed_out

list_devices-ListKept_example :
    ListKept sample_cjson signed_in_client
      (list_devices sample_cjson false (answering (text "D")) signed_in_client)
list_devices-ListKept_example =
    list_devices-ListKept sample_cjson false (answering (text "D")) signed_in_client tt

fetch_keypad_key-SizedKey_example :
    let (sent, answer, c') =
      fetch_keypad_key sample_cjson (text "B0E9FE612E75") (answering (text "K")) signed_in_client in
    SizedKey answer
    × (c' ≡ signed_in_client)
    × (is_logged_in signed_in_client ≡ false
        → (sent ≡ []) × (answer ≡ error (text "Not logged in")))
fetch_keypad_key-SizedKey_example =
    fetch_keypad_key-SizedKey sample_cjson (text "B0E9FE612E75") (answering (text "K"))
      signed_in_client
