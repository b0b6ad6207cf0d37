-- ===== src/CloudClient/Client/Devices.antt =====
-- components/switchbot_keypad_bridge/cloud_client.cpp: the devices of the account.
use switchbot_keypad_bridge.Common.{
  ◌≡◌, refl, ◌∙◌, Bool, true, false, not, ◌&&◌, Option, none, some, List, [], ◌∷◌, ◌++◌, arith,
  if◌then◌else◌, is_nil, All, Bytes, text,
}
use switchbot_keypad_bridge.MacUtils.{compact_mac, pretty_mac}
use switchbot_keypad_bridge.MacUtils.Text.{compact_of_compact, compact_mac-pretty_mac}
use switchbot_keypad_bridge.CloudClient.Cjson.{Cjson, Envelope, check_envelope}
use switchbot_keypad_bridge.CloudClient.Post.{Exchange, HttpRequest, Answer, post_json, ok, error}
use switchbot_keypad_bridge.CloudClient.Client.{
  AccountDevice, CloudClient, is_logged_in, Call, wonderlabs_base, keep_devices, device_texts,
  add_device, device_of, pick_devices, listed, checked_devices, devices_in, list_devices,
}

-- A device of a list names its compact and its pretty address, each of which gives the other.
abbrev pub IsAccountDevice : AccountDevice → Type 0
IsAccountDevice dev =
    (compact_mac dev.mac ≡ dev.mac)
    × (dev.mac_pretty ≡ pretty_mac dev.mac)
    × (compact_mac dev.mac_pretty ≡ dev.mac)

abbrev FoundDevice : Option AccountDevice → Type 0
FoundDevice none = Unit
FoundDevice (some dev) = IsAccountDevice dev

device_texts-FoundDevice : (mac name : Option Bytes) → FoundDevice (device_texts mac name)
device_texts-FoundDevice none name = tt
device_texts-FoundDevice (some mac) name = (
  compact_of_compact mac,
  refl,
  compact_mac-pretty_mac (compact_mac mac) ∙ compact_of_compact mac,
)

add_device-All :
    (o : Option AccountDevice) (devices : List AccountDevice)
    → FoundDevice o
    → All IsAccountDevice devices
    → All IsAccountDevice (add_device o devices)
add_device-All none devices h hs = hs
add_device-All (some dev) devices h hs = (h, hs)

abbrev FoundDevices : Answer (List AccountDevice) → Type 0
FoundDevices (error msg) = Unit
FoundDevices (ok devices) = All IsAccountDevice devices

module _ (cjson : Cjson) where
  pick_devices-All : (nodes : List cjson.Node) → All IsAccountDevice (pick_devices cjson nodes)
  unfolding pick_devices device_of
  pick_devices-All [] = tt
  pick_devices-All (node ∷ nodes) =
      add_device-All _ _ (device_texts-FoundDevice _ _) (pick_devices-All nodes)

  listed-FoundDevices : (o : Option (List cjson.Node)) → FoundDevices (listed cjson o)
  listed-FoundDevices none = tt
  listed-FoundDevices (some nodes) = pick_devices-All nodes

  checked-FoundDevices :
      (r : Option Bytes × Envelope cjson) → FoundDevices (checked_devices cjson r)
  checked-FoundDevices (some msg, env) = tt
  checked-FoundDevices (none, env) = listed-FoundDevices _

  devices_in-FoundDevices : (answer : Answer Bytes) → FoundDevices (devices_in cjson answer)
  unfolding devices_in
  devices_in-FoundDevices (error msg) = tt
  devices_in-FoundDevices (ok raw) = checked-FoundDevices (
      check_envelope cjson (text "Device list response was not valid JSON")
        (text "Device list rejected") raw)

  -- What a call for the devices comes to.
  abbrev pub ListKept : CloudClient → Call (List AccountDevice) → Type 0
  ListKept c (sent, error msg, c') = c' ≡ c
  ListKept c (sent, ok devices, c') =
      All IsAccountDevice devices
      × (c' ≡ record c { devices_cache = devices })
      × (is_nil devices ≡ false
          → (later : Exchange) → list_devices cjson false later c' ≡ ([], ok devices, c'))

  answered-again :
      (devices : List AccountDevice) (c : CloudClient) (later : Exchange)
      → is_logged_in c ≡ true
      → is_nil devices ≡ false
      → list_devices cjson false later (record c { devices_cache = devices })
        ≡ ([], ok devices, record c { devices_cache = devices })
  unfolding list_devices
  answered-again devices c later session some_devices = ground (arith, session, some_devices)

  fetched-ListKept :
      (sent : List HttpRequest) (answer : Answer (List AccountDevice)) (c : CloudClient)
      → is_logged_in c ≡ true
      → FoundDevices answer
      → ListKept c (sent, answer, keep_devices answer c)
  fetched-ListKept sent (error msg) c session found = refl
  fetched-ListKept sent (ok devices) c session found =
      (found, refl, λ some_devices later. answered-again devices c later session some_devices)

  by_tests :
      (session known : Bool) (c : CloudClient) (sent : List HttpRequest)
      (answer : Answer (List AccountDevice))
      → is_logged_in c ≡ session
      → All IsAccountDevice c.devices_cache
      → FoundDevices answer
      → ListKept c (
          if not session
          then ([], error (text "Not logged in"), c)
          else if known
          then ([], ok c.devices_cache, c)
          else (sent, answer, keep_devices answer c))
  by_tests false known c sent answer e cached found = refl
  by_tests true true c sent answer e cached found =
      (cached, refl, λ some_devices later. answered-again c.devices_cache c later e some_devices)
  by_tests true false c sent answer e cached found = fetched-ListKept sent answer c e found

  -- A list of devices that was obtained names for each device its compact and its pretty address, each of which
  -- gives the other, and it is kept: asked again without a refresh, the client answers the same without any
  -- request, unless the list is empty. A failure leaves the client as it was.
  pub list_devices-ListKept :
      (force : Bool) (ex : Exchange) (c : CloudClient)
      → All IsAccountDevice c.devices_cache
      → ListKept c (list_devices cjson force ex c)
  unfolding list_devices
  list_devices-ListKept force ex c cached =
      let sent =
        post_json (wonderlabs_base c ++ text "/wonder/device/v3/getdevice")
          (text "{\"required_type\":\"All\"}") c.auth_token ex in
      by_tests (is_logged_in c) (not force && not (is_nil c.devices_cache)) c sent.0
        (devices_in cjson sent.1) refl cached (devices_in-FoundDevices sent.1)
