-- ===== src/PairingUi/Nearby.antt =====
-- components/switchbot_keypad_bridge/pairing_ui.cpp: the devices in range, and which of the account's devices the page
-- lists as keypads. A `std::map` is an association list without order.
pub mod Scanned
pub mod Listed
use switchbot_keypad_bridge.Common.{
  Option, none, some, List, [], ◌∷◌, if◌then◌else◌, is_nil, ℤ, ltb_ℤ, negsuc, Bytes, bytes_eq,
}
use switchbot_keypad_bridge.MacUtils.{upper_mac}
use switchbot_keypad_bridge.BleUtils.{Advertised, switchbot_service_data}
use switchbot_keypad_bridge.KeypadAdvert.{KeypadFamily, KeypadIdent, identify_keypad}
use switchbot_keypad_bridge.CloudClient.Client.{AccountDevice}

module _ {V : Type 0} where
  unfoldable pub find : Bytes → List (Bytes × V) → Option V
  find k [] = none
  find k ((j, v) ∷ m) = let rest = find k m in if bytes_eq j k then some v else rest

  -- `m[k] = v`
  unfoldable pub put : Bytes → V → List (Bytes × V) → List (Bytes × V)
  put k v [] = (k, v) ∷ []
  put k v ((j, w) ∷ m) = let rest = put k v m in if bytes_eq j k then (j, v) ∷ m else (j, w) ∷ rest

pub record NearbyDevice : Type 0 where
  pub rssi : ℤ
  pub svc_data : Bytes

-- -128 dBm, below any reading
abbrev pub unheard : NearbyDevice
unheard = record { rssi = negsuc 127; svc_data = [] }

abbrev pub device_or : Option NearbyDevice → NearbyDevice
device_or none = unheard
device_or (some dev) = dev

-- One packet: the strongest signal is kept, and the latest service data, whatever the signal of its packet.
unfoldable pub hear : ℤ → Bytes → NearbyDevice → NearbyDevice
hear rssi sd dev = record {
  rssi = if ltb_ℤ dev.rssi rssi then rssi else dev.rssi;
  svc_data = if is_nil sd then dev.svc_data else sd;
}

unfoldable pub scan_into :
    List Advertised → List (Bytes × NearbyDevice) → List (Bytes × NearbyDevice)
scan_into [] seen = seen
scan_into (adv ∷ advs) seen =
    let mac = upper_mac adv.address in
    scan_into advs
      (put mac (hear adv.rssi (switchbot_service_data adv) (device_or (find mac seen))) seen)

unfoldable pub scan_nearby : List Advertised → List (Bytes × NearbyDevice)
scan_nearby advs = scan_into advs []

-- A line of the list.
pub record KeypadRow : Type 0 where
  pub mac : Bytes
  pub name : Bytes
  pub family : KeypadFamily
  pub rssi : ℤ

-- The identifications so far, by address.
abbrev pub Identified : Type 0
Identified = List (Bytes × KeypadIdent)

abbrev pub cached_or : Option KeypadIdent → KeypadIdent → KeypadIdent
cached_or none ident = ident
cached_or (some cached) ident = cached

-- The identification from the live advertisement, or an earlier one.
unfoldable pub identify_device : Bytes → NearbyDevice → Identified → KeypadIdent × Identified
identify_device mac dev known =
    let ident = identify_keypad (some dev.svc_data) in
    if ident.is_keypad
    then (ident, put mac ident known)
    else (cached_or (find mac known) ident, known)

abbrev pub row_if : KeypadIdent → AccountDevice → ℤ → List KeypadRow → List KeypadRow
row_if ident k rssi rows =
    if ident.is_keypad
    then record { mac = k.mac_pretty; name = k.name; family = ident.family; rssi = rssi } ∷ rows
    else rows

-- One round of the loop over the account's devices, before the `later` rounds.
abbrev pub list_device :
    AccountDevice
    → Option NearbyDevice
    → Identified
    → (Identified → List KeypadRow × Identified)
    → List KeypadRow × Identified
list_device k none known later = later known
list_device k (some dev) known later =
    let (ident, known') = identify_device k.mac_pretty dev known in
    let (rows, known'') = later known' in (row_if ident k dev.rssi rows, known'')

unfoldable pub list_keypads :
    List AccountDevice → List (Bytes × NearbyDevice) → Identified → List KeypadRow × Identified
list_keypads [] nearby known = ([], known)
list_keypads (k ∷ devices) nearby known =
    list_device k (find k.mac_pretty nearby) known (list_keypads devices nearby)
