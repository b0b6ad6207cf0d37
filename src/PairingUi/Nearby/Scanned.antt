-- ===== src/PairingUi/Nearby/Scanned.antt =====
-- components/switchbot_keypad_bridge/pairing_ui.cpp: which devices a scan finds.
use switchbot_keypad_bridge.Common.{
  ◌≡◌, refl, sym, ap, ◌∙◌, Bool, true, false, not, ◌&&◌, ◌||◌, Option, none, some, List, [], ◌∷◌,
  arith, if◌then◌else◌, is_nil, ℤ, ltb_ℤ, negsuc, Bytes, bytes_eq, bytes_eq→≡, bytes_eq_iff,
}
use switchbot_keypad_bridge.MacUtils.{upper_mac}
use switchbot_keypad_bridge.BleUtils.{Advertised, switchbot_service_data}
use switchbot_keypad_bridge.PairingUi.Nearby.{
  find, put, NearbyDevice, device_or, hear, scan_into, scan_nearby,
}

pub find-put :
    {V : Type 0} (k j : Bytes) (v : V) (m : List (Bytes × V))
    → find k (put j v m) ≡ (if bytes_eq j k then some v else find k m)
unfolding find put
find-put k j v [] = refl
find-put k j v ((i, w) ∷ m) =
    ground (arith, bytes_eq_iff i j, bytes_eq_iff i k, bytes_eq_iff j k, find-put k j v m)

-- The packets of one device.
abbrev is_from : Bytes → Advertised → Bool
is_from mac adv = bytes_eq (upper_mac adv.address) mac

abbrev pub is_heard : Bytes → List Advertised → Bool
is_heard mac [] = false
is_heard mac (adv ∷ advs) = is_from mac adv || is_heard mac advs

-- The strongest signal, from a bound on.
abbrev pub strongest : Bytes → ℤ → List Advertised → ℤ
strongest mac best [] = best
strongest mac best (adv ∷ advs) =
    strongest mac (if is_from mac adv && ltb_ℤ best adv.rssi then adv.rssi else best) advs

-- The last service data that is not empty.
abbrev pub latest_data : Bytes → Bytes → List Advertised → Bytes
latest_data mac sd [] = sd
latest_data mac sd (adv ∷ advs) =
    latest_data mac
      (if is_from mac adv && not (is_nil (switchbot_service_data adv))
        then switchbot_service_data adv
        else sd)
      advs

abbrev summary : Bytes → Bool → NearbyDevice → List Advertised → Option NearbyDevice
summary mac known dev advs =
    if known || is_heard mac advs
    then some (record {
      rssi = strongest mac dev.rssi advs;
      svc_data = latest_data mac dev.svc_data advs;
    })
    else none

abbrev is_some : Option NearbyDevice → Bool
is_some none = false
is_some (some dev) = true

-- One packet more, from the device or from another.
abbrev heard_from : Bool → Advertised → NearbyDevice → NearbyDevice
heard_from true adv dev = hear adv.rssi (switchbot_service_data adv) dev
heard_from false adv dev = dev

summary-step :
    (mac : Bytes) (known from : Bool) (dev : NearbyDevice) (adv : Advertised)
    (advs : List Advertised)
    → is_from mac adv ≡ from
    → summary mac known dev (adv ∷ advs)
      ≡ summary mac (known || from) (heard_from from adv dev) advs
unfolding hear
summary-step mac known true dev adv advs e = rw e (ground arith)
summary-step mac true false dev adv advs e = rw e refl
summary-step mac false false dev adv advs e = rw e refl

summary_of : Bytes → Option NearbyDevice → List Advertised → Option NearbyDevice
summary_of mac o advs = summary mac (is_some o) (device_or o) advs

summary_of-step :
    (mac : Bytes) (o : Option NearbyDevice) (adv : Advertised) (advs : List Advertised)
    → summary_of mac o (adv ∷ advs)
      ≡ summary mac
          (is_some o || is_from mac adv)
          (heard_from (is_from mac adv) adv (device_or o))
          advs
unfolding summary_of
summary_of-step mac o adv advs =
    summary-step mac (is_some o) (is_from mac adv) (device_or o) adv advs refl

summary-none : (mac : Bytes) (o : Option NearbyDevice) → o ≡ summary_of mac o []
unfolding summary_of
summary-none mac none = refl
summary-none mac (some dev) = refl

summary-put :
    (mac : Bytes) (from : Bool) (f g : Option NearbyDevice) (adv : Advertised)
    (advs : List Advertised)
    → (from ≡ true → g ≡ f)
    → summary_of mac
        (if from then some (hear adv.rssi (switchbot_service_data adv) (device_or g)) else f)
        advs
      ≡ summary mac (is_some f || from) (heard_from from adv (device_or f)) advs
unfolding summary_of
summary-put mac true none g adv advs same = rw (same refl)
summary-put mac true (some dev) g adv advs same = rw (same refl)
summary-put mac false none g adv advs same = refl
summary-put mac false (some dev) g adv advs same = refl

find-scan_into :
    (mac : Bytes) (advs : List Advertised) (seen : List (Bytes × NearbyDevice))
    → find mac (scan_into advs seen) ≡ summary_of mac (find mac seen) advs
unfolding scan_into
find-scan_into mac [] seen = summary-none mac (find mac seen)
find-scan_into mac (adv ∷ advs) seen =
    let m = upper_mac adv.address in
    let dev = hear adv.rssi (switchbot_service_data adv) (device_or (find m seen)) in
    find-scan_into mac advs (put m dev seen)
    ∙ ap (λ o. summary_of mac o advs) (find-put mac m dev seen)
    ∙ summary-put mac (bytes_eq m mac) (find mac seen) (find m seen) adv advs
        (λ e. ap (λ k. find k seen) (bytes_eq→≡ m mac e))
    ∙ sym (summary_of-step mac (find mac seen) adv advs)

-- A scan finds exactly the devices of which it heard a packet, whichever packets came between. For each it has the
-- strongest signal of all its packets, from -128 on, and the service data of the last packet that carried any,
-- however weak that packet was.
pub find-scan_nearby :
    (mac : Bytes) (advs : List Advertised)
    → find mac (scan_nearby advs) ≡ (
        if is_heard mac advs
        then some
            (record { rssi = strongest mac (negsuc 127) advs; svc_data = latest_data mac [] advs })
        else none)
unfolding scan_nearby summary_of find
find-scan_nearby mac advs = find-scan_into mac advs []
