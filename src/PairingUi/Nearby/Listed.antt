-- ===== src/PairingUi/Nearby/Listed.antt =====
-- components/switchbot_keypad_bridge/pairing_ui.cpp: which of the devices in range are listed as keypads.
use switchbot_keypad_bridge.Common.{
  ◌≡◌, refl, ◌∙◌, Bool, true, false, ◌||◌, Option, none, some, List, [], ◌∷◌, ◌++◌, arith,
  if◌then◌else◌, ℤ, Bytes, bytes_eq, bytes_eq_refl,
}
use switchbot_keypad_bridge.KeypadAdvert.{KeypadIdent, identify_keypad}
use switchbot_keypad_bridge.CloudClient.Client.{AccountDevice}
use switchbot_keypad_bridge.PairingUi.Nearby.{
  find, put, NearbyDevice, KeypadRow, Identified, cached_or, identify_device, row_if, list_device,
  list_keypads,
}
use switchbot_keypad_bridge.PairingUi.Nearby.Scanned.{find-put}

-- The cache holds an identification of this address as a keypad.
record IsKnown (mac : Bytes) (known : Identified) : Type 0 where
  ident : KeypadIdent
  cached : find mac known ≡ some ident
  is_one : ident.is_keypad ≡ true

abbrev pub has_row : Bytes → List KeypadRow → Bool
has_row mac [] = false
has_row mac (row ∷ rows) = bytes_eq row.mac mac || has_row mac rows

put-IsKnown :
    (mac j : Bytes) (ident : KeypadIdent) (known : Identified) (same : Bool)
    → bytes_eq j mac ≡ same
    → ident.is_keypad ≡ true
    → IsKnown mac known
    → IsKnown mac (put j ident known)
put-IsKnown mac j ident known true e is_one h = record {
  ident = ident;
  cached = find-put mac j ident known ∙ rw e;
  is_one = is_one;
}
put-IsKnown mac j ident known false e is_one h = record {
  ident = h.ident;
  cached = find-put mac j ident known ∙ rw e (h.cached);
  is_one = h.is_one;
}

-- The choice of `identify_device`.
abbrev settle : Bool → Bytes → KeypadIdent → Identified → KeypadIdent × Identified
settle b mac ident known =
    if b then (ident, put mac ident known) else (cached_or (find mac known) ident, known)

settle-IsKnown :
    (b : Bool) (mac j : Bytes) (ident : KeypadIdent) (known : Identified)
    → ident.is_keypad ≡ b
    → IsKnown mac known
    → IsKnown mac (settle b j ident known).1
settle-IsKnown true mac j ident known e h = put-IsKnown mac j ident known _ refl e h
settle-IsKnown false mac j ident known e h = h

settle-known :
    (b : Bool) (mac : Bytes) (ident : KeypadIdent) (known : Identified)
    → ident.is_keypad ≡ b
    → IsKnown mac known
    → (settle b mac ident known).0.is_keypad ≡ true
settle-known true mac ident known e h = e
settle-known false mac ident known e h = rw (h.cached) (h.is_one)

identify_device-IsKnown :
    (mac j : Bytes) (dev : NearbyDevice) (known : Identified)
    → IsKnown mac known
    → IsKnown mac (identify_device j dev known).1
unfolding identify_device
identify_device-IsKnown mac j dev known h =
    settle-IsKnown _ mac j (identify_keypad (some dev.svc_data)) known refl h

identify_device-known :
    (mac : Bytes) (dev : NearbyDevice) (known : Identified)
    → IsKnown mac known
    → (identify_device mac dev known).0.is_keypad ≡ true
unfolding identify_device
identify_device-known mac dev known h =
    settle-known _ mac (identify_keypad (some dev.svc_data)) known refl h

row_if-has_row :
    (ident : KeypadIdent) (k : AccountDevice) (rssi : ℤ) (rows : List KeypadRow) (mac : Bytes)
    → has_row mac rows ≡ true
    → has_row mac (row_if ident k rssi rows) ≡ true
row_if-has_row ident k rssi rows mac h = ground (arith, h)

row_if-own :
    (ident : KeypadIdent) (k : AccountDevice) (rssi : ℤ) (rows : List KeypadRow)
    → ident.is_keypad ≡ true
    → has_row k.mac_pretty (row_if ident k rssi rows) ≡ true
row_if-own ident k rssi rows e = rw e (ground (arith, bytes_eq_refl k.mac_pretty))

listed_later :
    (near : Option NearbyDevice) (j k : AccountDevice) (known : Identified)
    (later : Identified → List KeypadRow × Identified)
    → IsKnown k.mac_pretty known
    → ((known' : Identified)
        → IsKnown k.mac_pretty known'
        → has_row k.mac_pretty (later known').0 ≡ true)
    → has_row k.mac_pretty (list_device j near known later).0 ≡ true
listed_later none j k known later h goes_on = goes_on known h
listed_later (some dev) j k known later h goes_on =
    row_if-has_row (identify_device j.mac_pretty dev known).0 j dev.rssi
      (later (identify_device j.mac_pretty dev known).1).0 k.mac_pretty
      (goes_on _ (identify_device-IsKnown k.mac_pretty j.mac_pretty dev known h))

-- A device that the cache knows as a keypad is listed as long as it belongs to the account and is in range.
list_keypads-IsKnown :
    (before : List AccountDevice) (k : AccountDevice) (after : List AccountDevice)
    (nearby : List (Bytes × NearbyDevice)) (known : Identified) (dev : NearbyDevice)
    → find k.mac_pretty nearby ≡ some dev
    → IsKnown k.mac_pretty known
    → has_row k.mac_pretty (list_keypads (before ++ k ∷ after) nearby known).0 ≡ true
unfolding list_keypads
list_keypads-IsKnown [] k after nearby known dev near h = rw near (
    row_if-own (identify_device k.mac_pretty dev known).0 k dev.rssi
      (list_keypads after nearby (identify_device k.mac_pretty dev known).1).0
      (identify_device-known k.mac_pretty dev known h))
list_keypads-IsKnown (j ∷ before) k after nearby known dev near h =
    listed_later (find j.mac_pretty nearby) j k known (list_keypads (before ++ k ∷ after) nearby) h
      (λ known' h'. list_keypads-IsKnown before k after nearby known' dev near h')

settle-learns :
    (b : Bool) (mac : Bytes) (ident : KeypadIdent) (known : Identified)
    → ident.is_keypad ≡ true
    → b ≡ true
    → IsKnown mac (settle b mac ident known).1
settle-learns true mac ident known is_one e = record {
  ident = ident;
  cached = find-put mac mac ident known ∙ rw (bytes_eq_refl mac) refl;
  is_one = is_one;
}
settle-learns false mac ident known is_one e = cc

identify_device-learns :
    (mac : Bytes) (dev : NearbyDevice) (known : Identified)
    → (identify_keypad (some dev.svc_data)).is_keypad ≡ true
    → IsKnown mac (identify_device mac dev known).1
unfolding identify_device
identify_device-learns mac dev known e =
    settle-learns _ mac (identify_keypad (some dev.svc_data)) known e e

-- What the later rounds leave in the cache, this round leaves there.
list_device-later :
    (P : Identified → Type 0) (near : Option NearbyDevice) (j : AccountDevice) (known : Identified)
    (later : Identified → List KeypadRow × Identified)
    → ((known' : Identified) → P (later known').1)
    → P (list_device j near known later).1
list_device-later P none j known later h = h known
list_device-later P (some dev) j known later h = h _

list_device-keeps :
    (mac : Bytes) (near : Option NearbyDevice) (j : AccountDevice) (known : Identified)
    (later : Identified → List KeypadRow × Identified)
    → IsKnown mac known
    → ((known' : Identified) → IsKnown mac known' → IsKnown mac (later known').1)
    → IsKnown mac (list_device j near known later).1
list_device-keeps mac none j known later h goes_on = goes_on known h
list_device-keeps mac (some dev) j known later h goes_on =
    goes_on _ (identify_device-IsKnown mac j.mac_pretty dev known h)

list_keypads-keeps :
    (mac : Bytes) (devices : List AccountDevice) (nearby : List (Bytes × NearbyDevice))
    (known : Identified)
    → IsKnown mac known
    → IsKnown mac (list_keypads devices nearby known).1
unfolding list_keypads
list_keypads-keeps mac [] nearby known h = h
list_keypads-keeps mac (j ∷ devices) nearby known h =
    list_device-keeps mac (find j.mac_pretty nearby) j known (list_keypads devices nearby) h
      (λ known' h'. list_keypads-keeps mac devices nearby known' h')

list_keypads-learns :
    (before : List AccountDevice) (k : AccountDevice) (after : List AccountDevice)
    (nearby : List (Bytes × NearbyDevice)) (known : Identified) (dev : NearbyDevice)
    → find k.mac_pretty nearby ≡ some dev
    → (identify_keypad (some dev.svc_data)).is_keypad ≡ true
    → IsKnown k.mac_pretty (list_keypads (before ++ k ∷ after) nearby known).1
unfolding list_keypads
list_keypads-learns [] k after nearby known dev near e = rw near (
    list_keypads-keeps k.mac_pretty after nearby _
      (identify_device-learns k.mac_pretty dev known e))
list_keypads-learns (j ∷ before) k after nearby known dev near e =
    list_device-later (IsKnown k.mac_pretty) (find j.mac_pretty nearby) j known
      (list_keypads (before ++ k ∷ after) nearby)
      (λ known'. list_keypads-learns before k after nearby known' dev near e)

-- Requests for the list, each with the account's devices and what its scan found: the cache after them.
pub list_all : List (List AccountDevice × List (Bytes × NearbyDevice)) → Identified → Identified
list_all [] known = known
list_all ((devices, nearby) ∷ requests) known =
    list_all requests (list_keypads devices nearby known).1

list_all-keeps :
    (mac : Bytes) (requests : List (List AccountDevice × List (Bytes × NearbyDevice)))
    (known : Identified)
    → IsKnown mac known
    → IsKnown mac (list_all requests known)
unfolding list_all
list_all-keeps mac [] known h = h
list_all-keeps mac ((devices, nearby) ∷ requests) known h =
    list_all-keeps mac requests _ (list_keypads-keeps mac devices nearby known h)

-- Once the service data of one scan has shown that a device of the account is a keypad, each later request lists
-- it as long as it still belongs to the account and is in range, whatever its scan caught of the service data and
-- whatever the requests in between found. The cache may start with anything.
pub list_keypads-stays_listed :
    (k : AccountDevice) (before after : List AccountDevice) (nearby : List (Bytes × NearbyDevice))
    (dev : NearbyDevice) (known : Identified)
    (between : List (List AccountDevice × List (Bytes × NearbyDevice)))
    (before' after' : List AccountDevice) (nearby' : List (Bytes × NearbyDevice))
    (dev' : NearbyDevice)
    → find k.mac_pretty nearby ≡ some dev
    → (identify_keypad (some dev.svc_data)).is_keypad ≡ true
    → find k.mac_pretty nearby' ≡ some dev'
    → let known' = list_all between (list_keypads (before ++ k ∷ after) nearby known).1 in
      has_row k.mac_pretty (list_keypads (before' ++ k ∷ after') nearby' known').0 ≡ true
list_keypads-stays_listed k before after nearby dev known between before' after' nearby' dev' near
      shown near' =
    list_keypads-IsKnown before' k after' nearby' _ dev' near' (
      list_all-keeps k.mac_pretty between _
        (list_keypads-learns before k after nearby known dev near shown))
