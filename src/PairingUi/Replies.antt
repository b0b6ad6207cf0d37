-- ===== src/PairingUi/Replies.antt =====
-- components/switchbot_keypad_bridge/pairing_ui.cpp: requests and replies of the web server, and the handlers
-- that only pass something on. What the libraries answer in the
-- course of a request comes with it; a reply is its status and what its body is made of.
use switchbot_keypad_bridge.Common.{
  ℕ, Bool, false, Option, none, some, List, [], ◌∷◌, if◌then◌else◌, is_nil, Bytes, text,
}
use switchbot_keypad_bridge.BleUtils.{Advertised}
use switchbot_keypad_bridge.CloudClient.Post.{Exchange, HttpRequest}
use switchbot_keypad_bridge.PairingUi.Body.{read_body}
use switchbot_keypad_bridge.PairingUi.CommKey.{CommKey, CommKeyBlob}
use switchbot_keypad_bridge.PairingUi.Nearby.{KeypadRow}
use switchbot_keypad_bridge.PairingUi.PairStatus.{Paired, PairReply}
use switchbot_keypad_bridge.PairingUi.Server.{PairingUi, Launch}

-- A request: its Authorization header as `require_auth` takes it, and its body as it arrives.
pub record HttpReq : Type 0 where
  pub authorization : Option Bytes
  pub content_len : ℕ
  pub segments : List Bytes

-- What the bridge and the libraries answer while a request is served: the JSON of the bridge for the page, none if it
-- gives none; its two handlers, if set; two exchanges with the cloud; a scan; and what a job needs.
pub record Around : Type 0 where
  pub provided : Option Bytes
  pub users_handler : Option (Bytes → Bool)
  pub settings_handler : Option (Bytes → Bool)
  pub first : Exchange
  pub second : Exchange
  pub adverts : List Advertised
  pub own_address : Bytes
  pub launch : Launch

pub data Payload : Type 0 where
  challenge ok_true : Payload
  page json error_text region_text : Bytes → Payload
  keypad_list : List KeypadRow → Payload
  job_started : Bytes → List Bytes → Payload
  progress : PairReply → Payload
  key_shown : Bool → CommKey → Payload

pub record Reply : Type 0 where
  pub status : Bytes
  pub payload : Payload

-- What a request makes others do: the bridge, the flash, the cloud.
pub data UiEffect : Type 0 where
  hand_users hand_settings : Bytes → UiEffect
  save_key : CommKeyBlob → UiEffect
  on_paired : Paired → UiEffect
  post : List HttpRequest → UiEffect

abbrev pub Handled : Type 0
Handled = Reply × List UiEffect × PairingUi

abbrev pub reply_ok : Payload → Reply
reply_ok payload = record { status = text "200 OK"; payload = payload }

abbrev pub reply_error : Bytes → Bytes → Reply
reply_error status message = record { status = status; payload = error_text message }

abbrev pub unauthorized : Reply
unauthorized = record { status = text "401 Unauthorized"; payload = challenge }

abbrev pub body_of : HttpReq → Bytes
body_of req = read_body req.content_len req.segments

unfoldable pub handle_root : PairingUi → Handled
handle_root ui = (
  if is_nil ui.html
      then reply_error (text "500 Internal Server Error")
          (text "Pairing UI was not embedded in this build.")
      else reply_ok (page ui.html),
  [],
  ui,
)

-- An endpoint that shows what the bridge provides, or a default.
abbrev pub provided_or : Option Bytes → Bytes → Payload
provided_or none default = json default
provided_or (some body) default = json body

unfoldable pub handle_provided : Bytes → Around → PairingUi → Handled
handle_provided default w ui = (reply_ok (provided_or w.provided default), [], ui)

abbrev pub accepts : Option (Bytes → Bool) → Bytes → Bool
accepts none body = false
accepts (some handler) body = handler body

abbrev pub if_set : Option (Bytes → Bool) → UiEffect → List UiEffect
if_set none effect = []
if_set (some handler) effect = effect ∷ []

unfoldable pub handle_users_set : Around → HttpReq → PairingUi → Handled
handle_users_set w req ui = (
  if accepts w.users_handler (body_of req)
      then reply_ok ok_true
      else reply_error (text "400 Bad Request") (text "Could not parse the users list."),
  if_set w.users_handler (hand_users (body_of req)),
  ui,
)

unfoldable pub handle_settings_set : Around → HttpReq → PairingUi → Handled
handle_settings_set w req ui = (
  if accepts w.settings_handler (body_of req)
      then reply_ok ok_true
      else reply_error (text "400 Bad Request") (text "Could not apply the settings."),
  if_set w.settings_handler (hand_settings (body_of req)),
  ui,
)

unfoldable pub handle_commkey : PairingUi → Handled
handle_commkey ui = (reply_ok (key_shown ui.log_keys ui.comm_key), [], ui)
