-- ===== src/PairingUi/Handlers/Guarded.antt =====
-- components/switchbot_keypad_bridge/pairing_ui.cpp: no handler runs without credentials.
use switchbot_keypad_bridge.Common.{
  ◌≡◌, refl, sym, ap, ◌∙◌, ◌≢◌, Bool, true, false, Option, some, [], is_nil, Bytes,
}
use switchbot_keypad_bridge.CloudClient.Cjson.{Cjson}
use switchbot_keypad_bridge.PairingUi.Auth.{require_auth}
use switchbot_keypad_bridge.PairingUi.Credentials.{Passes, require_auth_iff}
use switchbot_keypad_bridge.PairingUi.Server.{PairingUi, Route}
use switchbot_keypad_bridge.PairingUi.Replies.{HttpReq, Around, unauthorized}
use switchbot_keypad_bridge.PairingUi.Handlers.{serve}

module _ (cjson : Cjson) (base64_decode : Bytes → Option Bytes) (route : Route) (w : Around)
    (req : HttpReq) (ui : PairingUi) where
  refused :
      (go : Bool)
      → require_auth base64_decode req.authorization ui.credentials ≡ go
      → go ≢ true
      → serve cjson base64_decode route w req ui ≡ (unauthorized, [], ui)
  unfolding serve
  refused true e h = absurd (h refl)
  refused false e h = rw e refl

  -- Where a password is set, a request to any endpoint whose Authorization header does not pass gets the challenge
  -- and nothing else: the server's state stays as it was, and nothing is asked of the bridge, the flash or the cloud.
  pub serve-guarded :
      (header : Bytes)
      → is_nil ui.credentials.pass ≡ false
      → req.authorization ≡ some header
      → ¬ Passes base64_decode header ui.credentials
      → serve cjson base64_decode route w req ui ≡ (unauthorized, [], ui)
  serve-guarded header n given fails = refused _ refl (λ e. fails (
      (require_auth_iff base64_decode header ui.credentials n).0
        (ap (λ o. require_auth base64_decode o ui.credentials) (sym given) ∙ e)))
