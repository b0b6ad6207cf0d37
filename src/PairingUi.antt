-- ===== src/PairingUi.antt =====
-- components/switchbot_keypad_bridge/pairing_ui.h and pairing_ui.cpp: the web server of the bridge.
pub mod Auth
pub mod Credentials
pub mod Body
pub mod PairStatus
pub mod CommKey
pub mod Nearby
pub mod Server
pub mod Replies
pub mod Handlers
mod Sample
mod Tests
