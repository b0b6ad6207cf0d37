-- ===== src/Bridge.antt =====
-- components/switchbot_keypad_bridge/switchbot_keypad_bridge.h and switchbot_keypad_bridge.cpp.
pub mod Users
pub mod Events
pub mod Commands
pub mod State
pub mod EventLog
pub mod Settings
pub mod WebUsers
pub mod Scan
pub mod Loop
pub mod Pairing
pub mod Startup
pub mod Configured
pub mod Sample
mod Tests
