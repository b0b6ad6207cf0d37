-- ===== src/KeypadPairer.antt =====
-- components/switchbot_keypad_bridge/keypad_pairer.h and keypad_pairer.cpp: the background job that drives one
-- session with a keypad as a BLE central: a pairing, a read of its settings, or a single command.
pub mod Dialect
pub mod JobStatus
pub mod Job
pub mod Session
pub mod Execute
mod Triple
mod Phases
mod Rules
mod Linking
mod Ends
pub mod Outcome
pub mod Plan
pub mod Delivery
pub mod Followed
pub mod Paired
pub mod Latch
pub mod Reading
pub mod Sample
mod Tests
