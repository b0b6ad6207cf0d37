-- ===== src/Lib.antt =====
-- The SwitchBot keypad bridge: an ESPHome component that emulates a SwitchBot lock, so that a keypad
-- pairs with it and its unlocks reach Home Assistant. All sources are in
-- components/switchbot_keypad_bridge.
--
-- The parts, and where they are modelled:
--
-- - LockProtocol (lock_protocol.h, lock_protocol.cpp): what a decrypted frame means. Shape states the
--   meaning independently of the decoder, Index the credential slots.
-- - KeypadAdvert (keypad_advert.h, keypad_advert.cpp): what a keypad's BLE advertisement says.
-- - AesCtr (aes_ctr.h, aes_ctr.cpp): AES-CTR over PSA Crypto. PSA is a library: its calls are the record
--   `Psa`, and what its documentation says of them the record `Documented` of Laws. Cipher is the
--   interface that the session takes.
-- - LockSession (lock_session.h, lock_session.cpp): the encrypted session, a record that each method
--   returns changed; the children hold its state (State), its invariant (Invariant), the replay ring as
--   a list of the last eight ciphertexts (Replay), the frames it accepts (Gate, Accepted), what a
--   frame may change (Steps, Traces), and both directions of a message (Transport). The words of
--   `esp_random()` are arguments.
-- - Bridge (switchbot_keypad_bridge.h, switchbot_keypad_bridge.cpp): the component itself. State has
--   its fields and the effects that others see, in order; a method takes the state and returns its
--   effects and the new state. Users, Events, EventLog and Commands are the path from a frame to its
--   events and its answer; WebUsers and Settings what the web page edits and the flash keeps; Scan the
--   advertisements; Pairing the pairing, its undoing and the outgoing commands; Configured the bridge
--   before its start; Startup `setup()` and what the flash brings back; Loop the pass of the main task
--   that calls all of them, with the queue that the BLE task fills. Sample is a paired bridge for the
--   tests.
-- - MacUtils (mac_utils.h, mac_utils.cpp): MAC addresses as text.
-- - KeypadPairer (keypad_pairer.h, keypad_pairer.cpp): the job that pairs a keypad, sends it a command or reads
--   its settings. JobStatus has the pairer's state, `start` and the notifications, Dialect the constants of
--   the two families. A job is a program that can give up (Job): Session is `execute_` up to the session IV, Execute
--   the rest of it. What the radio and the keypad answer comes with the job, and the calls of the BLE stack
--   are recorded. Rules, Triple, Followed and Linking are rules for such programs: a postcondition for the
--   way through, another one for giving up.
-- - CloudClient (cloud_client.h, cloud_client.cpp): the account's devices and the keypad's key. The JSON library is the
--   record `Cjson`, an HTTPS exchange the record `Exchange` of Post.
-- - PairingUi (pairing_ui.h, pairing_ui.cpp): the web server. Server has its state and the outgoing commands, Auth
--   and Credentials the login, Body the reading of a request's body, Nearby the scan for keypads, CommKey the key
--   in the flash, Replies and Handlers the endpoints, PairStatus the poll of a pairing job. It owns a CloudClient and
--   a KeypadPairer, and hands a pairing over to the bridge.
-- - BleUtils (ble_utils.cpp): an advertisement's service data, and the order of an address.
-- - Common: lists, bytes, signed numbers and Boolean tests that the parts share.
--
-- Numbers: a `uint8_t`, `uint16_t` or `uint32_t` is a natural number, with the wrap-around written out where
-- the code computes with it; `millis()` wraps at 2 ^ 32. A pointer that may be null is an Option or, for an
-- entity, a flag of `Wiring`.
-- The loops are recursive on the lists they run over, and the reading of a body on the segments that
-- arrive. A job tries to connect three times and waits for the session IV six times, as the code does.
-- Only `decimal`, which prints a number, has fuel, the number itself plus one, which is more than its
-- digits.
--
-- Not modelled: `dump_config()`, the preparation of the BLE stack except the address, the setters of
-- the web login and of the entities, which come with the state, the actions of automation.h, which
-- call one method of the bridge each, the Python code generation, the web page, logging except that of
-- a raw command's answer, and the locks that guard the hand-over between tasks, which is atomic here.
-- The length of a wait for a notification is not modelled: those that arrive until the job looks at
-- the last of them, or moves on, come with the write before, and later ones with the next. The main loop's own
-- calls of the BLE stack while a job runs, such as the start of the advertising after a disconnect, are Loop's and
-- do not stand among the calls that a job records. JSON text
-- is not parsed or printed: a request is what the parser reports of it, a reply what it is made of. A
-- `long` has 32 bits.
pub mod Common
pub mod LockProtocol
pub mod KeypadAdvert
pub mod AesCtr
pub mod LockSession
pub mod Bridge
pub mod MacUtils
pub mod BleUtils
pub mod KeypadPairer
pub mod CloudClient
pub mod PairingUi
