-- ===== src/CloudClient.antt =====
-- components/switchbot_keypad_bridge/cloud_client.h and cloud_client.cpp: the SwitchBot account of the user, over
-- HTTPS and JSON. Both are libraries: a JSON text is what cJSON makes of it, a request what came of it.
pub mod Cjson
pub mod Hex
pub mod Post
pub mod Client
pub mod Sample
mod Tests
