-- ===== src/V09.antt =====
-- Package v09 (v09/*.go): the messages of a v0.9 or v0.9.1 client.
pub mod Message
pub mod Rules
pub mod Decode
pub mod Validate
pub mod Tools
