-- ===== src/V10.antt =====
-- Package v10 (v10/*.go): A2UI v1.0.
pub mod Rules
pub mod Callers
pub mod Message
pub mod Dispatch
pub mod Validate
pub mod Decode
pub mod Tools
