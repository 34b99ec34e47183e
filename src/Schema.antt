-- ===== src/Schema.antt =====
-- Package schema (internal/schema/*.go): the checks that v0.9 and v1.0 share.
pub mod Paths
pub mod Finalize
pub mod Rules
pub mod Resolve
pub mod Inbound
pub mod Format
pub mod Engine
pub mod Decoding
pub mod Catalog
pub mod Cache
pub mod Passes
pub mod Compile
