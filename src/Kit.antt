-- ===== src/Kit.antt =====
-- Package kit: problems, capabilities, catalog resolvers and options (kit/*.go).
pub mod Problem
pub mod Error
pub mod Capabilities
pub mod Catalog
pub mod Options
pub mod Agent
