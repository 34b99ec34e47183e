-- ===== src/Toolkit.antt =====
-- Package internal/toolkit: the two tools that every version exposes to the agent's model.
pub mod JsonSchema
pub mod Types
pub mod Description
pub mod Tools
