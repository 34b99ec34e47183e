-- ===== src/Examples.antt =====
-- Concrete runs of the program's parts, on which the theorems are applied.
mod Kit
mod Schema
mod Rules
mod Calls
mod Validate
mod Decode
mod Answers
mod Cache
mod Catalog
mod Client
mod Toolset
mod RulesV09
mod ValidateV09
mod Compile
mod Tools
