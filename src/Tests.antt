-- ===== src/Tests.antt =====
-- Runs of the definitions on concrete inputs, and the theorems applied to them.
mod Memory
mod Names
mod Plan
mod Project
mod RegistryRuns
mod Render
mod Rows
mod Rules
mod StateRuns
mod Status
mod Tracker
mod Units
mod Wiring
mod Write
