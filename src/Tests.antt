-- ===== src/Tests.antt =====
-- Runs of the model at concrete inputs, and the theorems at inputs that meet their hypotheses.
mod Ranges
mod Tracker
mod Guids
mod Images
mod Handles
mod Calls
mod Thunks
mod Runs
mod Stores
