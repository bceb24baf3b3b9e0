-- ===== src/Tests.antt =====
-- Runs of the model on small inputs, and the theorems at concrete arguments.
mod Data
mod Types
mod Registry
mod Config
mod Listener
mod Mesh
mod Camp
mod Tool
mod Stream
mod Settings
mod Text
