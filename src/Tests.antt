-- ===== src/Tests.antt =====
-- Runs of the models on concrete inputs.
mod Basic
mod Encoder
mod Device
mod Discovery
mod Jobs
mod Requests
mod Rules
mod Pdf
mod Threads
mod Connections
mod Options
mod Settings
mod Starting
