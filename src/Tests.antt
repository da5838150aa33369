-- ===== src/Tests.antt =====
-- Runs of the models on concrete inputs, and the theorems applied to them.
mod Data
mod Ssrf
mod Retry
mod Rounds
mod Hint
mod Redirect
mod Query
mod Loops
mod Config
mod Connections
mod Guard
mod Watchdog
mod Dial
mod Safety
mod Requests
mod Observed
mod Drained
