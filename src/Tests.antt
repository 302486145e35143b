-- ===== src/Tests.antt =====
-- Runs of the server over a database in memory, at concrete inputs.
mod Memory
mod Store
mod Alert
mod Api
mod Settings
mod Jwt
mod Bench
mod Startup
mod Traffic
mod Concurrent
mod Router
