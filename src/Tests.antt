-- ===== src/Tests.antt =====
-- Runs on concrete inputs, and the theorems at inputs that meet their hypotheses.
mod Fixtures
mod Deliveries
mod Goroutines
mod Stores
mod Services
mod Json
mod Loops
mod Logs
mod Programs
mod Streams
mod Documents
mod Objects
mod Syslog
