-- ===== src/Tests.antt =====
-- Examples: the theorems at concrete inputs, and runs of the definitions.
mod Fixtures
mod Values
mod Checksums
mod Receiving
mod Sending
mod Services
mod Calling
mod Correlating
mod Demos
mod Loading
