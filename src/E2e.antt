-- ===== src/E2e.antt =====
-- src/opensomeip/e2e.py: `E2EProtection` over a profile that the application supplies, and the CRCs.
pub mod Crc
pub mod Protection
