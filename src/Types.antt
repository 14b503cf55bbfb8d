-- ===== src/Types.antt =====
-- src/opensomeip/types.py: the enumerations and the two 32-bit identifiers.
pub mod Enums
pub mod Fields
pub mod MessageId
pub mod RequestId
