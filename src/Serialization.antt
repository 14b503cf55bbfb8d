-- ===== src/Serialization.antt =====
-- src/opensomeip/serialization.py: `Serializer` and `Deserializer`.
pub mod Struct
pub mod Native
pub mod Writer
pub mod Reader
pub mod Reading
pub mod Values
pub mod Encoding
pub mod RoundTrip
pub mod Bounds
