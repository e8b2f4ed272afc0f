-- ===== src/Serializer.antt =====
-- src/format/serializer.cpp and include/uasm/serializer.h: the `.uo` file format.
pub mod Writer
pub mod Reader
pub mod Encode
pub mod Decode
pub mod Words
pub mod RoundTrip
pub mod Stable
pub mod Prefix
pub mod Tests
