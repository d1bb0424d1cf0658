-- ===== src/Json.antt =====
-- serialization/json.c: values, the encoder and the decoder.
pub mod Value
pub mod Encode
pub mod Decode
pub mod RoundTrip
