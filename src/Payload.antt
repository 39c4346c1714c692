-- ===== src/Payload.antt =====
-- internal/utils/compression/compression.go, internal/utils/crypto/crypto.go and the payload
-- functions of json.go.
pub mod Packages
pub mod Compression
pub mod Crypto
pub mod Convert
pub mod RoundTrip
