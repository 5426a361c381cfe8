-- ===== src/VerifyLaws.antt =====
-- What an accepted signature guarantees (internal/verifier, internal/crypto/verifiable.go and
-- internal/scalegraph/requests.go).
pub mod Envelope
pub mod Payload
pub mod ReadOnly
