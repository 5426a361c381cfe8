-- ===== src/Verify.antt =====
-- Signature verification: internal/verifier/verifier.go, VerifyRequest of
-- internal/crypto/verifiable.go, and the Verify methods of internal/scalegraph/requests.go.
mod External
mod Envelope
mod Checks
unfoldable pub use External.*
unfoldable pub use Envelope.*
unfoldable pub use Checks.*
